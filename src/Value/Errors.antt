-- ===== src/Value/Errors.antt =====
-- `ValueError` of src/protocol/value.rs.
pub data ValueError : Type 0 where
  empty_identifier identifier_too_long identifier_control_character : ValueError
  empty_quantity quantity_sign quantity_exponent quantity_character : ValueError
  quantity_leading_zero quantity_empty_fraction quantity_trailing_zero : ValueError
  quantity_zero quantity_precision : ValueError
  empty_timestamp timestamp_format timestamp_range : ValueError
  digest_format : ValueError
  field_path_format : ValueError
