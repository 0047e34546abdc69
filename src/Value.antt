-- ===== src/Value.antt =====
-- Protocol scalar values (src/protocol/value.rs), one module for each scalar.
pub mod Errors
pub mod Decimal
pub mod Quantity
pub mod Timestamp
pub mod Digest
pub mod FieldPath
pub mod Identifier
