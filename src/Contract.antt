-- ===== src/Contract.antt =====
-- tools/contract-schema/src/main.rs: the generator of the published contract.
pub mod Json
pub mod Fields
pub mod Asset
pub mod FieldsFile
pub mod Invalid
pub mod Repository
pub mod Errors
pub mod Schemas
pub mod Fixtures
pub mod Files
pub mod Manifest
pub mod Tool
