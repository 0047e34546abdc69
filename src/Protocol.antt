-- ===== src/Protocol.antt =====
-- The wire protocol (src/protocol), one module for each source file; `Reference` holds what the
-- observations and the proposals share.
pub mod Identity
pub mod Version
pub mod Capability
pub mod Errors
pub mod Reference
pub mod Live
pub mod Canonical
pub mod Observation
pub mod Receipt
