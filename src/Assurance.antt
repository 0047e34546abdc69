-- ===== src/Assurance.antt =====
-- Agent-side evidence (src/assurance).
pub mod Trace
pub mod Shadow
pub mod Advisory
pub mod Disk
pub mod Recording
