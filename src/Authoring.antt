-- ===== src/Authoring.antt =====
-- Local policy evaluation (src/authoring).
pub mod Policy
pub mod Runner
