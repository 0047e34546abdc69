-- ===== src/Examples.antt =====
-- Concrete inputs of the program, and its theorems applied to them.
pub mod Samples
mod Values
mod Observations
mod Agents
mod Evidence
mod Builders
pub mod Generating
pub mod Prepared
mod Contract
