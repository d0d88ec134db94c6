-- ===== src/Tests.antt =====
-- Runs of the models on concrete inputs: the values, and the theorems applied to them.
pub mod Values
mod Operating
mod Approving
mod Storing
mod Assembling
mod Running
mod Investigating
