-- ===== src/Tests.antt =====
-- Runs of the code on a small instance, one for each theorem that has hypotheses.
pub mod Model
pub mod Chains
pub mod Users
pub mod Nodes
pub mod Runs
pub mod Values
pub mod Databases
pub mod Rounds
