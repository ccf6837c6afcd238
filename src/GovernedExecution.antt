-- ===== src/GovernedExecution.antt =====
-- src/eag/governed_execution
pub mod State
pub mod Failure
pub mod Reason
pub mod Budget
pub mod Ledger
pub mod Machine
pub mod Replanning
pub mod Authority
pub mod Tests
