-- ===== src/Execution.antt =====
-- src/eag/execution_graph
pub mod Graph
pub mod Artifacts
pub mod Messaging
pub mod Batch
pub mod Runtime
pub mod Tests
