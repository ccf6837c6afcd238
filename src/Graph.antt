-- ===== src/Graph.antt =====
-- src/eag/task_graph and src/eag/execution_graph
pub mod Search
pub mod Links
pub mod Starts
pub mod TaskGraph
pub mod Tests
