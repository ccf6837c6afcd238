-- ===== src/Session.antt =====
-- src/eag/session
pub mod Models
pub mod Metrics
pub mod Record
pub mod State
pub mod Runtime
pub mod Tests
