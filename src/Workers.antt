-- ===== src/Workers.antt =====
-- src/eag/workers
pub mod Models
pub mod Health
pub mod Registry
pub mod Manager
pub mod Matcher
pub mod Runtime
pub mod Delegation
pub mod Tests
