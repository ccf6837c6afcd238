-- ===== src/Approval.antt =====
-- src/eag/approval
pub mod Models
pub mod Store
pub mod Manager
pub mod Coordinator
pub mod Tests
