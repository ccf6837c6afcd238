-- ===== src/Scheduler.antt =====
-- src/eag/scheduler
pub mod Queue
pub mod Dispatcher
pub mod Tests
