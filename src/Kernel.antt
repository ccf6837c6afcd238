-- ===== src/Kernel.antt =====
-- src/eag/kernel and src/eag/plugins.
pub mod System
pub mod Plugins
pub mod Lifecycle
mod Tests
