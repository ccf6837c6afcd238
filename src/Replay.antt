-- ===== src/Replay.antt =====
-- src/eag/governed_session/ledger.py: the durable ledger of replay claims.
pub mod Digest
pub mod Record
pub mod Disk
pub mod Ledger
pub mod Tests
