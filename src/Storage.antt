-- ===== src/Storage.antt =====
-- components/storage: what the firmware keeps in flash and on the card.
pub mod IgnoreBackup
pub mod Recovery
pub mod Snapshots
pub mod SaveRetry
pub mod State
pub mod Store
