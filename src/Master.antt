-- ===== src/Master.antt =====
-- The master server, internal/master.
pub mod LogBuffer
pub mod Cron
pub mod Users
pub mod Auth
pub mod Registry
pub mod FilePusher
pub mod SyncMappings
pub mod Backups
pub mod Watcher
pub mod Instances
