-- ===== src/Server.antt =====
-- The file server: server/*.go.
pub mod Types
pub mod SmallFile
pub mod Paths
pub mod Database
pub mod Meta
pub mod Sync
pub mod Stat
pub mod Auth
pub mod Remove
pub mod Disk
pub mod Backup
pub mod Reload
pub mod Router
pub mod Folders
pub mod Upload
pub mod Download
pub mod Repair
pub mod Info
