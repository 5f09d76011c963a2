-- ===== src/Tests.antt =====
-- Runs of the models, and the theorems at concrete data.
mod Data
mod Memory
mod Meta
mod Clean
mod Sync
mod Workers
mod Folders
mod Router
mod Reload
mod Stat
mod Auth
mod Remove
mod Upload
mod Download
mod Fallback
mod Repair
mod Recount
mod Info
mod Backup
mod Console
mod SmallFile
mod Paths
