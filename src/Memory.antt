-- ===== src/Memory.antt =====
-- The memory scripts, scripts/mempalace_migrate_wing.py and scripts/mempalace_remote_backup.py.
pub mod Client
pub mod Migrate
pub mod Paging
pub mod Backup
pub mod Excluded
pub mod Wings
pub mod Offers
pub mod Complete
mod Tests
