-- ===== src/Vfs.antt =====
-- kernel/src/drivers/vfs: types and errors, paths, the RAM file system, and the drives.
pub mod Types
pub mod Path
pub mod RamFs
pub mod Listing
pub mod DeviceFs
pub mod ProcFs
pub mod Mounts
mod Tests
