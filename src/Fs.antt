-- ===== src/Fs.antt =====
-- The file system of tp3-filesystem/fisopfs/fs.c, by parts.
mod Tests
pub mod State
pub mod Inodes
pub mod Io
pub mod Dirs
pub mod Paths
pub mod Handlers
