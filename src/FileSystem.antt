-- ===== src/FileSystem.antt =====
-- finding_filesystems/minixfs.c: files of blocks that are reached directly or over an indirect block.
pub mod Disk
pub mod Read
mod Examples
pub mod Slices
pub mod Virtual
pub mod Write
pub mod Nodes
