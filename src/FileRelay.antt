-- ===== src/FileRelay.antt =====
-- daemon/src/file_relay: how a file is announced, cut into chunks, and put together again.
pub mod File
pub mod FilePath
pub mod Manifest
pub mod Slice
pub mod Chunker
pub mod Disk
pub mod Writer
