-- ===== src/Fs.antt =====
-- kernel/fs.c: the parts of the file system.
pub mod Blocks
pub mod Contents
pub mod Icache
pub mod Path
pub mod Put
pub mod Dir
