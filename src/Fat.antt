-- ===== src/Fat.antt =====
-- src/fs/fat.c: FAT16 and FAT32 on a block device. `Volume` has the static variables and the table
-- of clusters, `Directory` the entries of the root directory, `Files` mounting and reading, `Write`
-- writing; the other modules prove what these do.
pub mod Volume
pub mod Directory
pub mod Files
pub mod Write
pub mod Table
pub mod Names
pub mod Listed
pub mod Runs
pub mod Chain
pub mod Free
pub mod Reading
pub mod Contents
