-- ===== src/Elf.antt =====
-- The ELF loader, src/user/elf.c.
pub mod Memory
pub mod Load
pub mod Image
pub mod Program
pub mod Stack
pub mod Arguments
pub mod Pushing
