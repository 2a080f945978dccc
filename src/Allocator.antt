-- ===== src/Allocator.antt =====
-- malloc/alloc.c: the allocator on its two linked lists of blocks.
pub mod Defs
mod Examples
pub mod FreeList
pub mod Reuse
