-- ===== src/MiniValgrind.antt =====
-- mini_valgrind/mini_valgrind.c: an allocator that counts what was not freed.
pub mod Defs
pub mod Chain
pub mod Ledger
pub mod Leaks
pub mod Moved
mod Examples
