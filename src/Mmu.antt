-- ===== src/Mmu.antt =====
-- ideal_indirection/mmu.c: address translation over page tables and a TLB.
mod Examples
pub mod Defs
pub mod Process
pub mod Faults
pub mod Removed
pub mod RoundTrip
pub mod Write
