-- ===== src/Mmu/Faults.antt =====
-- ideal_indirection/mmu.c: the place in the page, which mmu_read_from_virtual_address does not use.
use system_programming.Base.{ℕ, ◌≡◌, refl, true, List, Option, none, some}
use system_programming.Mmu.Defs.{
  read_page, read_process, Pointer, Segment, System, Mmu, base_addr_of, switch_to, access_is_legal,
  ensure_present, page_fault, mmu_read_from_virtual_address,
}

module _ {K T : Type 0} (s : System K T) where
  read_page_same :
      (m : Mmu K T) (segs : List Segment) (pd address address' n : ℕ) (hit : Option Pointer)
      → base_addr_of s address ≡ base_addr_of s address'
      → s.find_segment segs address ≡ s.find_segment segs address'
      → read_page s m segs pd address n hit ≡ read_page s m segs pd address' n hit
  unfolding ensure_present page_fault
  read_page_same m segs pd address address' n none page found = rw page refl
  read_page_same m segs pd address address' n (some p) page found = rw found refl

  -- A read does not look at the place in the page: for a process with segments, two addresses of
  -- the same page, both in its segments or both not, with the same segment, at which a read of n
  -- bytes is legal, give the same result.
  pub mmu_read_same_page :
      (m : Mmu K T) (address address' pid n : ℕ) (segs : List Segment)
      → m.segmentations pid ≡ some segs
      → base_addr_of s address ≡ base_addr_of s address'
      → access_is_legal s address pid n ≡ true
      → access_is_legal s address' pid n ≡ true
      → s.address_in_segmentations segs address ≡ s.address_in_segmentations segs address'
      → s.find_segment segs address ≡ s.find_segment segs address'
      → mmu_read_from_virtual_address s m address pid n
        ≡ mmu_read_from_virtual_address s m address' pid n
  unfolding mmu_read_from_virtual_address
  mmu_read_same_page m address address' pid n segs known page legal legal' in_same find_same =
      rw (legal, legal', known) (by_process (m.page_directories pid))
    where
      by_process :
          (pd : Option ℕ)
          → read_process s m address pid n pd (some segs)
            ≡ read_process s m address' pid n pd (some segs)
      by_process none = refl
      by_process (some pd) =
          let (tlb, hit) = s.tlb_get_pte (switch_to s m pid).tlb (base_addr_of s address') in
          let same =
            read_page_same (record (switch_to s m pid) { tlb = tlb }) segs pd address address' n hit
              page find_same in
          rw (in_same, page, same) refl
