-- ===== src/Mmu/Write.antt =====
-- ideal_indirection/mmu.c: mmu_write_to_virtual_address.
use system_programming.Base.{
  ℕ, true, List, if◌then◌else◌, Option, none, some, ◌>>=◌, ◌>>◌, guard, take,
}
use system_programming.Mmu.Defs.{
  Pointer, Segment, System, Mmu, Outcome, no_process, segmentation_fault, transferred, entry_at,
  set_entry, write_frame, base_addr_of, vpn0, mmu_tlb_miss, mmu_raise_page_fault,
  mmu_raise_segmentation_fault, switch_to, bring_in, ensure_present, walk, access_is_legal,
}

module _ {K T : Type 0} (s : System K T) where
  -- A page directory entry that is not present gets a page.
  unfoldable pub ensure_directory : Mmu K T → Pointer → Mmu K T
  ensure_directory m d =
      let m1 = bring_in s (mmu_raise_page_fault s m) d in
      if (entry_at m.memory d).present then m else record m1 {
        memory =
            set_entry m1.memory d
              (record (entry_at m1.memory d) { read_write = true; user_supervisor = true });
      }

  -- The pointer to the entry of the page, from the TLB or from the tables.
  abbrev pub find_entry : Mmu K T → ℕ → ℕ → Option Pointer → Mmu K T × Pointer
  find_entry m pd base (some p) = (m, p)
  find_entry m pd base none =
      let m1 = ensure_directory (mmu_tlb_miss s m) (record { table = pd; index = vpn0 s base }) in
      (m1, walk s m1 pd base)

  -- The flags and the bytes of a write.
  unfoldable pub stored : Mmu K T → Pointer → List ℕ → ℕ → Mmu K T
  stored m p buffer num_bytes =
      let e = record (entry_at m.memory p) { dirty = true; accessed = true } in
      let marked = set_entry m.memory p e in
      record m {
        memory =
            write_frame marked (s.pointer_of_pte (entry_at marked p).base_addr) buffer num_bytes;
      }

  -- The end of a write, from `if (!pte->read_write)` on.
  unfoldable pub finish_write : Mmu K T → Pointer → List ℕ → ℕ → Mmu K T × Outcome
  finish_write m p buffer num_bytes =
      if (entry_at m.memory p).read_write
      then (stored m p buffer num_bytes, transferred (take num_bytes buffer))
      else (mmu_raise_segmentation_fault s m, segmentation_fault)

  unfoldable pub write_page :
      Mmu K T → List Segment → ℕ → ℕ → List ℕ → ℕ → Option Pointer → Option (Mmu K T × Outcome)
  write_page m segs pd address buffer num_bytes hit =
      let base = base_addr_of s address in
      let (m1, p) = find_entry m pd base hit in
      ensure_present s (record m1 { tlb = s.tlb_add_pte m1.tlb base p }) segs address p >>= λ m2.
      some (finish_write m2 p buffer num_bytes)

  abbrev write_process :
      Mmu K T → ℕ → ℕ → List ℕ → ℕ → Option ℕ → Option (List Segment) → Option (Mmu K T × Outcome)
  write_process m address pid buffer num_bytes none segs = some (m, no_process)
  write_process m address pid buffer num_bytes (some pd) none = none
  write_process m address pid buffer num_bytes (some pd) (some segs) =
      let m1 = switch_to s m pid in
      let (tlb, hit) = s.tlb_get_pte m1.tlb (base_addr_of s address) in
      let found = write_page (record m1 { tlb = tlb }) segs pd address buffer num_bytes hit in
      if s.address_in_segmentations segs address
      then found
      else some (mmu_raise_segmentation_fault s m1, segmentation_fault)

  unfoldable pub mmu_write_to_virtual_address :
      Mmu K T → ℕ → ℕ → List ℕ → ℕ → Option (Mmu K T × Outcome)
  mmu_write_to_virtual_address m address pid buffer num_bytes =
      guard (access_is_legal s address pid num_bytes)
      >> write_process m address pid buffer num_bytes (m.page_directories pid) (m.segmentations pid)
