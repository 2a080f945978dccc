-- ===== src/Mmu/RoundTrip.antt =====
-- ideal_indirection/mmu.c: a read behind a write.
use system_programming.Base.{
  take-append, take-all, ℕ, ◌+◌, ◌≡◌, ◌⊎◌, inl, inr, refl, ap, sym, ◌∙◌, Bool, true, false, List,
  ◌++◌, Option, none, some, length, take, drop, arith, Bool-cases, ◌==◌,
}
use system_programming.Mmu.Defs.{
  fetched, Entry, Pointer, Segment, Memory, System, Mmu, Outcome, segmentation_fault, transferred,
  entry_at, set_entry, write_frame, base_addr_of, vpn0, mmu_tlb_miss, mmu_raise_page_fault,
  mmu_raise_segmentation_fault, switch_to, bring_in, ensure_present, page_fault, access_is_legal,
  finish_read, mmu_read_from_virtual_address,
}
use system_programming.Mmu.Write.{
  stored, ensure_directory, find_entry, finish_write, write_page, mmu_write_to_virtual_address,
}

same_lem : (n : ℕ) → (n == n) ≡ true
same_lem n = ground arith

pub entry_at-set_entry : (m : Memory) (p : Pointer) (e : Entry) → entry_at (set_entry m p e) p ≡ e
unfolding entry_at set_entry
entry_at-set_entry m p e = rw (same_lem p.table, same_lem p.index) refl

take-front :
    (n : ℕ) (bytes rest : List ℕ) → length bytes ≡ n → take n (take n bytes ++ rest) ≡ bytes
take-front n bytes rest e =
    ap (λ xs. take n (xs ++ rest)) (take-all n bytes (sym e))
    ∙ ap (λ k. take k (bytes ++ rest)) (sym e)
    ∙ take-append bytes rest

write_frame_lem :
    (m : Memory) (f : ℕ) (buffer : List ℕ) (n : ℕ)
    → length buffer ≡ n
    → take n ((write_frame m f buffer n).frames f) ≡ buffer
unfolding write_frame
write_frame_lem m f buffer n size = rw (same_lem f) (take-front n buffer (drop n (m.frames f)) size)

module _ {K T : Type 0} (s : System K T) where
  -- All but the memory, the kernel and the counters: what a read or write keeps from `m` to `m1`.
  abbrev pub SameProcess : Mmu K T → Mmu K T → Type 0
  SameProcess m m1 =
      (m1.curr_pid ≡ m.curr_pid)
      × (m1.page_directories ≡ m.page_directories)
      × (m1.segmentations ≡ m.segmentations)
      × (m1.tlb ≡ m.tlb)
      × (m1.num_segmentation_faults ≡ m.num_segmentation_faults)

  -- The page is there in the end, unless no segment is found.
  ensure_present_lem :
      (m : Mmu K T) (segs : List Segment) (address : ℕ) (p : Pointer) (seg : Segment)
      → s.find_segment segs address ≡ some seg
      → (m1 : Mmu K T) × (ensure_present s m segs address p ≡ some m1)
        × SameProcess m m1
        × ((entry_at m1.memory p).present ≡ true)
  unfolding ensure_present page_fault fetched bring_in mmu_raise_page_fault
  ensure_present_lem m segs address p seg found = elim (Bool-cases (entry_at m.memory p).present) [
    | inl here ↦ (m, rw here refl, (refl, refl, refl, refl, refl), here)
    | inr away ↦ (
      fetched s m seg p,
      rw (away, found) refl,
      (refl, refl, refl, refl, refl),
      ap (λ e. e.present) (entry_at-set_entry _ p _)
          ∙ ap (λ e. e.present) (entry_at-set_entry _ p _),
    )
  ]

  -- The look-up of the entry changes neither the process nor its tables' places.
  find_entry_lem :
      (m : Mmu K T) (pd base : ℕ) (hit : Option Pointer)
      → ((find_entry s m pd base hit).0.curr_pid ≡ m.curr_pid)
        × ((find_entry s m pd base hit).0.page_directories ≡ m.page_directories)
        × ((find_entry s m pd base hit).0.segmentations ≡ m.segmentations)
        × ((find_entry s m pd base hit).0.num_segmentation_faults ≡ m.num_segmentation_faults)
  unfolding ensure_directory bring_in mmu_raise_page_fault mmu_tlb_miss
  find_entry_lem m pd base (some p) = (refl, refl, refl, refl)
  find_entry_lem m pd base none =
      elim (Bool-cases (entry_at m.memory (record { table = pd; index = vpn0 s base })).present) [
        | inl here ↦ rw here (refl, refl, refl, refl)
        | inr away ↦ rw away (refl, refl, refl, refl)
      ]

  switch_same : (m : Mmu K T) (pid : ℕ) → m.curr_pid ≡ pid → switch_to s m pid ≡ m
  unfolding switch_to
  switch_same m pid e = let same : (m.curr_pid == pid) ≡ true = ground (arith, e) in rw same refl

  finish_read_lem :
      (m : Mmu K T) (p : Pointer) (n : ℕ)
      → (m1 : Mmu K T) × (finish_read s m p n ≡ (
        m1,
        transferred (take n (m.memory.frames (s.pointer_of_pte (entry_at m.memory p).base_addr))),
      ))
        × (m1.num_tlb_misses ≡ m.num_tlb_misses)
        × (m1.num_page_faults ≡ m.num_page_faults)
  unfolding finish_read set_entry
  finish_read_lem m p n =
      let e : Entry = record (entry_at m.memory p) { accessed = true } in
      (
        (finish_read s m p n).0,
        ap
            (λ x. (
              (finish_read s m p n).0,
              transferred (take n (m.memory.frames (s.pointer_of_pte x.base_addr))),
            ))
            (entry_at-set_entry m.memory p e),
        refl,
        refl,
      )

  -- A read of a page that the TLB knows and that is there.
  read_back :
      (m : Mmu K T) (address pid n pd : ℕ) (segs : List Segment) (tlb : T) (p : Pointer)
      → access_is_legal s address pid n ≡ true
      → m.page_directories pid ≡ some pd
      → m.segmentations pid ≡ some segs
      → s.address_in_segmentations segs address ≡ true
      → m.curr_pid ≡ pid
      → s.tlb_get_pte m.tlb (base_addr_of s address) ≡ (tlb, some p)
      → (entry_at m.memory p).present ≡ true
      → (m1 : Mmu K T) × (mmu_read_from_virtual_address s m address pid n
          ≡ some (
            m1,
            transferred
                (take n (m.memory.frames (s.pointer_of_pte (entry_at m.memory p).base_addr))),
          ))
        × (m1.num_tlb_misses ≡ m.num_tlb_misses)
        × (m1.num_page_faults ≡ m.num_page_faults)
  unfolding mmu_read_from_virtual_address ensure_present
  read_back m address pid n pd segs tlb p legal directory known inside running cached here =
      let (m1, e, misses, faults) = finish_read_lem (record m { tlb = tlb }) p n in
      (
        m1,
        rw (legal, directory, known, switch_same m pid running, cached, inside, here) (ap some e),
        misses,
        faults,
      )

  -- What a write that is allowed leaves.
  stored_lem :
      (m : Mmu K T) (p : Pointer) (buffer : List ℕ) (n : ℕ)
      → length buffer ≡ n
      → SameProcess m (stored s m p buffer n)
        × ((entry_at (stored s m p buffer n).memory p).present ≡ (entry_at m.memory p).present)
        × ((entry_at (stored s m p buffer n).memory p).read_write
            ≡ (entry_at m.memory p).read_write)
        × (take n (
              (stored s m p buffer n).memory.frames
                (s.pointer_of_pte (entry_at (stored s m p buffer n).memory p).base_addr))
            ≡ buffer)
  unfolding stored write_frame entry_at set_entry
  stored_lem m p buffer n size = (
    (refl, refl, refl, refl, refl),
    rw (same_lem p.table, same_lem p.index) refl,
    rw (same_lem p.table, same_lem p.index) refl,
    write_frame_lem
        (set_entry m.memory p (record (entry_at m.memory p) { dirty = true; accessed = true }))
        (s.pointer_of_pte
          (entry_at
            (set_entry m.memory p (record (entry_at m.memory p) { dirty = true; accessed = true }))
            p).base_addr)
        buffer n size,
  )

  -- The TLB gives back what was added last.
  abbrev pub Remembers : Type 0
  Remembers =
      (t : T) (base : ℕ) (p : Pointer)
      → (t' : T) × (s.tlb_get_pte (s.tlb_add_pte t base p) base ≡ (t', some p))

  switch_lem :
      (m : Mmu K T) (pid : ℕ)
      → ((switch_to s m pid).curr_pid ≡ pid)
        × ((switch_to s m pid).page_directories ≡ m.page_directories)
        × ((switch_to s m pid).segmentations ≡ m.segmentations)
        × ((switch_to s m pid).num_segmentation_faults ≡ m.num_segmentation_faults)
  unfolding switch_to
  switch_lem m pid = elim (Bool-cases (m.curr_pid == pid)) [
    | inl same ↦ let e : m.curr_pid ≡ pid = ground arith in rw same (e, refl, refl, refl)
    | inr other ↦ rw other (refl, refl, refl, refl)
  ]

  -- A read gives these bytes, with no TLB miss and no page fault more.
  abbrev pub ReadsBack : Mmu K T → ℕ → ℕ → ℕ → List ℕ → Type 0
  ReadsBack m address pid n bytes =
      (m1 : Mmu K T) × (mmu_read_from_virtual_address s m address pid n
        ≡ some (m1, transferred bytes))
      × (m1.num_tlb_misses ≡ m.num_tlb_misses)
      × (m1.num_page_faults ≡ m.num_page_faults)

  -- The TLB holds an entry for the page of the address, and this is its flag for writing.
  abbrev pub IsWritable : Mmu K T → ℕ → Bool → Type 0
  IsWritable m address b =
      (t : T) × (p : Pointer) × (s.tlb_get_pte m.tlb (base_addr_of s address) ≡ (t, some p))
      × ((entry_at m.memory p).read_write ≡ b)

  abbrev pub WritesThenReads : Mmu K T → ℕ → ℕ → ℕ → List ℕ → Option (Mmu K T × Outcome) → Type 0
  WritesThenReads m address pid n buffer written =
      ((m1 : Mmu K T) × (written ≡ some (m1, transferred buffer))
        × IsWritable m1 address true
        × ReadsBack m1 address pid n buffer)
      ⊎ ((m1 : Mmu K T) × (written ≡ some (m1, segmentation_fault))
          × IsWritable m1 address false
          × (m1.num_segmentation_faults ≡ m.num_segmentation_faults + 1))

  -- For a TLB that gives back what was added last, a process with segments, and an address in one
  -- of them at which a write of n bytes is legal: after a write of n bytes the TLB holds the entry
  -- of the page. If this is marked writable, the bytes are in the page, and a read of n bytes at
  -- the same address then returns them, with no TLB miss and no page fault more; if it is not, the
  -- write counts a segmentation fault.
  pub mmu_write-mmu_read :
      (m : Mmu K T) (address pid n pd : ℕ) (buffer : List ℕ) (segs : List Segment) (seg : Segment)
      → Remembers
      → access_is_legal s address pid n ≡ true
      → m.page_directories pid ≡ some pd
      → m.segmentations pid ≡ some segs
      → s.address_in_segmentations segs address ≡ true
      → s.find_segment segs address ≡ some seg
      → length buffer ≡ n
      → WritesThenReads m address pid n buffer
          (mmu_write_to_virtual_address s m address pid buffer n)
  unfolding mmu_write_to_virtual_address write_page finish_write mmu_raise_segmentation_fault
  mmu_write-mmu_read m address pid n pd buffer segs seg remembers legal directory known inside found
        size =
      let base = base_addr_of s address in
      let m0 = switch_to s m pid in
      let (pid0, pd0, segs0, count0) = switch_lem m pid in
      let looked = s.tlb_get_pte m0.tlb base in
      let start = record m0 { tlb = looked.0 } in
      let entry = find_entry s start pd base looked.1 in
      let p = entry.1 in
      let (pid1, pd1, segs1, count1) = find_entry_lem start pd base looked.1 in
      let added = record (entry.0) { tlb = s.tlb_add_pte entry.0.tlb base p } in
      let (m1, fetched, (pid2, pd2, segs2, tlb2, count2), here) =
        ensure_present_lem added segs address p seg found in
      let (t, cached) = remembers entry.0.tlb base p in
      elim (Bool-cases (entry_at m1.memory p).read_write) [
        | inl writable ↦
            let m2 = stored s m1 p buffer n in
            let ((pid3, pd3, segs3, tlb3, count3), present, flag, bytes) =
              stored_lem m1 p buffer n size in
            let (m3, read, misses, faults) =
              read_back m2 address pid n pd segs t p legal
                (ap (λ f. f pid) (pd3 ∙ pd2 ∙ pd1 ∙ pd0) ∙ directory)
                (ap (λ f. f pid) (segs3 ∙ segs2 ∙ segs1 ∙ segs0) ∙ known) inside
                (pid3 ∙ pid2 ∙ pid1 ∙ pid0) (ap (λ x. s.tlb_get_pte x base) (tlb3 ∙ tlb2) ∙ cached)
                (present ∙ here) in
            inl (
              m2,
              rw (legal, directory, known, inside, fetched, writable)
                  (ap (λ b. some (m2, transferred b)) (take-all n buffer (sym size))),
              (t, p, ap (λ x. s.tlb_get_pte x base) (tlb3 ∙ tlb2) ∙ cached, flag ∙ writable),
              (m3, read ∙ ap (λ b. some (m3, transferred b)) bytes, misses, faults),
            )
        | inr not_writable ↦ inr (
          mmu_raise_segmentation_fault s m1,
          rw (legal, directory, known, inside, fetched, not_writable) refl,
          (t, p, ap (λ x. s.tlb_get_pte x base) tlb2 ∙ cached, not_writable),
          ap (λ c. c + 1) (count2 ∙ count1 ∙ count0),
        )
      ]
