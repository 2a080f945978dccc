-- ===== src/Mmu/Defs.antt =====
-- ideal_indirection/mmu.c: the state, reads and writes. The headers and the kernel, the TLB and the
-- segments behind them are not in the repository: they are the fields of `System`.
use system_programming.Base.{
  ℕ, ◌+◌, ◌/◌, ◌%◌, ◌^◌, Bool, true, ◌&&◌, List, ◌++◌, ltb, leb, ◌==◌, if◌then◌else◌, Option, none,
  some, ◌>>=◌, ◌>>◌, guard, take, drop,
}

-- An entry of a page directory or of a page table. The code casts between the two.
pub record Entry : Type 0 where
  pub base_addr : ℕ
  pub present : Bool
  pub read_write : Bool
  pub user_supervisor : Bool
  pub accessed : Bool
  pub dirty : Bool

-- A pointer to an entry: the pointer to its table, and its place there.
pub record Pointer : Type 0 where
  pub table : ℕ
  pub index : ℕ

-- vm_segmentation.
pub record Segment : Type 0 where
  pub first : ℕ
  pub last : ℕ
  pub permissions : ℕ
  pub grows_down : Bool

-- The entries of the tables and the bytes of the frames, by pointers.
pub record Memory : Type 0 where
  pub entries : ℕ → ℕ → Entry
  pub frames : ℕ → List ℕ

-- The code that is not in the repository, on a kernel with states `K` and a TLB with states `T`.
-- `pointer_of_pde` and `pointer_of_pte` are get_system_pointer_from_pde and -pte, which look at
-- base_addr only. ask_kernel_for_frame may swap another page out.
pub record System (K T : Type 0) : Type 0 where
  pub num_offset_bits : ℕ
  pub page_size : ℕ
  pub max_process_id : ℕ
  pub num_entries : ℕ
  pub read_flag : ℕ
  pub write_flag : ℕ
  pub exec_flag : ℕ
  pub pointer_of_pde : ℕ → ℕ
  pub pointer_of_pte : ℕ → ℕ
  pub pointer_of_address : ℕ → ℕ
  pub ask_kernel_for_frame : K → Memory → Option Pointer → K × Memory × ℕ
  pub read_page_from_disk : K → Memory → Pointer → K × Memory
  pub return_frame_to_kernel : K → ℕ → K
  pub remove_swap_file : K → Pointer → K
  pub tlb_get_pte : T → ℕ → T × Option Pointer
  pub tlb_add_pte : T → ℕ → Pointer → T
  pub tlb_flush : T → T
  pub address_in_segmentations : List Segment → ℕ → Bool
  pub find_segment : List Segment → ℕ → Option Segment

-- struct mmu, with the memory and the kernel.
pub record Mmu (K T : Type 0) : Type 0 where
  pub curr_pid : ℕ
  pub num_tlb_misses : ℕ
  pub num_page_faults : ℕ
  pub num_segmentation_faults : ℕ
  pub page_directories : ℕ → Option ℕ
  pub segmentations : ℕ → Option (List Segment)
  pub tlb : T
  pub memory : Memory
  pub kernel : K

-- What a call did: no process, a segmentation fault, or these bytes read or written.
pub data Outcome : Type 0 where
  no_process : Outcome
  segmentation_fault : Outcome
  transferred : List ℕ → Outcome

unfoldable pub entry_at : Memory → Pointer → Entry
entry_at m p = m.entries p.table p.index

unfoldable pub set_entry : Memory → Pointer → Entry → Memory
set_entry m p e = record m {
  entries = λ t i. if t == p.table && i == p.index then e else m.entries t i;
}

-- memcpy to the front of a frame.
unfoldable pub write_frame : Memory → ℕ → List ℕ → ℕ → Memory
write_frame m f bytes n = record m {
  frames = λ g. if g == f then take n bytes ++ drop n (m.frames g) else m.frames g;
}

module _ {K T : Type 0} (s : System K T) where
  -- BASE_ADDR, VPN0 and VPN1.
  unfoldable pub base_addr_of : ℕ → ℕ
  base_addr_of addr = addr % 2 ^ 32 / 2 ^ s.num_offset_bits

  unfoldable pub vpn0 : ℕ → ℕ
  vpn0 base = base % 2 ^ 32 / 2 ^ 10

  unfoldable pub vpn1 : ℕ → ℕ
  vpn1 base = base % 2 ^ 32 % 2 ^ 10

  unfoldable pub mmu_tlb_miss : Mmu K T → Mmu K T
  mmu_tlb_miss m = record m { num_tlb_misses = m.num_tlb_misses + 1 }

  unfoldable pub mmu_raise_page_fault : Mmu K T → Mmu K T
  mmu_raise_page_fault m = record m { num_page_faults = m.num_page_faults + 1 }

  unfoldable pub mmu_raise_segmentation_fault : Mmu K T → Mmu K T
  mmu_raise_segmentation_fault m = record m {
    num_segmentation_faults = m.num_segmentation_faults + 1;
  }

  -- The TLB is flushed when another process runs.
  unfoldable pub switch_to : Mmu K T → ℕ → Mmu K T
  switch_to m pid =
      if m.curr_pid == pid then m else record m { curr_pid = pid; tlb = s.tlb_flush m.tlb }

  -- A page comes in: a frame from the kernel, the page from disk, and the flag `present`.
  unfoldable pub bring_in : Mmu K T → Pointer → Mmu K T
  bring_in m p =
      let (kernel1, memory1, frame) = s.ask_kernel_for_frame m.kernel m.memory (some p) in
      let framed = record (entry_at memory1 p) { base_addr = base_addr_of frame } in
      let (kernel2, memory2) = s.read_page_from_disk kernel1 (set_entry memory1 p framed) p in
      record m {
        kernel = kernel2;
        memory = set_entry memory2 p (record (entry_at memory2 p) { present = true });
      }

  -- `(seg->permissions & 0x2) != 0`.
  unfoldable pub is_writable : Segment → Bool
  is_writable seg = seg.permissions / 2 % 2 == 1

  -- A page of the process that was not present, with the permissions of its segment.
  unfoldable pub fetched : Mmu K T → Segment → Pointer → Mmu K T
  fetched m seg p =
      let m1 = bring_in (mmu_raise_page_fault m) p in
      record m1 {
        memory = set_entry m1.memory p (record (entry_at m1.memory p) {
          read_write = is_writable seg;
          user_supervisor = true;
        });
      }

  -- No segment is a NULL that is dereferenced.
  unfoldable pub page_fault : Mmu K T → List Segment → ℕ → Pointer → Option (Mmu K T)
  page_fault m segs address p = s.find_segment segs address >>= λ seg. some (fetched m seg p)

  unfoldable pub ensure_present : Mmu K T → List Segment → ℕ → Pointer → Option (Mmu K T)
  ensure_present m segs address p =
      if (entry_at m.memory p).present then some m else page_fault m segs address p

  -- The pointer to the page table entry of a page, from the page directory.
  unfoldable pub walk : Mmu K T → ℕ → ℕ → Pointer
  walk m pd base = record {
    table =
        s.pointer_of_pde (entry_at m.memory (record { table = pd; index = vpn0 base })).base_addr;
    index = vpn1 base;
  }

  -- The end of a read.
  unfoldable pub finish_read : Mmu K T → Pointer → ℕ → Mmu K T × Outcome
  finish_read m p num_bytes =
      let memory = set_entry m.memory p (record (entry_at m.memory p) { accessed = true }) in
      (
        record m { memory = memory },
        transferred
            (take num_bytes (memory.frames (s.pointer_of_pte (entry_at memory p).base_addr))),
      )

  -- What mmu_read_from_virtual_address does for a page directory entry `d` that is not present: the
  -- page is read for it, and the fields are set through the pointer `myentry`. Access through NULL is a
  -- fault.
  abbrev pub fill_through : Mmu K T → Option Pointer → Pointer → Option (Mmu K T)
  fill_through m none d = none
  fill_through m (some e) d =
      let (kernel1, memory1, frame) = s.ask_kernel_for_frame m.kernel m.memory (some d) in
      let framed = record (entry_at memory1 e) { base_addr = base_addr_of frame } in
      let (kernel2, memory2) = s.read_page_from_disk kernel1 (set_entry memory1 e framed) d in
      some (record m {
        kernel = kernel2;
        memory = set_entry memory2 e (record (entry_at memory2 e) {
          present = true;
          read_write = true;
          user_supervisor = true;
        });
      })

  -- mmu_read_from_virtual_address behind the look-up in the TLB. On a miss `myentry` is NULL.
  abbrev pub read_page :
      Mmu K T → List Segment → ℕ → ℕ → ℕ → Option Pointer → Option (Mmu K T × Outcome)
  read_page m segs pd address num_bytes (some p) =
      ensure_present m segs address p >>= λ m1. some (finish_read m1 p num_bytes)
  read_page m segs pd address num_bytes none =
      let base = base_addr_of address in
      let m1 = mmu_tlb_miss m in
      let pde = entry_at m1.memory (record { table = pd; index = vpn0 base }) in
      let filled = fill_through m1 none (record { table = pd; index = vpn0 base }) in
      (if pde.present then some m1 else filled) >>= λ m2.
      let p = walk m2 pd base in
      some (finish_read (record m2 { tlb = s.tlb_add_pte m2.tlb base p }) p num_bytes)

  abbrev pub read_process :
      Mmu K T → ℕ → ℕ → ℕ → Option ℕ → Option (List Segment) → Option (Mmu K T × Outcome)
  read_process m address pid num_bytes none segs = some (m, no_process)
  read_process m address pid num_bytes (some pd) none = none
  read_process m address pid num_bytes (some pd) (some segs) =
      let m1 = switch_to m pid in
      let (tlb, hit) = s.tlb_get_pte m1.tlb (base_addr_of address) in
      let found = read_page (record m1 { tlb = tlb }) segs pd address num_bytes hit in
      if s.address_in_segmentations segs address
      then found
      else some (mmu_raise_segmentation_fault m1, segmentation_fault)

  -- The asserts of a read or write.
  unfoldable pub access_is_legal : ℕ → ℕ → ℕ → Bool
  access_is_legal address pid num_bytes =
      ltb pid s.max_process_id && leb (num_bytes + address % s.page_size) s.page_size

  unfoldable pub mmu_read_from_virtual_address : Mmu K T → ℕ → ℕ → ℕ → Option (Mmu K T × Outcome)
  mmu_read_from_virtual_address m address pid num_bytes =
      guard (access_is_legal address pid num_bytes)
      >> read_process m address pid num_bytes (m.page_directories pid) (m.segmentations pid)
