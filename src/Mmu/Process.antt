-- ===== src/Mmu/Process.antt =====
-- ideal_indirection/mmu.c: mmu_add_process, mmu_remove_process and mmu_delete.
use Prim.Native.Nat.{bit_or}
use system_programming.Base.{
  ◌>>=◌, ℕ, zero, suc, ◌*◌, ◌/◌, ◌^◌, Bool, true, false, List, [], ◌∷◌, ltb, ◌==◌, if◌then◌else◌,
  Option, none, some, ◌>>◌, guard,
}
use system_programming.Mmu.Defs.{Pointer, Segment, Memory, System, Mmu, entry_at, set_entry}

unfoldable pub store {ℓ} : {A : Type ℓ} → (ℕ → A) → ℕ → A → ℕ → A
store f i a j = if j == i then a else f j

module _ {K T : Type 0} (s : System K T) where
  unfoldable pub segment : ℕ → ℕ → ℕ → Bool → Segment
  segment start end permissions down = record {
    first = start;
    last = end;
    permissions = permissions;
    grows_down = down;
  }

  -- STACK, MMAP, HEAP, BSS, DATA, TEXT and TESTING.
  unfoldable pub first_segments : List Segment
  first_segments =
      let read_write = bit_or s.read_flag s.write_flag in
      segment 0xBFFFE000 0xC07FE000 read_write true
      ∷ segment 0xC07FE000 0xC07FE000 (bit_or (bit_or s.read_flag s.exec_flag) s.write_flag) true
      ∷ segment 0x08072000 0x08072000 read_write false
      ∷ segment 0x0805A000 0x08072000 read_write false
      ∷ segment 0x08052000 0x0805A000 read_write false
      ∷ segment 0x08048000 0x08052000 (bit_or s.read_flag s.exec_flag) false
      ∷ segment s.page_size (3 * s.page_size) read_write false
      ∷ []

  -- An entry gets a frame and all its permissions; the kernel is told `who` asks.
  unfoldable pub give_frame : Mmu K T → Option Pointer → Pointer → Mmu K T
  give_frame m who p =
      let (kernel, memory, frame) = s.ask_kernel_for_frame m.kernel m.memory who in
      record m {
        kernel = kernel;
        memory = set_entry memory p (record (entry_at memory p) {
          base_addr = frame / 2 ^ s.num_offset_bits;
          present = true;
          read_write = true;
          user_supervisor = true;
        });
      }

  -- The entry of page `i` of the first table, `pde` being the page directory's first.
  unfoldable pub give_page : Mmu K T → Pointer → ℕ → Mmu K T
  give_page m pde i =
      let p : Pointer = record {
        table = s.pointer_of_pde (entry_at m.memory pde).base_addr;
        index = i;
      } in
      give_frame m (some p) p

  unfoldable pub mmu_add_process : Mmu K T → ℕ → Option (Mmu K T)
  mmu_add_process m pid =
      let (kernel, memory, address) = s.ask_kernel_for_frame m.kernel m.memory none in
      let pd = s.pointer_of_address address in
      let pde : Pointer = record { table = pd; index = 0 } in
      let named = record m {
        kernel = kernel;
        memory = memory;
        page_directories = store m.page_directories pid (some pd);
        segmentations = store m.segmentations pid (some first_segments);
      } in
      let m1 = give_frame named none pde in
      guard (ltb pid s.max_process_id) >> some (give_page (give_page m1 pde 1) pde 2)

  -- The loop over a page table, from `i` on with `k` entries to go.
  unfoldable pub free_pages : Memory → K → ℕ → ℕ → ℕ → K
  free_pages memory kernel table i zero = kernel
  free_pages memory kernel table i (suc k) =
      let pte : Pointer = record { table = table; index = i } in
      let e = entry_at memory pte in
      let returned =
        if e.present
        then s.return_frame_to_kernel kernel (s.pointer_of_pte e.base_addr)
        else kernel in
      free_pages memory (s.remove_swap_file returned pte) table (suc i) k

  -- The loop over the page directory.
  unfoldable pub free_tables : Memory → K → ℕ → ℕ → ℕ → K
  free_tables memory kernel pd i zero = kernel
  free_tables memory kernel pd i (suc k) =
      let e = entry_at memory (record { table = pd; index = i }) in
      let table = s.pointer_of_pde e.base_addr in
      let freed =
        if e.present
        then s.return_frame_to_kernel (free_pages memory kernel table 0 s.num_entries) table
        else kernel in
      free_tables memory freed pd (suc i) k

  abbrev free_directory : Memory → K → Option ℕ → K
  free_directory memory kernel none = kernel
  free_directory memory kernel (some pd) =
      s.return_frame_to_kernel (free_tables memory kernel pd 0 s.num_entries) pd

  unfoldable pub remove : Mmu K T → ℕ → Mmu K T
  remove m pid = record m {
    kernel = free_directory m.memory m.kernel (m.page_directories pid);
    page_directories = store m.page_directories pid none;
    segmentations = store m.segmentations pid none;
    tlb = if m.curr_pid == pid then s.tlb_flush m.tlb else m.tlb;
  }

  unfoldable pub mmu_remove_process : Mmu K T → ℕ → Option (Mmu K T)
  mmu_remove_process m pid = guard (ltb pid s.max_process_id) >> some (remove m pid)

  -- The loop of mmu_delete from `pid` on, with `k` processes to go.
  unfoldable pub remove_from : Mmu K T → ℕ → ℕ → Option (Mmu K T)
  remove_from m pid zero = some m
  remove_from m pid (suc k) = mmu_remove_process m pid >>= λ m1. remove_from m1 (suc pid) k

  -- What mmu_delete frees at its end.
  unfoldable pub mmu_delete : Mmu K T → Option (Mmu K T)
  mmu_delete m = remove_from m 0 s.max_process_id
