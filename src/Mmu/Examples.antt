-- ===== src/Mmu/Examples.antt =====
-- A small machine for the theorems on ideal_indirection/mmu.c: pages of 16 bytes, a TLB of one entry, a
-- kernel that counts the frames it has given.
use system_programming.Base.{
  ◌*◌, ℕ, ◌+◌, ◌≡◌, refl, true, false, ◌&&◌, [], ◌∷◌, ltb, leb, ◌==◌, if◌then◌else◌, Option, none,
  some, arith,
}
use system_programming.Mmu.Defs.{
  base_addr_of, access_is_legal, Entry, Pointer, Segment, System, Mmu,
  mmu_read_from_virtual_address,
}
use system_programming.Mmu.Write.{mmu_write_to_virtual_address}
use system_programming.Mmu.Faults.{mmu_read_same_page}
use system_programming.Mmu.RoundTrip.{WritesThenReads, mmu_write-mmu_read}

abbrev Tlb : Type 0
Tlb = Option (ℕ × Pointer)

abbrev look_up : Tlb → ℕ → Tlb × Option Pointer
look_up none base = (none, none)
look_up (some (b, p)) base = (some (b, p), if base == b then some p else none)

abbrev data_segment : Segment
data_segment = record { first = 16; last = 48; permissions = 6; grows_down = false }

abbrev machine : System ℕ Tlb
machine = record {
  num_offset_bits = 4;
  page_size = 16;
  max_process_id = 4;
  num_entries = 1024;
  read_flag = 4;
  write_flag = 2;
  exec_flag = 1;
  pointer_of_pde = λ b. b;
  pointer_of_pte = λ b. b;
  pointer_of_address = λ a. a;
  ask_kernel_for_frame = λ k m p. (k + 1, m, k * 16);
  read_page_from_disk = λ k m p. (k, m);
  return_frame_to_kernel = λ k f. k;
  remove_swap_file = λ k p. k;
  tlb_get_pte = look_up;
  tlb_add_pte = λ t base p. some (base, p);
  tlb_flush = λ t. none;
  address_in_segmentations = λ segs a. leb 16 a && ltb a 48;
  find_segment = λ segs a. some data_segment;
}

abbrev no_entry : Entry
no_entry = record {
  base_addr = 0;
  present = false;
  read_write = false;
  user_supervisor = false;
  accessed = false;
  dirty = false;
}

-- Every process has its directory at 9, without entries.
abbrev started : Mmu ℕ Tlb
started = record {
  curr_pid = 0;
  num_tlb_misses = 0;
  num_page_faults = 0;
  num_segmentation_faults = 0;
  page_directories = λ pid. some 9;
  segmentations = λ pid. some (data_segment ∷ []);
  tlb = none;
  memory = record { entries = λ t i. no_entry; frames = λ f. [] };
  kernel = 20;
}

mmu_write-mmu_read_example :
    WritesThenReads machine started 19 2 3
      (7 ∷ 8 ∷ 9 ∷ [])
      (mmu_write_to_virtual_address machine started 19 2 (7 ∷ 8 ∷ 9 ∷ []) 3)
unfolding access_is_legal
mmu_write-mmu_read_example =
    mmu_write-mmu_read machine started 19 2 3 9 (7 ∷ 8 ∷ 9 ∷ []) (data_segment ∷ []) data_segment
      (λ t base p.
        let same : (base == base) ≡ true = ground arith in (some (base, p), rw same refl))
      refl refl refl refl refl refl

-- Process 2 runs, and the TLB knows its first page, which is in a frame.
abbrev loaded : Mmu ℕ Tlb
loaded = record started {
  curr_pid = 2;
  tlb = some (1, record { table = 5; index = 0 });
  memory = record {
    entries = λ t i. record no_entry { present = true; base_addr = 7 };
    frames = λ f. 1 ∷ 2 ∷ 3 ∷ 4 ∷ [];
  };
}

mmu_read_same_page_example :
    mmu_read_from_virtual_address machine loaded 16 2 3
    ≡ mmu_read_from_virtual_address machine loaded 19 2 3
unfolding access_is_legal base_addr_of
mmu_read_same_page_example =
    mmu_read_same_page machine loaded 16 19 2 3 (data_segment ∷ []) refl refl refl refl refl refl
