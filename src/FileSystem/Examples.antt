-- ===== src/FileSystem/Examples.antt =====
-- Small file systems for the theorems on finding_filesystems/minixfs.c: blocks of 4 bytes, 2 direct
-- blocks and 3 behind the indirect one.
use system_programming.Base.{
  ℕ, zero, suc, ◌+◌, ◌-◌, ◌<◌, ◌≤◌, ◌≡◌, inl, inr, refl, List, [], ◌∷◌, ◌++◌, some, none, true,
  length, take, drop, get_elem?, arith, length-take, length-append,
}
use system_programming.Clib.Strings.{equals}
use system_programming.FileSystem.Disk.{
  indirect_table, Inode, FileSystem, Utils, DataBlock, done, set_node,
}
use system_programming.FileSystem.Slices.{slice}
use system_programming.FileSystem.Virtual.{minixfs_read, minixfs_virtual_read, info, info_string}
use system_programming.FileSystem.Virtual.Info.{minixfs_virtual_read-slice}
use system_programming.FileSystem.Read.File.{
  reads, contents, minixfs_read-slice, minixfs_read_faults,
}
use system_programming.FileSystem.Write.{minixfs_write}
use system_programming.FileSystem.Write.Stored.{Stored}
use system_programming.FileSystem.Write.Shape.{Stored-IsFile}
use system_programming.FileSystem.Write.File.{Wrote, minixfs_write-Wrote}
use system_programming.FileSystem.Write.Fault.{minixfs_write_faults}
use system_programming.FileSystem.Write.RoundTrip.{minixfs_write-minixfs_read}

abbrev small : Utils
small = record {
  block_size = 4;
  num_direct = 2;
  num_indirect = 3;
  rwx_bits_number = 9;
  barray = λ block. take 3 (block ++ 0 ∷ 0 ∷ 0 ∷ []);
  is_virtual_path = λ path. none;
  get_inode = λ fs path. some 0;
  min_blockcount = λ fs path n. (fs, true);
}

abbrev node_of : ℕ → ℕ → Inode
node_of size indirect = record {
  uid = 5;
  gid = 6;
  mode = 0x81a4;
  atim = 0;
  mtim = 0;
  ctim = 0;
  size = size;
  direct = 0 ∷ 1 ∷ [];
  indirect = indirect;
}

abbrev data_blocks : List DataBlock
data_blocks =
    (1 ∷ 2 ∷ 3 ∷ 4 ∷ [])
    ∷ (5 ∷ 6 ∷ 7 ∷ 8 ∷ [])
    ∷ (9 ∷ 10 ∷ 11 ∷ 12 ∷ [])
    ∷ (13 ∷ 14 ∷ 15 ∷ 16 ∷ [])
    ∷ []

abbrev disk_of : Inode → FileSystem
disk_of node = record {
  dblock_count = 3;
  data_map = 1 ∷ 0 ∷ 1 ∷ [];
  inode_root = node ∷ [];
  data_root = data_blocks ++ (2 ∷ 3 ∷ 0 ∷ 0 ∷ []) ∷ [];
}

abbrev four_blocks : List ℕ
four_blocks = 0 ∷ 1 ∷ 2 ∷ 3 ∷ []

direct_same : (j : ℕ) → j < 4 → j < 2 → get_elem? (0 ∷ 1 ∷ []) j ≡ get_elem? four_blocks j
direct_same zero h k = refl
direct_same (suc zero) h k = refl
direct_same (suc (suc j)) h k = absurd (omega arith)

behind_same : (j : ℕ) → j < 4 → 2 ≤ j → get_elem? (2 ∷ 3 ∷ 0 ∷ []) (j - 2) ≡ get_elem? four_blocks j
behind_same zero h k = absurd (omega arith)
behind_same (suc zero) h k = absurd (omega arith)
behind_same (suc (suc zero)) h k = refl
behind_same (suc (suc (suc zero))) h k = refl
behind_same (suc (suc (suc (suc j)))) h k = absurd (omega arith)

four-Stored :
    (size : ℕ)
    → Stored small
        (disk_of (node_of size 4)).data_root
        (node_of size 4)
        (disk_of (node_of size 4)).data_root
        four_blocks
        data_blocks
unfolding indirect_table
four-Stored size = record {
  leads = (refl, (refl, (refl, (refl, tt))));
  whole = (refl, (refl, (refl, (refl, tt))));
  same = refl;
  distinct = (
    (λ e. omega arith, (λ e. omega arith, (λ e. omega arith, tt))),
    ((λ e. omega arith, (λ e. omega arith, tt)), ((λ e. omega arith, tt), (tt, tt))),
  );
  apart = (λ e. omega arith, (λ e. omega arith, (λ e. omega arith, (λ e. omega arith, tt))));
  frame = λ d fresh. refl;
  direct = direct_same;
  behind = λ j h k. (_, refl, behind_same j h k);
}

small-barray : (block : DataBlock) → length (small.barray block) ≡ 3
small-barray block =
    length-take 3 (block ++ 0 ∷ 0 ∷ 0 ∷ []) (omega (arith, length-append block (0 ∷ 0 ∷ 0 ∷ [])))

abbrev ten_bytes : List ℕ
ten_bytes = 21 ∷ 22 ∷ 23 ∷ 24 ∷ 25 ∷ 26 ∷ 27 ∷ 28 ∷ 29 ∷ 30 ∷ []

-- From the middle of the first block to the end of the third.
minixfs_write-minixfs_read_example :
    (after : FileSystem) × (last : FileSystem) × (minixfs_write small
        (disk_of (node_of 14 4))
        7
        []
        ten_bytes
        10
        2
      ≡ some (after, done 10 12 []))
    × (minixfs_read small after 8 (some []) 10 2 ≡ some (reads last 2 ten_bytes))
minixfs_write-minixfs_read_example =
    minixfs_write-minixfs_read small (disk_of (node_of 14 4)) (disk_of (node_of 14 4)) [] 0
      (node_of 14 4) 7 8 10 2 ten_bytes four_blocks data_blocks refl refl refl (λ blocks same. refl)
      refl refl small-barray (four-Stored 14) (omega arith, omega arith, omega arith, omega arith)
      (omega arith) refl (omega arith) (inr (inr refl)) (inr (omega arith))

minixfs_write-Wrote_example :
    Wrote small
      (disk_of (node_of 14 4))
      0
      (node_of 14 4)
      7
      four_blocks
      data_blocks
      10
      2
      ten_bytes
      (minixfs_write small (disk_of (node_of 14 4)) 7 [] ten_bytes 10 2)
minixfs_write-Wrote_example =
    minixfs_write-Wrote small (disk_of (node_of 14 4)) (disk_of (node_of 14 4)) [] 0 (node_of 14 4)
      7 10 2 ten_bytes four_blocks data_blocks refl refl refl (four-Stored 14)
      (omega arith, omega arith, omega arith, omega arith) (omega arith) refl (omega arith)
      (inr (inr refl))

-- Up to the first byte of the third block.
minixfs_write_faults_example :
    minixfs_write small (disk_of (node_of 14 4)) 7 [] (1 ∷ 2 ∷ 3 ∷ 4 ∷ 5 ∷ 6 ∷ 7 ∷ []) 7 2 ≡ none
minixfs_write_faults_example =
    minixfs_write_faults small (disk_of (node_of 14 4)) (disk_of (node_of 14 4)) [] 0 (node_of 14 4)
      7 7 2 (1 ∷ 2 ∷ 3 ∷ 4 ∷ 5 ∷ 6 ∷ 7 ∷ []) refl refl refl (omega arith) (omega arith)
      (omega arith) (omega arith) (omega arith) (omega arith) refl

-- The last bytes of a file of 14, over the direct blocks' end.
minixfs_read-slice_example :
    minixfs_read small (disk_of (node_of 14 4)) 8 (some []) 100 6
    ≡ some (
        reads
          (set_node (disk_of (node_of 14 4)) 0 (record (node_of 14 4) { atim = 8 }))
          6
          (slice 6 100 (contents (node_of 14 4) (take 2 data_blocks) (drop 2 data_blocks))))
minixfs_read-slice_example =
    minixfs_read-slice small (disk_of (node_of 14 4)) 8 [] 0 (node_of 14 4) 100 6
      (take 2 data_blocks) (drop 2 data_blocks) refl refl refl
      (Stored-IsFile small (disk_of (node_of 14 4)).data_root (node_of 14 4)
        (disk_of (node_of 14 4)).data_root four_blocks data_blocks (four-Stored 14) (omega arith)
        (omega arith) refl small-barray (omega arith) (inr (omega arith))).0
      (omega arith)

-- A file of 8 bytes in 2 direct blocks, its indirect block not set.
minixfs_read_faults_example : minixfs_read small (disk_of (node_of 8 99)) 8 (some []) 8 0 ≡ none
minixfs_read_faults_example =
    minixfs_read_faults small (disk_of (node_of 8 99)) 8 [] 0 (node_of 8 99) 8 0 refl refl refl
      (omega arith) refl refl (omega arith) (omega arith) (omega arith)

minixfs_virtual_read-slice_example :
    (minixfs_virtual_read (disk_of (node_of 8 4)) info 20 13
      ≡ some (reads (disk_of (node_of 8 4)) 13 (slice 13 20 (info_string 1 2))))
    × (1 + 2 ≡ 3)
unfolding equals
minixfs_virtual_read-slice_example =
    minixfs_virtual_read-slice (disk_of (node_of 8 4)) info 20 13 refl
      (inr refl, (inl refl, (inr refl, tt))) (omega arith)
