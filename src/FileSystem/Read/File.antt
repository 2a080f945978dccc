-- ===== src/FileSystem/Read/File.antt =====
-- minixfs_read (finding_filesystems/minixfs.c) on whole files: what it returns, and where it leaves
-- the blocks of the file.
use system_programming.FileSystem.Disk.{then_copy, copy_blocks}
use system_programming.Base.{
  le→leb, ge→ltb, gt→leb, false, true, length-take, length-append, [], ℕ, ◌+◌, ◌-◌, ◌*◌, ◌/◌, ◌%◌,
  ◌^◌, ◌<◌, ◌≤◌, ◌≡◌, inl, inr, refl, ap, sym, ◌∙◌, List, ◌++◌, Option, some, none, length, arith,
  get_elem?, ltb, leb, Bool-cases, lt→ltb, leb→le, leb→gt, take,
}
use system_programming.FileSystem.Disk.{
  indirect_table, to_int, Inode, FileSystem, Utils, DataBlock, Answer, done, set_node, size_mod,
}
use system_programming.FileSystem.Slices.{
  row_mono, rows_add, div_lt, row_lt, div_le, slice_behind, flat, slice, slice-take, slice-over,
  length-slice,
}
use system_programming.FileSystem.Read.{first_copy, rest_over, rest_copy, copied, read_node}
use system_programming.FileSystem.Read.Exact.{size_bound, IsFile, copied-slice}
use system_programming.FileSystem.Virtual.{minixfs_read}

-- The bytes of the file.
abbrev pub contents : Inode → List DataBlock → List DataBlock → List ℕ
contents node ds is = take node.size (flat ds ++ flat is)

-- What a read gives and leaves: these bytes, and the offset behind them.
abbrev pub reads : FileSystem → ℕ → List ℕ → FileSystem × Answer
reads fs off bytes = (fs, done (length bytes) (off + length bytes) bytes)

pub reads_lem :
    (fs : FileSystem) (off c : ℕ) (bytes : List ℕ)
    → length bytes ≡ c
    → off + c < size_mod
    → some (fs, done c ((off + c) % size_mod) bytes) ≡ some (reads fs off bytes)
reads_lem fs off c bytes e fits =
    let low : (off + c) % size_mod ≡ off + c = omega (arith, fits) in rw (low, e) refl

length-contents :
    (u : Utils) (blocks : List DataBlock) (node : Inode) (ds is : List DataBlock)
    → IsFile u blocks node ds is
    → length (contents node ds is) ≡ node.size
length-contents u blocks node ds is file =
    let sum = length-append (flat ds) (flat is) in
    length-take node.size (flat ds ++ flat is) (omega (arith, sum, file.inside))

read_node-slice :
    (u : Utils) (fs : FileSystem) (i : ℕ) (node : Inode) (now count off : ℕ)
    (ds is : List DataBlock)
    → IsFile u fs.data_root node ds is
    → off + count < size_mod
    → read_node u fs i node now count off
      ≡ some (
          reads
            (set_node fs i (record node { atim = now }))
            off
            (slice off count (contents node ds is)))
unfolding read_node
read_node-slice u fs i node now count off ds is file fits =
    let total = length-contents u fs.data_root node ds is file in
    let after = set_node fs i (record node { atim = now }) in
    let sum : (off + count) % size_mod ≡ off + count = omega (arith, fits) in
    elim (Bool-cases (leb node.size off)) [
      | inl past ↦
          let nothing =
            slice_behind off count (contents node ds is)
              (omega (arith, leb→le node.size off past, total)) in
          let still : off ≡ off + 0 = omega arith in
          rw (past, nothing) (ap (λ o. some (after, done 0 o [])) still)
      | inr before ↦
          let low = leb→gt node.size off before in
          let lo = div_le off u.block_size file.sized in
          let num = off / u.block_size in
          let first : ltb num (u.num_direct + u.num_indirect) ≡ true = lt→ltb _ _ (
            row_lt num (u.num_direct + u.num_indirect) u.block_size
              (omega (arith, lo, low, size_bound u fs.data_root node ds is file))) in
          let got : (c : ℕ)
              → off + c ≤ node.size
              → copied u fs.data_root node off c ≡ some (slice off c (contents node ds is)) =
            λ c h.
              copied-slice u fs.data_root node ds is off c file h low
              ∙ ap some (sym (slice-take off c node.size (flat ds ++ flat is) h)) in
          let measured : (c : ℕ)
              → off + c ≤ node.size
              → length (slice off c (contents node ds is)) ≡ c =
            λ c h. length-slice off c (contents node ds is) (omega (arith, h, total)) in
          elim (Bool-cases (leb node.size (off + count))) [
            | inl cut ↦
                let long = leb→le node.size (off + count) cut in
                let end =
                  slice-over off count (contents node ds is) (omega (arith, long, total))
                  ∙ ap (λ n. slice off (n - off) (contents node ds is)) total in
                rw (before, first, sum, cut, got (node.size - off) (omega (arith, low)), end)
                  (reads_lem after off (node.size - off) _
                    (measured (node.size - off) (omega (arith, low)))
                    (omega (arith, long, fits, low)))
            | inr inside ↦
                let short = leb→gt node.size (off + count) inside in
                rw (before, first, sum, inside, got count (omega (arith, short)))
                  (reads_lem after off count _ (measured count (omega (arith, short))) fits)
          ]
    ]

-- For a path that is not virtual and leads to an inode whose blocks hold its size, which is less
-- than the direct blocks hold where there is no indirect block, and an offset and count whose sum
-- is below 2^64: minixfs_read returns the bytes of the file from the offset on, as many as asked
-- for and as there are, moves the offset behind them and sets the time of access.
pub minixfs_read-slice :
    (u : Utils) (fs : FileSystem) (now : ℕ) (path : List ℕ) (i : ℕ) (node : Inode) (count off : ℕ)
    (ds is : List DataBlock)
    → u.is_virtual_path (some path) ≡ none
    → u.get_inode fs path ≡ some i
    → get_elem? fs.inode_root i ≡ some node
    → IsFile u fs.data_root node ds is
    → off + count < size_mod
    → minixfs_read u fs now (some path) count off
      ≡ some (
          reads
            (set_node fs i (record node { atim = now }))
            off
            (slice off count (contents node ds is)))
unfolding minixfs_read
minixfs_read-slice u fs now path i node count off ds is plain found there file fits =
    rw (plain, found, there) (read_node-slice u fs i node now count off ds is file fits)

then_copy-none : (a : Option (List ℕ)) → then_copy a none ≡ none
then_copy-none none = refl
then_copy-none (some x) = refl

copied_faults :
    (u : Utils) (blocks : List DataBlock) (node : Inode) (off : ℕ)
    → 0 < u.block_size
    → get_elem? blocks node.indirect ≡ none
    → off + u.block_size < u.num_direct * u.block_size
    → copied u blocks node off (u.num_direct * u.block_size - off) ≡ none
unfolding copied to_int rest_copy rest_over indirect_table
copied_faults u blocks node off pos unset before =
    let n = u.num_direct in
    let num = off / u.block_size in
    let lo = div_le off u.block_size pos in
    let hi = div_lt off u.block_size pos in
    let remain = u.block_size - (off - num * u.block_size) in
    let left = n * u.block_size - off - remain in
    let m = left / u.block_size in
    let hi_m = div_lt left u.block_size pos in
    let next = rows_add num 1 (num + 1) u.block_size refl in
    let one : 1 * u.block_size ≡ u.block_size = grind arith in
    let below = row_lt (num + 1) n u.block_size (omega (arith, lo, next, one, before)) in
    let a = n - num - 1 in
    let split = rows_add (num + 1) a n u.block_size (omega arith) in
    let more = rows_add m 1 (m + 1) u.block_size refl in
    let reached =
      row_lt a (m + 1) u.block_size (omega (arith, lo, hi, hi_m, next, one, split, more)) in
    let long : leb (n * u.block_size - off) remain ≡ false =
      gt→leb _ _ (omega (arith, lo, hi, before)) in
    let near : ltb num n ≡ true = lt→ltb num n (omega arith) in
    let over : ltb (num + m + 1) n ≡ false = ge→ltb (num + m + 1) n (omega (arith, reached)) in
    elim (Bool-cases (ltb m (2 ^ 31))) [
      | inl fits ↦
          rw
            (
              long,
              fits,
              near,
              over,
              unset,
              then_copy-none (copy_blocks u.block_size blocks node.direct (num + 1) (n - num - 1)),
            )
            (then_copy-none (first_copy u blocks node num (off - num * u.block_size) remain))
      | inr huge ↦ rw (long, huge) refl
    ]

-- In a file that fills its direct blocks and has no indirect block, a read that starts more than a
-- block before the end and goes up to the end is a fault: it looks at the indirect block.
pub minixfs_read_faults :
    (u : Utils) (fs : FileSystem) (now : ℕ) (path : List ℕ) (i : ℕ) (node : Inode) (count off : ℕ)
    → u.is_virtual_path (some path) ≡ none
    → u.get_inode fs path ≡ some i
    → get_elem? fs.inode_root i ≡ some node
    → 0 < u.block_size
    → node.size ≡ u.num_direct * u.block_size
    → get_elem? fs.data_root node.indirect ≡ none
    → off + u.block_size < node.size
    → node.size ≤ off + count
    → off + count < size_mod
    → minixfs_read u fs now (some path) count off ≡ none
unfolding minixfs_read read_node
minixfs_read_faults u fs now path i node count off plain found there pos full unset before long
      fits =
    let lo = div_le off u.block_size pos in
    let sum : (off + count) % size_mod ≡ off + count = omega (arith, fits) in
    let cut : leb node.size (off + count) ≡ true = le→leb _ _ long in
    let inside : leb node.size off ≡ false = gt→leb _ _ (omega (arith, before)) in
    let rows = row_mono u.num_direct (u.num_direct + u.num_indirect) u.block_size (omega arith) in
    let first : ltb (off / u.block_size) (u.num_direct + u.num_indirect) ≡ true = lt→ltb _ _ (
      row_lt (off / u.block_size) (u.num_direct + u.num_indirect) u.block_size
        (omega (arith, lo, rows, before, full))) in
    let fault : copied u fs.data_root node off (node.size - off) ≡ none =
      ap (λ n. copied u fs.data_root node off (n - off)) full
      ∙ copied_faults u fs.data_root node off pos unset (omega (arith, before, full)) in
    rw (plain, found, there, sum, cut, inside, first, fault) refl
