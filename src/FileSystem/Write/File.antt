-- ===== src/FileSystem/Write/File.antt =====
-- minixfs_write (finding_filesystems/minixfs.c) on a whole file, and minixfs_read behind it.
use system_programming.Base.{
  ℕ, ◌+◌, ◌*◌, ◌/◌, ◌%◌, ◌^◌, ◌≤◌, ◌<◌, ◌≡◌, refl, List, [], Option, some, length, arith, ltb, true,
  false, ge→ltb, lt→ltb, get_elem?,
}
use system_programming.FileSystem.Disk.{
  Inode, FileSystem, Utils, DataBlock, Answer, done, set_node, size_mod, to_int,
}
use system_programming.FileSystem.Slices.{row_mono, flat, row_cancel, row_lt, div_le, length-flat}
use system_programming.FileSystem.Write.{splice, rounded, write_node, minixfs_write}
use system_programming.FileSystem.Write.Stored.{Stored}
use system_programming.FileSystem.Write.Exact.{Regular, written-Copied}

-- The inode after a write that ends at `end`.
abbrev pub sized_node : Inode → ℕ → ℕ → Inode
sized_node node now end = record node { mtim = now; atim = now; size = end }

-- The file system after it.
abbrev pub after_write : FileSystem → ℕ → Inode → List DataBlock → FileSystem
after_write fs i node blocks = set_node (record fs { data_root = blocks }) i node

-- The blocks of a file, of the size of a block each, are no more than an inode has numbers for.
abbrev pub Fits : Utils → List DataBlock → Type 0
Fits u bs =
    (0 < u.block_size)
    × (u.num_direct + u.num_indirect < 2 ^ 31)
    × (length bs ≤ u.num_direct + u.num_indirect)
    × (u.block_size * (u.num_direct + u.num_indirect) < size_mod)

pub Fits-size_mod :
    (u : Utils) (base : List DataBlock) (node : Inode) (blocks : List DataBlock) (nums : List ℕ)
    (bs : List DataBlock)
    → Stored u base node blocks nums bs
    → Fits u bs
    → length (flat bs) < size_mod
Fits-size_mod u base node blocks nums bs file (pos, few, bound, short) =
    let total = length-flat u.block_size bs file.whole in
    let rows = row_mono (length bs) (u.num_direct + u.num_indirect) u.block_size bound in
    let swap : u.block_size * (u.num_direct + u.num_indirect)
        ≡ (u.num_direct + u.num_indirect) * u.block_size =
      grind arith in
    omega (arith, total, rows, swap, short)

-- What the blocks and the answer are after a write.
abbrev pub Wrote :
    Utils
    → FileSystem
    → ℕ
    → Inode
    → ℕ
    → List ℕ
    → List DataBlock
    → ℕ
    → ℕ
    → List ℕ
    → Option (FileSystem × Answer)
    → Type 0
Wrote u fs i node now nums bs count off buf result =
    (blocks : List DataBlock) × (bs' : List DataBlock) × (result
      ≡ some (
        after_write fs i (sized_node node now (off + count)) blocks,
        done count (off + count) [],
      ))
    × Stored u fs.data_root node blocks nums bs'
    × (flat bs' ≡ splice off buf (flat bs))
    × (length bs' ≡ length bs)

write_node-Wrote :
    (u : Utils) (fs : FileSystem) (i : ℕ) (node : Inode) (now count off : ℕ) (buf : List ℕ)
    (nums : List ℕ) (bs : List DataBlock)
    → Stored u fs.data_root node fs.data_root nums bs
    → Fits u bs
    → 0 < count
    → length buf ≡ count
    → off + count ≤ length (flat bs)
    → Regular u off count
    → Wrote u fs i node now nums bs count off buf (write_node u fs i node now count off buf)
unfolding write_node
write_node-Wrote u fs i node now count off buf nums bs file fits some_bytes size inside regular =
    let (pos, few, bound, short) = fits in
    let total = length-flat u.block_size bs file.whole in
    let rows = row_mono (length bs) (u.num_direct + u.num_indirect) u.block_size bound in
    let long = Fits-size_mod u fs.data_root node fs.data_root nums bs file fits in
    let (blocks, bs', ran, file', bytes, same) =
      written-Copied u fs.data_root node fs.data_root nums bs off count buf file pos
        (omega (arith, few, bound)) long some_bytes size inside regular in
    let lo = div_le off u.block_size pos in
    let near : ltb (off / u.block_size) (u.num_direct + u.num_indirect) ≡ true = lt→ltb _ _ (
      row_lt (off / u.block_size) (u.num_direct + u.num_indirect) u.block_size
        (omega (arith, lo, some_bytes, inside, total, rows))) in
    let low : (off + count) % size_mod ≡ off + count = omega (arith, inside, long) in
    (blocks, bs', rw (near, ran, low) refl, file', bytes, same)

-- A write of some bytes to a file whose blocks minixfs_min_blockcount has made enough, which stays
-- in the direct blocks, starts behind them or ends where a block does: it puts the bytes at the
-- offset into the blocks of the file and changes nothing else in these or in other blocks; the size
-- becomes the end of the write, whatever it was, and the count is returned with the offset behind
-- the bytes.
pub minixfs_write-Wrote :
    (u : Utils) (fs grown : FileSystem) (path : List ℕ) (i : ℕ) (node : Inode) (now count off : ℕ)
    (buf nums : List ℕ) (bs : List DataBlock)
    → u.min_blockcount fs path (rounded u (off + count) ((off + count) / u.block_size))
      ≡ (grown, true)
    → u.get_inode grown path ≡ some i
    → get_elem? grown.inode_root i ≡ some node
    → Stored u grown.data_root node grown.data_root nums bs
    → Fits u bs
    → 0 < count
    → length buf ≡ count
    → off + count ≤ length (flat bs)
    → Regular u off count
    → Wrote u grown i node now nums bs count off buf (minixfs_write u fs now path buf count off)
unfolding minixfs_write to_int
minixfs_write-Wrote u fs grown path i node now count off buf nums bs grew found there file fits
      some_bytes size inside regular =
    let (pos, few, bound, short) = fits in
    let total = length-flat u.block_size bs file.whole in
    let rows = row_mono (length bs) (u.num_direct + u.num_indirect) u.block_size bound in
    let swap : u.block_size * (u.num_direct + u.num_indirect)
        ≡ (u.num_direct + u.num_indirect) * u.block_size =
      grind arith in
    let low : (off + count) % size_mod ≡ off + count =
      omega (arith, inside, total, rows, swap, short) in
    let max_low : u.block_size * (u.num_direct + u.num_indirect) % size_mod
        ≡ u.block_size * (u.num_direct + u.num_indirect) =
      omega (arith, short) in
    let room : ltb (u.block_size * (u.num_direct + u.num_indirect)) (off + count) ≡ false =
      ge→ltb _ _ (omega (arith, inside, total, rows, swap)) in
    let lo = div_le (off + count) u.block_size pos in
    let blocks =
      row_cancel ((off + count) / u.block_size) (length bs) u.block_size pos
        (omega (arith, lo, inside, total)) in
    let int : ltb ((off + count) / u.block_size) (2 ^ 31) ≡ true =
      lt→ltb _ _ (omega (arith, blocks, bound, few)) in
    rw (low, max_low, room, int, grew, found, there)
      (write_node-Wrote u grown i node now count off buf nums bs file fits some_bytes size inside
        regular)
