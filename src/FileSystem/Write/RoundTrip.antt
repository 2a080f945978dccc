-- ===== src/FileSystem/Write/RoundTrip.antt =====
-- minixfs_read behind minixfs_write (finding_filesystems/minixfs.c) at the same place of the same file.
use system_programming.Base.{
  inr, inl, ℕ, ◌+◌, ◌*◌, ◌/◌, ◌≤◌, ◌<◌, ◌≡◌, ◌⊎◌, ap, ◌∙◌, List, [], some, none, length, arith,
  true, get_elem?, take, drop,
}
use system_programming.FileSystem.Disk.{
  set_node, indirect_table, Inode, FileSystem, Utils, DataBlock, done,
}
use system_programming.FileSystem.Slices.{flat, slice, slice-take}
use system_programming.FileSystem.Virtual.{minixfs_read}
use system_programming.FileSystem.Read.File.{reads, minixfs_read-slice}
use system_programming.FileSystem.Write.{minixfs_write, rounded}
use system_programming.FileSystem.Write.Splices.{length-splice, slice-splice}
use system_programming.FileSystem.Write.Stored.{Stored, Fresh, set-same}
use system_programming.FileSystem.Write.Exact.{Regular}
use system_programming.FileSystem.Write.Shape.{Stored-IsFile}
use system_programming.FileSystem.Write.File.{
  Fits-size_mod, Fits, after_write, sized_node, minixfs_write-Wrote,
}

-- The inode with its new size has the same blocks.
Stored-sized_node :
    (u : Utils) (base blocks : List DataBlock) (node : Inode) (now end : ℕ) (nums : List ℕ)
    (bs : List DataBlock)
    → Stored u base node blocks nums bs
    → Stored u base (sized_node node now end) blocks nums bs
unfolding indirect_table
Stored-sized_node u base blocks node now end nums bs file = record {
  leads = file.leads;
  whole = file.whole;
  same = file.same;
  distinct = file.distinct;
  apart = file.apart;
  frame = file.frame;
  direct = file.direct;
  behind = file.behind;
}

-- A look-up does not depend on the blocks of the file, nor on its size and times.
abbrev pub LooksUp : Utils → FileSystem → List ℕ → ℕ → Inode → List ℕ → Type 0
LooksUp u fs path i node nums =
    (blocks : List DataBlock)
    → ((d : ℕ) → Fresh d nums → get_elem? blocks d ≡ get_elem? fs.data_root d)
    → u.get_inode (after_write fs i node blocks) path ≡ some i

-- A write of some bytes to a file with blocks enough, which stays in the direct blocks, starts
-- behind them or ends where a block does, succeeds, and a read of the same bytes of the same path
-- then returns them. The new end is before that of the direct blocks, or the file has a block
-- behind them; its blocks are all different and none is the indirect block, and the look-up of the
-- path does not depend on them.
pub minixfs_write-minixfs_read :
    (u : Utils) (fs grown : FileSystem) (path : List ℕ) (i : ℕ) (node : Inode)
    (now later count off : ℕ) (buf nums : List ℕ) (bs : List DataBlock)
    → u.is_virtual_path (some path) ≡ none
    → u.min_blockcount fs path (rounded u (off + count) ((off + count) / u.block_size))
      ≡ (grown, true)
    → u.get_inode grown path ≡ some i
    → LooksUp u grown path i (sized_node node now (off + count)) nums
    → get_elem? grown.inode_root i ≡ some node
    → length node.direct ≡ u.num_direct
    → ((block : DataBlock) → length (u.barray block) ≡ u.num_indirect)
    → Stored u grown.data_root node grown.data_root nums bs
    → Fits u bs
    → 0 < count
    → length buf ≡ count
    → off + count ≤ length (flat bs)
    → Regular u off count
    → ((off + count < u.num_direct * u.block_size) × (length bs ≤ u.num_direct))
      ⊎ (u.num_direct < length bs)
    → (after : FileSystem) × (last : FileSystem) × (minixfs_write u fs now path buf count off
        ≡ some (after, done count (off + count) []))
      × (minixfs_read u after later (some path) count off ≡ some (reads last off buf))
unfolding set_node
minixfs_write-minixfs_read u fs grown path i node now later count off buf nums bs plain grew found
      looks there numbers sized file fits some_bytes size inside regular place =
    let (blocks, bs', ran, file', bytes, same) =
      minixfs_write-Wrote u fs grown path i node now count off buf nums bs grew found there file
        fits some_bytes size inside regular in
    let (pos, few, bound, short) = fits in
    let node' = sized_node node now (off + count) in
    let kept = Stored-sized_node u grown.data_root blocks node now (off + count) nums bs' file' in
    let long = ap length bytes ∙ length-splice off buf (flat bs) (omega (arith, size, inside)) in
    let (proper, all) =
      Stored-IsFile u grown.data_root node' blocks nums bs' kept pos few numbers sized
        (omega (arith, long, inside))
        (elim place [
          | inl (near, small) ↦ inl (near, omega (arith, small, same))
          | inr far ↦ inr (omega (arith, far, same))
        ]) in
    let last = set_node (after_write grown i node' blocks) i (record node' { atim = later }) in
    let got =
      slice-take off count (off + count) _ (omega arith)
      ∙ ap (slice off count) (all ∙ bytes)
      ∙ slice-splice off count buf (flat bs) (omega (arith, inside)) size in
    (
      after_write grown i node' blocks,
      last,
      ran,
      minixfs_read-slice u (after_write grown i node' blocks) later path i node' count off
            (take u.num_direct bs') (drop u.num_direct bs') plain (looks blocks file'.frame)
            (set-same grown.inode_root i node' node there) proper
            (omega (
              arith,
              inside,
              Fits-size_mod u grown.data_root node grown.data_root nums bs file fits,
            ))
          ∙ ap (λ b. some (reads last off b)) got,
    )
