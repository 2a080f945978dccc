-- ===== src/FileSystem/Write.antt =====
-- finding_filesystems/minixfs.c: minixfs_write.
pub mod Copies
pub mod Exact
pub mod Fault
pub mod File
pub mod RoundTrip
pub mod Runs
pub mod Shape
pub mod Splices
pub mod Stored
use system_programming.Base.{
  ℕ, zero, suc, ◌+◌, ◌-◌, ◌*◌, ◌/◌, ◌%◌, ◌^◌, List, [], ◌∷◌, ◌++◌, ltb, leb, ◌==◌, if◌then◌else◌,
  Option, none, some, ◌>>=◌, get_elem?, length, take, drop, set, Bool, true, false,
}
use system_programming.FileSystem.Disk.{
  Inode, FileSystem, Utils, DataBlock, Errno, enospc, Answer, failed, done, size_mod, to_int,
  set_node, indirect_table,
}

-- The bytes over those of the block from `start` on.
abbrev pub splice : ℕ → List ℕ → List ℕ → List ℕ
splice start bytes block = take start block ++ (bytes ++ drop (start + length bytes) block)

-- `memcpy(ptr, p, n)` to the block in `table` at `i`, from `start` on. Fewer than `n` bytes at `p` are a
-- fault; no bytes reach no block.
unfoldable pub copy_to : List DataBlock → List ℕ → ℕ → ℕ → ℕ → List ℕ → Option (List DataBlock)
copy_to blocks table i start n p = get_elem? table i >>= λ d.
    if n == 0
    then some blocks
    else if ltb (length p) n
    then none
    else (get_elem? blocks d >>= λ block. some (set blocks d (splice start (take n p) block)))

-- The same over the indirect block.
unfoldable pub copy_indirect :
    Utils → Inode → List DataBlock → ℕ → ℕ → ℕ → List ℕ → Option (List DataBlock)
copy_indirect u node blocks i start n p =
    indirect_table u blocks node >>= λ table. copy_to blocks table i start n p

-- `if (num + i < NUM_DIRECT_INODES)` and its else.
unfoldable pub copy_either :
    Utils → Inode → List DataBlock → ℕ → ℕ → ℕ → List ℕ → Option (List DataBlock)
copy_either u node blocks j start n p =
    if ltb j u.num_direct
    then copy_to blocks node.direct j start n p
    else copy_indirect u node blocks (j - u.num_direct) start n p

-- A loop that copies `k` whole blocks to those from `j` on.
unfoldable pub write_blocks :
    (List DataBlock → ℕ → ℕ → ℕ → List ℕ → Option (List DataBlock))
    → ℕ
    → List DataBlock
    → ℕ
    → ℕ
    → List ℕ
    → Option (List DataBlock)
write_blocks copy size blocks j zero p = some blocks
write_blocks copy size blocks j (suc k) p =
    copy blocks j 0 size p >>= λ changed. write_blocks copy size changed (suc j) k (drop size p)

-- `if (flag)`.
unfoldable pub rest_behind :
    Utils → Inode → List DataBlock → ℕ → ℕ → ℕ → List ℕ → Option (List DataBlock)
rest_behind u node blocks num block newoff p =
    let at = num - u.num_direct + 1 in
    write_blocks (copy_indirect u node) u.block_size blocks at block p >>= λ changed.
    if ltb 0 newoff
    then copy_indirect u node changed (at + block) 0 newoff (drop (block * u.block_size) p)
    else some changed

-- `if (flag == 0)`. The last copy to a block behind the direct ones has the size of a block.
unfoldable pub rest_front :
    Utils → Inode → List DataBlock → ℕ → ℕ → ℕ → List ℕ → Option (List DataBlock)
rest_front u node blocks num block newoff p =
    write_blocks (copy_either u node) u.block_size blocks (num + 1) block p >>= λ changed.
    let left = drop (block * u.block_size) p in
    if ltb 0 newoff
    then (if ltb (num + block + 1) u.num_direct
        then copy_to changed node.direct (num + block + 1) 0 newoff left
        else copy_indirect u node changed (num + block + 1 - u.num_direct) 0 u.block_size left)
    else some changed

-- What is written to the blocks.
unfoldable pub written : Utils → Inode → List DataBlock → ℕ → ℕ → List ℕ → Option (List DataBlock)
written u node blocks off count buf =
    let num = off / u.block_size in
    let offset = off % u.block_size in
    let remain = u.block_size - offset in
    if leb count remain
    then copy_either u node blocks num offset count buf
    else (copy_either u node blocks num offset remain buf >>= λ changed.
        to_int ((count - remain) / u.block_size) >>= λ block.
        let newoff = (off + count) % size_mod % u.block_size in
        let p = drop remain buf in
        if ltb num u.num_direct
        then rest_front u node changed num block newoff p
        else rest_behind u node changed num block newoff p)

-- minixfs_write behind minixfs_min_blockcount.
unfoldable pub write_node :
    Utils → FileSystem → ℕ → Inode → ℕ → ℕ → ℕ → List ℕ → Option (FileSystem × Answer)
write_node u fs i node now count off buf =
    let timed : Inode = record node { mtim = now; atim = now } in
    let end = (off + count) % size_mod in
    if ltb (off / u.block_size) (u.num_direct + u.num_indirect)
    then (written u node fs.data_root off count buf >>= λ blocks. some (
      set_node (record fs { data_root = blocks }) i (record timed { size = end }),
      done count end [],
    ))
    else some (set_node fs i timed, failed enospc)

-- `needBlock`, from the quotient.
abbrev pub rounded : Utils → ℕ → ℕ → ℕ
rounded u end blocks = if ltb 0 (end % u.block_size) then blocks + 1 else blocks

-- `buf` is what the caller's buffer holds; `now` is what clock_gettime gives.
unfoldable pub minixfs_write :
    Utils → FileSystem → ℕ → List ℕ → List ℕ → ℕ → ℕ → Option (FileSystem × Answer)
minixfs_write u fs now path buf count off =
    let end = (off + count) % size_mod in
    let maxsz = u.block_size * (u.num_direct + u.num_indirect) % size_mod in
    if ltb maxsz end
    then some (fs, failed enospc)
    else (to_int (end / u.block_size) >>= λ blocks.
        let (grown, ok) = u.min_blockcount fs path (rounded u end blocks) in
        if ok
        then (u.get_inode grown path >>= λ i.
            get_elem? grown.inode_root i >>= λ node. write_node u grown i node now count off buf)
        else some (grown, failed enospc))
