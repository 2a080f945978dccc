-- ===== src/FileSystem/Read.antt =====
-- finding_filesystems/minixfs.c: minixfs_read of a file. What is_virtual_path recognises goes to
-- minixfs_virtual_read.
pub mod Blocks
pub mod Exact
pub mod File
use system_programming.Base.{
  ℕ, zero, suc, ◌+◌, ◌-◌, ◌*◌, ◌/◌, ◌%◌, List, [], ◌∷◌, ◌++◌, ltb, leb, if◌then◌else◌, Option, none,
  some, ◌>>=◌, get_elem?,
}
use system_programming.FileSystem.Disk.{
  Inode, FileSystem, Utils, DataBlock, Errno, enoent, enospc, Answer, failed, done, size_mod,
  to_int, set_node, indirect_table, copy_from, copy_blocks, then_copy,
}

-- `if (flag)`: the rest of the bytes when the first is behind the indirect block already.
unfoldable pub rest_indirect : Utils → List DataBlock → Inode → ℕ → ℕ → ℕ → Option (List ℕ)
rest_indirect u blocks node num blocknum newoff = indirect_table u blocks node >>= λ table.
    let at = num - u.num_direct + 1 in
    then_copy (copy_blocks u.block_size blocks table at blocknum) (
      if ltb (at + blocknum) u.num_indirect
      then copy_from blocks table (at + blocknum) 0 newoff
      else some [])

-- `if (flag == 0)`: the rest in direct blocks only.
unfoldable pub rest_direct : Utils → List DataBlock → Inode → ℕ → ℕ → ℕ → Option (List ℕ)
rest_direct u blocks node num blocknum newoff =
    then_copy (copy_blocks u.block_size blocks node.direct (num + 1) blocknum)
      (copy_from blocks node.direct (num + 1 + blocknum) 0 newoff)

-- `if (num + blocknum + 1 >= NUM_DIRECT_INODES)`: the direct blocks, then those behind the indirect.
unfoldable pub rest_over : Utils → List DataBlock → Inode → ℕ → ℕ → ℕ → Option (List ℕ)
rest_over u blocks node num blocknum newoff =
    let remain_block = num + blocknum + 1 - u.num_direct in
    then_copy (copy_blocks u.block_size blocks node.direct (num + 1) (u.num_direct - num - 1)) (
      indirect_table u blocks node >>= λ table.
      then_copy (copy_blocks u.block_size blocks table 0 remain_block) (
        if ltb remain_block u.num_indirect
        then copy_from blocks table remain_block 0 newoff
        else some []))

-- `memcpy((char*)buf, ptr, n)` with `ptr` in the block of the first byte.
unfoldable pub first_copy : Utils → List DataBlock → Inode → ℕ → ℕ → ℕ → Option (List ℕ)
first_copy u blocks node num offset n =
    if ltb num u.num_direct
    then copy_from blocks node.direct num offset n
    else (indirect_table u blocks node >>= λ table.
        copy_from blocks table (num - u.num_direct) offset n)

-- The `if`s on `flag` and on the end of the direct blocks.
unfoldable pub rest_copy : Utils → List DataBlock → Inode → ℕ → ℕ → ℕ → Option (List ℕ)
rest_copy u blocks node num blocknum newoff =
    if ltb num u.num_direct
    then (if ltb (num + blocknum + 1) u.num_direct
        then rest_direct u blocks node num blocknum newoff
        else rest_over u blocks node num blocknum newoff)
    else rest_indirect u blocks node num blocknum newoff

-- What memcpy puts into `buf`, `count` already cut at the end of the file.
unfoldable pub copied : Utils → List DataBlock → Inode → ℕ → ℕ → Option (List ℕ)
copied u blocks node myoff count =
    let num = myoff / u.block_size in
    let offset = myoff - num * u.block_size in
    let remain = u.block_size - offset in
    if leb count remain
    then first_copy u blocks node num offset count
    else (to_int ((count - remain) / u.block_size) >>= λ blocknum.
        let newoff = count - remain - blocknum * u.block_size in
        then_copy (first_copy u blocks node num offset remain)
          (rest_copy u blocks node num blocknum newoff))

-- minixfs_read behind the look-up of the inode. The sum of `myoff` and `count` is a uint64_t.
unfoldable pub read_node : Utils → FileSystem → ℕ → Inode → ℕ → ℕ → ℕ → Option (FileSystem × Answer)
read_node u fs i node now count off =
    let fs' = set_node fs i (record node { atim = now }) in
    let count' = if leb node.size ((off + count) % size_mod) then node.size - off else count in
    if leb node.size off
    then some (fs', done 0 off [])
    else if ltb (off / u.block_size) (u.num_direct + u.num_indirect)
    then (copied u fs.data_root node off count' >>= λ bytes.
        some (fs', done count' ((off + count') % size_mod) bytes))
    else some (fs', done 0 off [])
