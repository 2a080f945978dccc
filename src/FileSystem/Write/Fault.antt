-- ===== src/FileSystem/Write/Fault.antt =====
-- The write of finding_filesystems/minixfs.c that starts in the direct blocks and ends inside a block
-- behind them.
use system_programming.Base.{
  take, set, if◌then◌else◌, ℕ, ◌+◌, ◌-◌, ◌*◌, ◌/◌, ◌%◌, ◌^◌, ◌≤◌, ◌<◌, ◌≡◌, refl, List, Option,
  some, none, ◌>>=◌, length, arith, ltb, leb, ◌==◌, Bool-cases, inl, inr, lt→ltb, ge→ltb, gt→leb,
  true, false, get_elem?, length-drop, drop,
}
use system_programming.FileSystem.Disk.{
  Inode, FileSystem, Utils, DataBlock, size_mod, indirect_table, to_int,
}
use system_programming.FileSystem.Slices.{div_le, rows_add, row_lt, row_le}
use system_programming.FileSystem.Write.{
  splice, copy_to, copy_indirect, copy_either, write_blocks, rest_front, written, write_node,
  minixfs_write, rounded,
}
use system_programming.FileSystem.Write.Exact.{cut_lem, div_mod}

bind_none :
    (o : Option (List DataBlock)) (f : List DataBlock → Option (List DataBlock))
    → ((x : List DataBlock) → f x ≡ none)
    → (o >>= f) ≡ none
bind_none none f h = refl
bind_none (some x) f h = h x

-- Too few bytes in the buffer.
copy_to_short :
    (blocks : List DataBlock) (table : List ℕ) (i start n : ℕ) (p : List ℕ)
    → length p < n
    → copy_to blocks table i start n p ≡ none
unfolding copy_to
copy_to_short blocks table i start n p short =
    let some_bytes : (n == 0) ≡ false = ground arith in
    let few : ltb (length p) n ≡ true = lt→ltb _ _ short in
    by_number (get_elem? table i) some_bytes few
  where
    by_number :
        (d : Option ℕ)
        → (n == 0) ≡ false
        → ltb (length p) n ≡ true
        → (d >>= λ d.
            if n == 0
            then some blocks
            else if ltb (length p) n
            then none
            else (get_elem? blocks d >>= λ block.
                some (set blocks d (splice start (take n p) block))))
          ≡ none
    by_number none e e' = refl
    by_number (some d) e e' = rw (e, e') refl

copy_indirect_short :
    (u : Utils) (node : Inode) (blocks : List DataBlock) (i start n : ℕ) (p : List ℕ)
    → length p < n
    → copy_indirect u node blocks i start n p ≡ none
unfolding copy_indirect
copy_indirect_short u node blocks i start n p short = by_table (indirect_table u blocks node)
  where
    by_table :
        (table : Option (List ℕ)) → (table >>= λ table. copy_to blocks table i start n p) ≡ none
    by_table none = refl
    by_table (some table) = copy_to_short blocks table i start n p short

rest_front_faults :
    (u : Utils) (node : Inode) (blocks : List DataBlock) (num m r : ℕ) (p : List ℕ)
    → 0 < r
    → r < u.block_size
    → length p ≡ m * u.block_size + r
    → u.num_direct ≤ num + m + 1
    → rest_front u node blocks num m r p ≡ none
unfolding rest_front
rest_front_faults u node blocks num m r p more small size far =
    let left = length-drop (m * u.block_size) p in
    let some_left : ltb 0 r ≡ true = lt→ltb 0 r more in
    let over : ltb (num + m + 1) u.num_direct ≡ false = ge→ltb _ _ far in
    rw (some_left, over)
      (bind_none (write_blocks (copy_either u node) u.block_size blocks (num + 1) m p) _ (λ changed.
        copy_indirect_short u node changed (num + m + 1 - u.num_direct) 0 u.block_size
          (drop (m * u.block_size) p) (omega (arith, left, size, small))))

written_faults :
    (u : Utils) (node : Inode) (blocks : List DataBlock) (off count : ℕ) (buf : List ℕ)
    → 0 < u.block_size
    → off < u.num_direct * u.block_size
    → u.num_direct * u.block_size < off + count
    → off + count < size_mod
    → 0 < (off + count) % u.block_size
    → length buf ≡ count
    → written u node blocks off count buf ≡ none
unfolding written to_int
written_faults u node blocks off count buf pos before over fits inside size =
    let b = u.block_size in
    let n = u.num_direct in
    let num = off / b in
    let lo = div_le off b pos in
    let near = row_lt num n b (omega (arith, lo, before)) in
    let row = row_le num n b near in
    let hi = div_mod off b pos in
    let remain = b - off % b in
    let more : remain < count = omega (arith, lo, hi, row, over) in
    let m = (count - remain) / b in
    let (r, end, small, newoff, rest, begin) = cut_lem off count b pos more in
    let next = rows_add (num + 1 + m) 1 (num + 1 + m + 1) b refl in
    let one : 1 * b ≡ b = grind arith in
    let far = row_lt n (num + 1 + m + 1) b (omega (arith, next, one, end, small, over)) in
    let long : leb count remain ≡ false = gt→leb _ _ more in
    let first : ltb num n ≡ true = lt→ltb _ _ near in
    let low : (off + count) % size_mod ≡ off + count = omega (arith, fits) in
    let left = length-drop remain buf in
    rw (long, low, newoff, first)
      (bind_none (copy_either u node blocks num (off % b) remain buf) _ (λ changed.
        elim (Bool-cases (ltb m (2 ^ 31))) [
          | inl int ↦ rw int (
              rest_front_faults u node changed num m r (drop remain buf)
                (omega (arith, inside, newoff)) small (omega (arith, left, size, rest))
                (omega (arith, far)))
          | inr huge ↦ rw huge refl
        ]))

-- A write with blocks enough that starts in the direct blocks and ends inside a block behind them
-- is a fault, for a buffer that holds exactly the count: the last memcpy takes a whole block.
pub minixfs_write_faults :
    (u : Utils) (fs grown : FileSystem) (path : List ℕ) (i : ℕ) (node : Inode) (now count off : ℕ)
    (buf : List ℕ)
    → u.min_blockcount fs path (rounded u (off + count) ((off + count) / u.block_size))
      ≡ (grown, true)
    → u.get_inode grown path ≡ some i
    → get_elem? grown.inode_root i ≡ some node
    → 0 < u.block_size
    → u.block_size * (u.num_direct + u.num_indirect) < size_mod
    → off < u.num_direct * u.block_size
    → u.num_direct * u.block_size < off + count
    → off + count ≤ u.block_size * (u.num_direct + u.num_indirect)
    → 0 < (off + count) % u.block_size
    → length buf ≡ count
    → minixfs_write u fs now path buf count off ≡ none
unfolding minixfs_write write_node to_int
minixfs_write_faults u fs grown path i node now count off buf grew found there pos short before over
      room inside size =
    let lo = div_le off u.block_size pos in
    let near = row_lt (off / u.block_size) u.num_direct u.block_size (omega (arith, lo, before)) in
    let low : (off + count) % size_mod ≡ off + count = omega (arith, room, short) in
    let max_low : u.block_size * (u.num_direct + u.num_indirect) % size_mod
        ≡ u.block_size * (u.num_direct + u.num_indirect) =
      omega (arith, short) in
    let fits : ltb (u.block_size * (u.num_direct + u.num_indirect)) (off + count) ≡ false =
      ge→ltb _ _ room in
    let first : ltb (off / u.block_size) (u.num_direct + u.num_indirect) ≡ true =
      lt→ltb _ _ (omega (arith, near)) in
    let fault =
      written_faults u node grown.data_root off count buf pos before over
        (omega (arith, room, short)) inside size in
    elim (Bool-cases (ltb ((off + count) / u.block_size) (2 ^ 31))) [
      | inl int ↦ rw (low, max_low, fits, int, grew, found, there, first, fault) refl
      | inr huge ↦ rw (low, max_low, fits, huge) refl
    ]
