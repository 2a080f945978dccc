-- ===== src/FileSystem/Write/Runs.antt =====
-- The two ends of minixfs_write (finding_filesystems/minixfs.c), from the second block on.
use system_programming.Base.{
  take-all, false, subst, true, ℕ, zero, suc, ◌+◌, ◌-◌, ◌*◌, ◌≤◌, ◌<◌, ◌≡◌, ◌⊎◌, refl, ap, sym, ◌∙◌,
  List, Option, some, ◌>>=◌, length, take, drop, arith, ltb, inl, inr, ge→ltb, lt→ltb,
  if◌then◌else◌, length-take, length-drop,
}
use system_programming.FileSystem.Disk.{Inode, Utils, DataBlock}
use system_programming.FileSystem.Slices.{flat, row_lt, take-add}
use system_programming.FileSystem.Write.{
  copy_indirect, copy_either, write_blocks, rest_front, rest_behind,
}
use system_programming.FileSystem.Write.Splices.{splice-nil}
use system_programming.FileSystem.Write.Stored.{Stored}
use system_programming.FileSystem.Write.Copies.{
  Copied, Copied-cast, Copied-then, copy_either-Copied, write_blocks-Copied,
}

-- The last copy, if there are bytes left.
last_copy :
    (u : Utils) (base : List DataBlock) (node : Inode) (nums : List ℕ) (bs : List DataBlock)
    (blocks : List DataBlock) (at r : ℕ) (left : List ℕ) (run : Option (List DataBlock))
    → Stored u base node blocks nums bs
    → (0 < r → Copied u base node nums bs at (take r left) run)
    → Copied u base node nums bs at (take r left) (if ltb 0 r then run else some blocks)
last_copy u base node nums bs blocks at zero left run file copied =
    (blocks, bs, refl, file, sym (splice-nil at (flat bs)), refl)
last_copy u base node nums bs blocks at (suc r) left run file copied =
    let some_left : ltb 0 (suc r) ≡ true = ground arith in rw some_left (copied (omega arith))

-- A copy behind the direct blocks.
either_behind :
    (u : Utils) (node : Inode) (blocks : List DataBlock) (i start n : ℕ) (p : List ℕ)
    → copy_indirect u node blocks i start n p
      ≡ copy_either u node blocks (u.num_direct + i) start n p
unfolding copy_either
either_behind u node blocks i start n p =
    let far : ltb (u.num_direct + i) u.num_direct ≡ false = ge→ltb _ _ (omega arith) in
    let at : u.num_direct + i - u.num_direct ≡ i = omega arith in rw (far, at) refl

blocks_behind :
    (u : Utils) (node : Inode) (size : ℕ) (blocks : List DataBlock) (i k : ℕ) (p : List ℕ)
    → write_blocks (copy_indirect u node) size blocks i k p
      ≡ write_blocks (copy_either u node) size blocks (u.num_direct + i) k p
unfolding write_blocks
blocks_behind u node size blocks i zero p = refl
blocks_behind u node size blocks i (suc k) p =
    let next : u.num_direct + suc i ≡ suc (u.num_direct + i) = omega arith in
    let rest = λ (changed : List DataBlock).
      blocks_behind u node size changed (suc i) k (drop size p)
      ∙ ap (λ j. write_blocks (copy_either u node) size changed j k (drop size p)) next in
    ap
      (λ o.
        o >>= λ changed. write_blocks (copy_indirect u node) size changed (suc i) k (drop size p))
      (either_behind u node blocks i 0 size p)
    ∙ (λ t. copy_either u node blocks (u.num_direct + i) 0 size p >>= λ changed. rest changed t)

-- Whole blocks, and what a last copy makes of the rest.
blocks_then_last :
    (u : Utils) (base : List DataBlock) (node : Inode) (blocks : List DataBlock) (nums : List ℕ)
    (bs : List DataBlock) (j m r : ℕ) (p : List ℕ) (last : List DataBlock → Option (List DataBlock))
    → Stored u base node blocks nums bs
    → 0 < u.block_size
    → r < u.block_size
    → length p ≡ m * u.block_size + r
    → (j + m) * u.block_size + r ≤ length (flat bs)
    → (0 < r
        → (changed : List DataBlock)
        → last changed ≡ copy_either u node changed (j + m) 0 r (drop (m * u.block_size) p))
    → Copied u base node nums bs (j * u.block_size) p (
        write_blocks (copy_either u node) u.block_size blocks j m p >>= λ changed.
        if ltb 0 r then last changed else some changed)
blocks_then_last u base node blocks nums bs j m r p last file pos small size inside same =
    let front = m * u.block_size in
    let rows : (j + m) * u.block_size ≡ j * u.block_size + front = grind arith in
    let left = length-drop front p in
    let taken = length-take front p (omega (arith, size)) in
    let start : (j + m) * u.block_size + 0 ≡ j * u.block_size + length (take front p) =
      omega (arith, rows, taken) in
    Copied-cast u base node nums bs _ refl
      (sym (take-add front r p) ∙ take-all (front + r) p (sym size))
      (Copied-then u base node nums bs (j * u.block_size) (take front p) (take r (drop front p)) _ _
        (write_blocks-Copied u base node blocks nums bs j m p file pos (omega (arith, size))
          (omega (arith, inside)))
        (omega (arith, inside, rows, taken))
        (λ changed bs' file' kept.
          last_copy u base node nums bs' changed _ r (drop front p) (last changed) file' (λ more.
            Copied-cast u base node nums bs' _ start refl (
              subst
                (λ run.
                  Copied u base node nums bs' ((j + m) * u.block_size + 0) (take r (drop front p))
                    run)
                (sym (same more changed))
                (copy_either-Copied u base node changed nums bs' (j + m) 0 r (drop front p) file'
                  more (omega (arith, left, size)) (omega (arith, small))
                  (omega (arith, kept, inside)))))))

pub rest_front-Copied :
    (u : Utils) (base : List DataBlock) (node : Inode) (blocks : List DataBlock) (nums : List ℕ)
    (bs : List DataBlock) (num m r : ℕ) (p : List ℕ)
    → Stored u base node blocks nums bs
    → 0 < u.block_size
    → r < u.block_size
    → length p ≡ m * u.block_size + r
    → (num + 1 + m) * u.block_size + r ≤ length (flat bs)
    → ((num + 1 + m) * u.block_size + r ≤ u.num_direct * u.block_size) ⊎ (r ≡ 0)
    → Copied u base node nums bs ((num + 1) * u.block_size) p (rest_front u node blocks num m r p)
unfolding rest_front copy_either
rest_front-Copied u base node blocks nums bs num m r p file pos small size inside ends =
    blocks_then_last u base node blocks nums bs (num + 1) m r p _ file pos small size inside
      (λ more changed.
        let below : num + 1 + m < u.num_direct = elim ends [
          | inl short ↦ row_lt (num + 1 + m) u.num_direct u.block_size (omega (arith, short, more))
          | inr nothing ↦ absurd (omega (arith, nothing, more))
        ] in
        let at : num + m + 1 ≡ num + 1 + m = omega arith in
        let near : ltb (num + 1 + m) u.num_direct ≡ true = lt→ltb _ _ below in rw (at, near) refl)

pub rest_behind-Copied :
    (u : Utils) (base : List DataBlock) (node : Inode) (blocks : List DataBlock) (nums : List ℕ)
    (bs : List DataBlock) (num m r : ℕ) (p : List ℕ)
    → Stored u base node blocks nums bs
    → 0 < u.block_size
    → r < u.block_size
    → length p ≡ m * u.block_size + r
    → (num + 1 + m) * u.block_size + r ≤ length (flat bs)
    → u.num_direct ≤ num
    → Copied u base node nums bs ((num + 1) * u.block_size) p (rest_behind u node blocks num m r p)
unfolding rest_behind
rest_behind-Copied u base node blocks nums bs num m r p file pos small size inside far =
    let at : u.num_direct + (num - u.num_direct + 1) ≡ num + 1 = omega arith in
    let last : u.num_direct + (num - u.num_direct + 1 + m) ≡ num + 1 + m = omega arith in
    let behind =
      blocks_behind u node u.block_size blocks (num - u.num_direct + 1) m p
      ∙ ap (λ j. write_blocks (copy_either u node) u.block_size blocks j m p) at in
    rw behind (
      blocks_then_last u base node blocks nums bs (num + 1) m r p _ file pos small size inside
        (λ more changed.
          either_behind u node changed (num - u.num_direct + 1 + m) 0 r (drop (m * u.block_size) p)
          ∙ ap (λ j. copy_either u node changed j 0 r (drop (m * u.block_size) p)) last))
