-- ===== src/FileSystem/Write/Exact.antt =====
-- What minixfs_write (finding_filesystems/minixfs.c) leaves in the blocks of the file.
use system_programming.Base.{
  take-all, if◌then◌else◌, true, false, Bool, true, ℕ, ◌+◌, ◌-◌, ◌*◌, ◌/◌, ◌%◌, ◌^◌, ◌≤◌, ◌<◌, ◌≡◌,
  ◌⊎◌, refl, sym, ◌∙◌, List, length, take, drop, arith, ltb, leb, Bool-cases, ltb→lt, ltb→ge, inl,
  inr, lt→ltb, length-take, length-drop, leb→le, leb→gt, take-append-drop,
}
use system_programming.FileSystem.Disk.{Inode, Utils, DataBlock, to_int, size_mod}
use system_programming.FileSystem.Slices.{length-flat, flat, div_le, div_lt, rows_add, row_cancel}
use system_programming.FileSystem.Write.{rest_behind, rest_front, written}
use system_programming.FileSystem.Write.Stored.{Stored}
use system_programming.FileSystem.Write.Copies.{
  Copied, Copied-cast, Copied-then, copy_either-Copied,
}
use system_programming.FileSystem.Write.Runs.{rest_front-Copied, rest_behind-Copied}

-- The write stays in the direct blocks, or is behind them, or ends where a block does.
abbrev pub Regular : Utils → ℕ → ℕ → Type 0
Regular u off count =
    (off + count ≤ u.num_direct * u.block_size)
    ⊎ ((u.num_direct ≤ off / u.block_size) ⊎ ((off + count) % u.block_size ≡ 0))

mod_lem : (n b m r : ℕ) → 0 < b → r < b → n ≡ m * b + r → n % b ≡ r
mod_lem n b m r pos small e = grind arith

pub div_mod : (n b : ℕ) → 0 < b → n % b ≡ n - n / b * b
div_mod n b pos = grind arith

-- Where a write that leaves its first block ends: behind whole blocks, by `r` bytes.
pub cut_lem :
    (off count b : ℕ)
    → 0 < b
    → b - off % b < count
    → (r : ℕ) × (off + count ≡ (off / b + 1 + (count - (b - off % b)) / b) * b + r)
      × (r < b)
      × ((off + count) % b ≡ r)
      × (count - (b - off % b) ≡ (count - (b - off % b)) / b * b + r)
      × ((off / b + 1) * b ≡ off + (b - off % b))
cut_lem off count b pos more =
    let num = off / b in
    let lo = div_le off b pos in
    let hi = div_lt off b pos in
    let off_lem = div_mod off b pos in
    let rest = count - (b - off % b) in
    let m = rest / b in
    let r = rest - m * b in
    let lo_m = div_le rest b pos in
    let hi_m = div_lt rest b pos in
    let next = rows_add num 1 (num + 1) b refl in
    let one : 1 * b ≡ b = grind arith in
    let rows = rows_add (num + 1) m _ b refl in
    let end : off + count ≡ (num + 1 + m) * b + r =
      omega (arith, next, one, rows, lo, hi, lo_m, off_lem, more) in
    let small : r < b = omega (arith, hi_m, lo_m) in
    (
      r,
      end,
      small,
      mod_lem (off + count) b (num + 1 + m) r pos small end,
      omega (arith, lo_m),
      omega (arith, next, one, lo, hi, off_lem),
    )

rest-Copied :
    (u : Utils) (base : List DataBlock) (node : Inode) (blocks : List DataBlock) (nums : List ℕ)
    (bs : List DataBlock) (num m r : ℕ) (p : List ℕ)
    → Stored u base node blocks nums bs
    → 0 < u.block_size
    → r < u.block_size
    → length p ≡ m * u.block_size + r
    → (num + 1 + m) * u.block_size + r ≤ length (flat bs)
    → ((num + 1 + m) * u.block_size + r ≤ u.num_direct * u.block_size)
      ⊎ ((u.num_direct ≤ num) ⊎ (r ≡ 0))
    → Copied u base node nums bs ((num + 1) * u.block_size) p (
        if ltb num u.num_direct
        then rest_front u node blocks num m r p
        else rest_behind u node blocks num m r p)
rest-Copied u base node blocks nums bs num m r p file pos small size inside regular =
    by_place (ltb num u.num_direct) refl
  where
    by_place :
        (t : Bool)
        → ltb num u.num_direct ≡ t
        → Copied u base node nums bs
            ((num + 1) * u.block_size)
            p
            (if t then rest_front u node blocks num m r p else rest_behind u node blocks num m r p)
    by_place true near =
        let below = ltb→lt num u.num_direct near in
        rest_front-Copied u base node blocks nums bs num m r p file pos small size inside
          (elim regular [
            | inl short ↦ inl short
            | inr (inl far) ↦ absurd (omega arith)
            | inr (inr whole) ↦ inr whole
          ])
    by_place false far =
        rest_behind-Copied u base node blocks nums bs num m r p file pos small size inside
          (ltb→ge num u.num_direct far)

pub written-Copied :
    (u : Utils) (base : List DataBlock) (node : Inode) (blocks : List DataBlock) (nums : List ℕ)
    (bs : List DataBlock) (off count : ℕ) (buf : List ℕ)
    → Stored u base node blocks nums bs
    → 0 < u.block_size
    → length bs < 2 ^ 31
    → length (flat bs) < size_mod
    → 0 < count
    → length buf ≡ count
    → off + count ≤ length (flat bs)
    → Regular u off count
    → Copied u base node nums bs off buf (written u node blocks off count buf)
unfolding written to_int
written-Copied u base node blocks nums bs off count buf file pos few fits some_bytes size inside
      regular =
    let b = u.block_size in
    let num = off / b in
    let lo = div_le off b pos in
    let hi = div_lt off b pos in
    let offset = off % b in
    let off_lem = div_mod off b pos in
    let remain = b - offset in
    let here : num * b + offset ≡ off = omega (arith, lo, off_lem) in
    elim (Bool-cases (leb count remain)) [
      | inl one ↦
          let within = leb→le count remain one in
          rw one (
            Copied-cast u base node nums bs _ here (take-all count buf (sym size)) (
              copy_either-Copied u base node blocks nums bs num offset count buf file some_bytes
                (omega (arith, size)) (omega (arith, within, lo, hi, off_lem))
                (omega (arith, here, inside))))
      | inr over ↦
          let more = leb→gt count remain over in
          let m = (count - remain) / b in
          let (r, end, small, newoff, rest, begin) = cut_lem off count b pos more in
          let low : (off + count) % size_mod ≡ off + count = omega (arith, inside, fits) in
          let total = length-flat b bs file.whole in
          let count_m = row_cancel m (length bs) b pos (omega (arith, rest, more, inside, total)) in
          let int_m : ltb m (2 ^ 31) ≡ true = lt→ltb _ _ (omega (arith, count_m, few)) in
          let taken = length-take remain buf (omega (arith, size, more)) in
          let left = length-drop remain buf in
          let start : (num + 1) * b ≡ off + length (take remain buf) =
            omega (arith, begin, taken) in
          let size_left : length (drop remain buf) ≡ m * b + r = omega (arith, left, size, rest) in
          let ends : ((num + 1 + m) * b + r ≤ u.num_direct * b) ⊎ ((u.num_direct ≤ num) ⊎ (r ≡ 0)) =
            elim regular [
              | inl short ↦ inl (omega (arith, short, end))
              | inr (inl far) ↦ inr (inl far)
              | inr (inr whole) ↦ inr (inr (sym newoff ∙ whole))
            ] in
          rw (over, int_m, low, newoff)
            (Copied-cast u base node nums bs _ refl (take-append-drop remain buf) (
              Copied-then u base node nums bs off (take remain buf) (drop remain buf) _ _
                (Copied-cast u base node nums bs _ here refl (
                  copy_either-Copied u base node blocks nums bs num offset remain buf file
                    (omega (arith, lo, hi, off_lem)) (omega (arith, size, more))
                    (omega (arith, lo, hi, off_lem)) (omega (arith, here, inside, more))))
                (omega (arith, taken, inside, more))
                (λ changed bs' file' same. Copied-cast u base node nums bs' _ start refl (
                  rest-Copied u base node changed nums bs' num m r (drop remain buf) file' pos small
                    size_left (omega (arith, end, inside, same)) ends))))
    ]
