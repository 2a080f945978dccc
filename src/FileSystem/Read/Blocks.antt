-- ===== src/FileSystem/Read/Blocks.antt =====
-- The loops of minixfs_read (finding_filesystems/minixfs.c) as slices of the blocks in a table.
use system_programming.Base.{
  append-nil, ltb→ge, inr, ltb→lt, inl, Bool-cases, ltb, ℕ, zero, suc, ◌+◌, ◌*◌, ◌<◌, ◌≤◌, ◌≡◌,
  refl, ap, sym, ◌∙◌, List, [], ◌∷◌, ◌++◌, some, length, arith, length-append, get_elem?, ◌==◌,
  if◌then◌else◌, false,
}
use system_programming.FileSystem.Disk.{then_copy, DataBlock, copy_from, copy_blocks}
use system_programming.FileSystem.Slices.{
  row_cancel, row_mono, length-flat, flat, slice, Whole, slice-add, slice-left, slice-right,
}

-- The numbers in the table are those of the blocks, for as many as there are.
abbrev pub Leads : List DataBlock → List ℕ → List (List ℕ) → Type 0
Leads blocks table [] = Unit {0}
Leads blocks [] (b ∷ bs) = ⊥
Leads blocks (d ∷ table) (b ∷ bs) = (get_elem? blocks d ≡ some b) × Leads blocks table bs

-- An element in the table.
elem-some : (table : List ℕ) (i : ℕ) → i < length table → (d : ℕ) × (get_elem? table i ≡ some d)
elem-some [] i h = absurd (omega arith)
elem-some (d ∷ table) zero h = (d, refl)
elem-some (d ∷ table) (suc i) h = elem-some table i (omega arith)

-- The copy of no bytes.
copy_from-none :
    (blocks : List DataBlock) (table : List ℕ) (i start : ℕ)
    → i < length table
    → copy_from blocks table i start 0 ≡ some []
unfolding copy_from
copy_from-none blocks table i start h = let (d, e) = elem-some table i h in rw e refl

copy_from-some :
    (blocks : List DataBlock) (table : List ℕ) (bs : List (List ℕ)) (size i start n : ℕ)
    → Leads blocks table bs
    → Whole size bs
    → start + suc n ≤ size
    → i * size + start + suc n ≤ length (flat bs)
    → copy_from blocks table i start (suc n) ≡ some (slice (i * size + start) (suc n) (flat bs))
unfolding copy_from
copy_from-some blocks table [] size i start n leads whole fits inside = absurd (omega arith)
copy_from-some blocks [] (b ∷ bs) size i start n leads whole fits inside = absurd leads
copy_from-some blocks (d ∷ table) (b ∷ bs) size zero start n leads whole fits inside =
    let at : zero * size + start ≡ start = grind arith in
    let bytes : (suc n == 0) ≡ false = ground arith in
    rw (leads.0, at, bytes)
      (ap some (sym (slice-left start (suc n) b (flat bs) (omega (arith, fits, whole.0)))))
copy_from-some blocks (d ∷ table) (b ∷ bs) size (suc i) start n leads whole fits inside =
    let at : suc i * size + start ≡ size + (i * size + start) = grind arith in
    let total = length-append b (flat bs) in
    copy_from-some blocks table bs size i start n leads.1 whole.1 fits
      (omega (arith, inside, at, total, whole.0))
    ∙ ap some (
        sym (slice-right (i * size + start) (suc n) b (flat bs))
        ∙ ap (λ k. slice k (suc n) (b ++ flat bs)) (omega (arith, at, whole.0)))

pub copy_from-slice :
    (blocks : List DataBlock) (table : List ℕ) (bs : List (List ℕ)) (size i start n : ℕ)
    → Leads blocks table bs
    → Whole size bs
    → i < length table
    → start + n ≤ size
    → i * size + start + n ≤ length (flat bs)
    → copy_from blocks table i start n ≡ some (slice (i * size + start) n (flat bs))
copy_from-slice blocks table bs size i start zero leads whole there fits inside =
    copy_from-none blocks table i start there
copy_from-slice blocks table bs size i start (suc n) leads whole there fits inside =
    copy_from-some blocks table bs size i start n leads whole fits inside

pub copy_blocks-slice :
    (blocks : List DataBlock) (table : List ℕ) (bs : List (List ℕ)) (size i k : ℕ)
    → Leads blocks table bs
    → Whole size bs
    → i + k ≤ length table
    → (i + k) * size ≤ length (flat bs)
    → copy_blocks size blocks table i k ≡ some (slice (i * size) (k * size) (flat bs))
unfolding copy_blocks
copy_blocks-slice blocks table bs size i zero leads whole there inside =
    let none_left : zero * size ≡ 0 = grind arith in rw none_left refl
copy_blocks-slice blocks table bs size i (suc k) leads whole there inside =
    let whole_rows : (i + suc k) * size ≡ i * size + (size + k * size) = grind arith in
    let next : suc i * size ≡ i * size + size = grind arith in
    let rest_rows : (suc i + k) * size ≡ i * size + (size + k * size) = grind arith in
    let more : suc k * size ≡ size + k * size = grind arith in
    let at : i * size + 0 ≡ i * size = omega arith in
    let first =
      copy_from-slice blocks table bs size i 0 size leads whole (omega arith) (omega arith)
        (omega (arith, inside, whole_rows)) in
    let rest =
      copy_blocks-slice blocks table bs size (suc i) k leads whole (omega arith)
        (omega (arith, inside, whole_rows, rest_rows)) in
    rw (first, rest, at, next, more)
      (ap some (sym (slice-add (i * size) size (k * size) (flat bs))))

pub Leads-length :
    (blocks : List DataBlock) (table : List ℕ) (bs : List DataBlock)
    → Leads blocks table bs
    → length bs ≤ length table
Leads-length blocks table [] h = omega arith
Leads-length blocks [] (b ∷ bs) h = absurd h
Leads-length blocks (d ∷ table) (b ∷ bs) h = omega (arith, Leads-length blocks table bs h.1)

-- Whole blocks and the front of the next.
pub blocks_then_front :
    (blocks : List DataBlock) (table : List ℕ) (bs : List (List ℕ)) (size i m r : ℕ)
    → Leads blocks table bs
    → Whole size bs
    → i + m < length table
    → r ≤ size
    → (i + m) * size + r ≤ length (flat bs)
    → then_copy (copy_blocks size blocks table i m) (copy_from blocks table (i + m) 0 r)
      ≡ some (slice (i * size) (m * size + r) (flat bs))
blocks_then_front blocks table bs size i m r leads whole there fits inside =
    let at : (i + m) * size + 0 ≡ i * size + m * size = grind arith in
    rw
      (
        copy_blocks-slice blocks table bs size i m leads whole (omega arith) (omega arith),
        copy_from-slice blocks table bs size (i + m) 0 r leads whole there (omega arith)
            (omega arith),
        at,
      )
      (ap some (sym (slice-add (i * size) (m * size) r (flat bs))))

-- The same with the test that the code makes: behind the last block there is no front to copy.
pub tested_front :
    (blocks : List DataBlock) (table : List ℕ) (bs : List (List ℕ)) (size bound i m r j : ℕ)
    → Leads blocks table bs
    → Whole size bs
    → 0 < size
    → length table ≡ bound
    → j ≡ i + m
    → r < size
    → (i + m) * size + r ≤ length (flat bs)
    → then_copy
        (copy_blocks size blocks table i m)
        (if ltb j bound then copy_from blocks table j 0 r else some [])
      ≡ some (slice (i * size) (m * size + r) (flat bs))
tested_front blocks table bs size bound i m r j leads whole pos numbers at small inside =
    elim (Bool-cases (ltb j bound)) [
      | inl near ↦
          let below = ltb→lt j bound near in
          rw (near, at)
            (blocks_then_front blocks table bs size i m r leads whole (omega arith) (omega arith)
              inside)
      | inr far ↦
          let above = ltb→ge j bound far in
          let total = length-flat size bs whole in
          let few = Leads-length blocks table bs leads in
          let rows = row_mono (length bs) (i + m) size (omega (arith, above, few, numbers, at)) in
          let nothing : r ≡ 0 = omega (arith, total, rows, inside) in
          let exact : m * size + r ≡ m * size = omega (arith, nothing) in
          let count = row_cancel (i + m) (length bs) size pos (omega (arith, total, inside)) in
          rw
            (
              far,
              exact,
              copy_blocks-slice blocks table bs size i m leads whole (omega (arith, count, few))
                  (omega arith),
            )
            (ap some (append-nil (slice (i * size) (m * size) (flat bs))))
    ]
