-- ===== src/MapReduce/Splitter.antt =====
-- mapreduce/splitter.c: a file is cut at line ends into `count` portions. Pointers into the mapped
-- file are offsets, and products are of type size_t.
use native.Mathlib.Nat.{le-div_iff_mul-le, div-mul-le_self, div-le_of_le-mul}
use system_programming.Base.{
  ℕ, zero, suc, ◌+◌, ◌-◌, ◌*◌, ◌/◌, ◌%◌, ◌^◌, ◌<◌, ◌≤◌, ◌≡◌, refl, ap, ◌∙◌, inl, inr, Bool-cases,
  ltb, ltb→ge, ◌==◌, if◌then◌else◌, List, [], ◌∷◌, ◌++◌, length, take, drop, length-drop, arith,
}

abbrev pub size_mod : ℕ
size_mod = 2 ^ 64

unfoldable pub start_offset : ℕ → ℕ → ℕ → ℕ
start_offset size count idx = size * idx % size_mod / count

unfoldable pub end_offset : ℕ → ℕ → ℕ → ℕ
end_offset size count idx =
    let stop = size * (idx + 1) % size_mod / count in if ltb size stop then size else stop

-- Bytes up to and with the next newline.
unfoldable pub line_end : List ℕ → ℕ
line_end [] = 0
line_end (c ∷ cs) = let rest = line_end cs in if c == b'\n' then 1 else suc rest

-- nextLine(data + p, data + length).
unfoldable pub next_line : List ℕ → ℕ → ℕ
next_line file p = if ltb p (length file) then p + line_end (drop p file) else length file

unfoldable pub start_at : List ℕ → ℕ → ℕ → ℕ
start_at file count index =
    if index == 0 then 0 else next_line file (start_offset (length file) count index)

unfoldable pub end_at : List ℕ → ℕ → ℕ → ℕ
end_at file count index =
    if index + 1 == count
    then length file
    else next_line file (end_offset (length file) count index)

-- The bytes that write_portion writes.
unfoldable pub write_portion : List ℕ → ℕ → ℕ → List ℕ
write_portion file count index =
    let start = start_at file count index in
    let stop = end_at file count index in
    if ltb start stop then take (stop - start) (drop start file) else []

-- The outputs of the first `k` portions, one after the other.
unfoldable pub portions : List ℕ → ℕ → ℕ → List ℕ
portions file count zero = []
portions file count (suc k) = portions file count k ++ write_portion file count k

line_end_mono :
    (file : List ℕ) (p q : ℕ)
    → p ≤ q
    → q ≤ length file
    → p + line_end (drop p file) ≤ q + line_end (drop q file)
unfolding line_end
line_end_mono file zero zero h k = omega arith
line_end_mono [] zero (suc q) h k = absurd (omega arith)
line_end_mono (c ∷ cs) zero (suc q) h k = ground (arith, line_end_mono cs 0 q)
line_end_mono file (suc p) zero h k = absurd (omega arith)
line_end_mono [] (suc p) (suc q) h k = absurd (omega arith)
line_end_mono (c ∷ cs) (suc p) (suc q) h k =
    omega (arith, line_end_mono cs p q (omega arith) (omega arith))

line_end-le : (file : List ℕ) → line_end file ≤ length file
unfolding line_end
line_end-le [] = omega arith
line_end-le (c ∷ cs) = ground (arith, line_end-le cs)

div_mono : (a b n : ℕ) → a ≤ b → 0 < n → a / n ≤ b / n
div_mono a b n h pos = (le-div_iff_mul-le pos).1 (omega (arith, div-mul-le_self a n))

div_top : (a k n : ℕ) → k ≤ n → a * k / n ≤ a
div_top a k n h = div-le_of_le-mul n (grind arith)

take-nil : (n : ℕ) → take {A = ℕ} n [] ≡ []
take-nil zero = refl
take-nil (suc n) = refl

take-slice : (m n : ℕ) (xs : List ℕ) → m ≤ n → take m xs ++ take (n - m) (drop m xs) ≡ take n xs
take-slice zero n xs h = let e : n - zero ≡ n = omega arith in rw e
take-slice (suc m) zero xs h = absurd (omega arith)
take-slice (suc m) (suc n) [] h = take-nil (suc n - suc m)
take-slice (suc m) (suc n) (x ∷ xs) h =
    let e : suc n - suc m ≡ n - m = omega arith in
    rw e (ap (◌∷◌ x) (take-slice m n xs (omega arith)))

take-full : (xs : List ℕ) → take (length xs) xs ≡ xs
take-full [] = refl
take-full (x ∷ xs) = ap (◌∷◌ x) (take-full xs)

line_end_inside :
    (file : List ℕ) (p : ℕ) → p ≤ length file → p + line_end (drop p file) ≤ length file
line_end_inside file p h = omega (arith, line_end-le (drop p file), length-drop p file)

next_line_mono :
    (file : List ℕ) (p q : ℕ) → p ≤ q → q ≤ length file → next_line file p ≤ next_line file q
unfolding next_line
next_line_mono file p q h k = ground (arith, line_end_mono file p q h k, line_end_inside file p)

next_line-le : (file : List ℕ) (p : ℕ) → next_line file p ≤ length file
unfolding next_line
next_line-le file p = ground (arith, line_end_inside file p)

module _ (file : List ℕ) (count : ℕ) (some_portion : 0 < count)
    (small : length file * count < size_mod) where
  -- Where portion `k` starts, and the one before it ends.
  cut : ℕ → ℕ
  cut k =
      if k == 0
      then 0
      else if k == count
      then length file
      else next_line file (length file * k / count)

  offset_whole : (k : ℕ) → k ≤ count → length file * k % size_mod ≡ length file * k
  offset_whole k h = let below : length file * k ≤ length file * count = grind arith in omega arith

  start_at-cut : (k : ℕ) → k < count → start_at file count k ≡ cut k
  unfolding start_at cut start_offset
  start_at-cut k h = ground (arith, offset_whole k)

  end_at-cut : (k : ℕ) → k < count → end_at file count k ≡ cut (k + 1)
  unfolding end_at cut end_offset
  end_at-cut k h = ground (arith, offset_whole (k + 1), div_top (length file) (k + 1) count)

  cut_mono : (k : ℕ) → k < count → cut k ≤ cut (k + 1)
  unfolding cut
  cut_mono k h = ground (
    arith,
    next_line_mono file (length file * k / count) (length file * (k + 1) / count),
    div_mono (length file * k) (length file * (k + 1)) count,
    div_top (length file) (k + 1) count,
    next_line-le file (length file * k / count),
  )

  write_portion-cut :
      (k : ℕ)
      → k < count
      → write_portion file count k ≡ take (cut (k + 1) - cut k) (drop (cut k) file)
  unfolding write_portion
  write_portion-cut k h =
      rw (start_at-cut k h, end_at-cut k h)
        (elim (Bool-cases (ltb (cut k) (cut (k + 1)))) [
          | inl more ↦ rw more
          | inr same ↦
              let nothing : cut (k + 1) - cut k ≡ 0 = omega (arith, ltb→ge _ _ same) in
              rw (same, nothing)
        ])

  portions-take : (k : ℕ) → k ≤ count → portions file count k ≡ take (cut k) file
  unfolding portions
  portions-take zero h = unfold cut in refl
  portions-take (suc k) h =
      let next : k + 1 ≡ suc k = omega arith in
      rw (portions-take k (omega arith), write_portion-cut k h)
        (take-slice (cut k) (cut (k + 1)) file (cut_mono k h) ∙ ap (λ i. take (cut i) file) next)

  -- For at least one portion, and a file whose length times the number of portions is below 2^64,
  -- the outputs of write_portion for the portions 0 to count - 1, one after the other, are the
  -- file.
  pub portions-whole : portions file count count ≡ file
  portions-whole =
      let end : cut count ≡ length file = unfold cut in ground arith in
      portions-take count (omega arith) ∙ ap (λ i. take i file) end ∙ take-full file
