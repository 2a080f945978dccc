-- ===== src/FileSystem/Slices.antt =====
-- Bytes of a file as slices of its blocks one after the other, for finding_filesystems/minixfs.c.
use system_programming.Base.{
  drop-all, length-drop, ℕ, zero, suc, ◌+◌, ◌-◌, ◌*◌, ◌/◌, ◌<◌, ◌≤◌, ◌≡◌, refl, ap, sym, ◌∙◌, List,
  [], ◌∷◌, ◌++◌, take, drop, length, arith, length-append,
}

abbrev pub flat : List (List ℕ) → List ℕ
flat [] = []
flat (b ∷ bs) = b ++ flat bs

abbrev pub slice : ℕ → ℕ → List ℕ → List ℕ
slice start n xs = take n (drop start xs)

-- All blocks have the size.
abbrev pub Whole : ℕ → List (List ℕ) → Type 0
Whole size [] = Unit {0}
Whole size (b ∷ bs) = (length b ≡ size) × Whole size bs

pub slice-nil : (s n : ℕ) → slice s n [] ≡ []
slice-nil zero zero = refl
slice-nil zero (suc n) = refl
slice-nil (suc s) zero = refl
slice-nil (suc s) (suc n) = refl

take-nil : (n : ℕ) → take {A = ℕ} n [] ≡ []
take-nil zero = refl
take-nil (suc n) = refl

drop-nil : (n : ℕ) → drop {A = ℕ} n [] ≡ []
drop-nil zero = refl
drop-nil (suc n) = refl

pub take-add : (a b : ℕ) (xs : List ℕ) → take (a + b) xs ≡ take a xs ++ take b (drop a xs)
take-add zero b xs = ap (λ n. take n xs) (omega arith)
take-add (suc a) b [] = take-nil (suc a + b) ∙ sym (take-nil b)
take-add (suc a) b (x ∷ xs) =
    let more : suc a + b ≡ suc (a + b) = omega arith in
    ap (λ n. take n (x ∷ xs)) more ∙ ap (◌∷◌ x) (take-add a b xs)

pub drop-add : (a b : ℕ) (xs : List ℕ) → drop b (drop a xs) ≡ drop (a + b) xs
drop-add zero b xs = ap (λ n. drop n xs) (omega arith)
drop-add (suc a) b [] = drop-nil b ∙ sym (drop-nil (suc a + b))
drop-add (suc a) b (x ∷ xs) =
    let more : suc (a + b) ≡ suc a + b = omega arith in
    drop-add a b xs ∙ ap (λ n. drop n (x ∷ xs)) more

pub slice-add : (s a b : ℕ) (xs : List ℕ) → slice s (a + b) xs ≡ slice s a xs ++ slice (s + a) b xs
slice-add s a b xs =
    take-add a b (drop s xs) ∙ ap (λ ys. slice s a xs ++ take b ys) (drop-add s a xs)

pub slice-left :
    (s n : ℕ) (xs ys : List ℕ) → s + n ≤ length xs → slice s n (xs ++ ys) ≡ slice s n xs
slice-left zero zero xs ys h = refl
slice-left zero (suc n) [] ys h = absurd (omega arith)
slice-left zero (suc n) (x ∷ xs) ys h = ap (◌∷◌ x) (slice-left zero n xs ys (omega arith))
slice-left (suc s) n [] ys h = absurd (omega arith)
slice-left (suc s) n (x ∷ xs) ys h = slice-left s n xs ys (omega arith)

pub slice-right : (s n : ℕ) (xs ys : List ℕ) → slice (length xs + s) n (xs ++ ys) ≡ slice s n ys
slice-right s n [] ys = ap (λ k. slice k n ys) (omega arith)
slice-right s n (x ∷ xs) ys =
    let moved : suc (length xs) + s ≡ suc (length xs + s) = omega arith in
    ap (λ k. slice k n (x ∷ (xs ++ ys))) moved ∙ slice-right s n xs ys

pub length-slice : (s n : ℕ) (xs : List ℕ) → s + n ≤ length xs → length (slice s n xs) ≡ n
length-slice zero zero xs h = refl
length-slice zero (suc n) [] h = absurd (omega arith)
length-slice zero (suc n) (x ∷ xs) h = ap suc (length-slice zero n xs (omega arith))
length-slice (suc s) n [] h = absurd (omega arith)
length-slice (suc s) n (x ∷ xs) h = length-slice s n xs (omega arith)

-- Cut at `m`, and past the end.
pub slice-take : (s n m : ℕ) (xs : List ℕ) → s + n ≤ m → slice s n (take m xs) ≡ slice s n xs
slice-take zero zero m xs h = refl
slice-take zero (suc n) zero xs h = absurd (omega arith)
slice-take zero (suc n) (suc m) [] h = refl
slice-take zero (suc n) (suc m) (x ∷ xs) h = ap (◌∷◌ x) (slice-take zero n m xs (omega arith))
slice-take (suc s) n zero xs h = absurd (omega arith)
slice-take (suc s) n (suc m) [] h = refl
slice-take (suc s) n (suc m) (x ∷ xs) h = slice-take s n m xs (omega arith)

-- Behind the end there is nothing to take.
take-over : (n : ℕ) (xs : List ℕ) → length xs ≤ n → take n xs ≡ take (length xs) xs
take-over n [] h = take-nil n
take-over zero (x ∷ xs) h = absurd (omega arith)
take-over (suc n) (x ∷ xs) h = ap (◌∷◌ x) (take-over n xs (omega arith))

pub slice-over :
    (s n : ℕ) (xs : List ℕ) → length xs ≤ s + n → slice s n xs ≡ slice s (length xs - s) xs
slice-over s n xs h =
    let left = length-drop s xs in
    take-over n (drop s xs) (omega (arith, left)) ∙ ap (λ k. take k (drop s xs)) left

pub slice_behind : (s n : ℕ) (xs : List ℕ) → length xs ≤ s → slice s n xs ≡ []
slice_behind s n xs h = ap (take n) (drop-all s xs h) ∙ take-nil n

pub length-flat :
    (size : ℕ) (bs : List (List ℕ)) → Whole size bs → length (flat bs) ≡ length bs * size
length-flat size [] w = grind arith
length-flat size (b ∷ bs) w =
    let here = length-append b (flat bs) in
    let rest = length-flat size bs w.1 in
    let one : suc (length bs) * size ≡ size + length bs * size = grind arith in
    omega (arith, here, rest, one, w.0)

pub div_le : (n b : ℕ) → 0 < b → n / b * b ≤ n
div_le n b pos = grind arith

pub div_lt : (n b : ℕ) → 0 < b → n < n / b * b + b
div_lt n b pos = grind arith

pub row_le : (i n b : ℕ) → i < n → i * b + b ≤ n * b
row_le i n b h = grind arith

pub row_mono : (i n b : ℕ) → i ≤ n → i * b ≤ n * b
row_mono i n b h = grind arith

-- A place before the end of `n` rows is in one of them.
pub row_lt : (i n b : ℕ) → i * b < n * b → i < n
row_lt i n b h = grind arith

pub row_cancel : (i n b : ℕ) → 0 < b → i * b ≤ n * b → i ≤ n
row_cancel i n b pos h = grind arith

pub rows_add : (a b c size : ℕ) → a + b ≡ c → a * size + b * size ≡ c * size
rows_add a b c size e = grind arith
