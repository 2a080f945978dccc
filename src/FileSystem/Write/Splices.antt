-- ===== src/FileSystem/Write/Splices.antt =====
-- Bytes written over others, in a list and in the blocks of a file, for finding_filesystems/minixfs.c.
use system_programming.Base.{
  take-append-drop, length-drop, some_inj, length-take, ℕ, zero, suc, ◌+◌, ◌*◌, ◌≤◌, ◌≡◌, refl, ap,
  sym, ◌∙◌, List, [], ◌∷◌, ◌++◌, some, length, take, drop, set, get_elem?, arith, append_assoc,
  take-append, drop-append, length-append,
}
use system_programming.FileSystem.Slices.{slice, flat, Whole, slice-left, drop-add}
use system_programming.FileSystem.Write.{splice}

drop-left : (n : ℕ) (xs ys : List ℕ) → n ≤ length xs → drop n (xs ++ ys) ≡ drop n xs ++ ys
drop-left zero xs ys h = refl
drop-left (suc n) [] ys h = absurd (omega arith)
drop-left (suc n) (x ∷ xs) ys h = drop-left n xs ys (omega arith)

pub drop-right : (n : ℕ) (xs ys : List ℕ) → drop (length xs + n) (xs ++ ys) ≡ drop n ys
drop-right n xs ys = sym (drop-add (length xs) n (xs ++ ys)) ∙ ap (drop n) (drop-append xs ys)

take-right : (n : ℕ) (xs ys : List ℕ) → take (length xs + n) (xs ++ ys) ≡ xs ++ take n ys
take-right n [] ys = let e : length {A = ℕ} [] + n ≡ n = omega arith in ap (λ k. take k ys) e
take-right n (x ∷ xs) ys =
    let e : length (x ∷ xs) + n ≡ suc (length xs + n) = omega arith in
    ap (λ k. take k (x ∷ (xs ++ ys))) e ∙ ap (◌∷◌ x) (take-right n xs ys)

-- In the first of two lists, and in the second.
pub splice-left :
    (start : ℕ) (bytes xs ys : List ℕ)
    → start + length bytes ≤ length xs
    → splice start bytes xs ++ ys ≡ splice start bytes (xs ++ ys)
splice-left start bytes xs ys h =
    let front = slice-left 0 start xs ys (omega (arith, h)) in
    let back = drop-left (start + length bytes) xs ys h in
    rw (front, back)
      (append_assoc (take start xs) (bytes ++ drop (start + length bytes) xs) ys
        ∙ ap (◌++◌ (take start xs)) (append_assoc bytes (drop (start + length bytes) xs) ys))

pub splice-right :
    (start : ℕ) (bytes xs ys : List ℕ)
    → xs ++ splice start bytes ys ≡ splice (length xs + start) bytes (xs ++ ys)
splice-right start bytes xs ys =
    let e : length xs + start + length bytes ≡ length xs + (start + length bytes) = omega arith in
    rw (take-right start xs ys, e, drop-right (start + length bytes) xs ys)
      (sym (append_assoc xs (take start ys) (bytes ++ drop (start + length bytes) ys)))

-- One behind the other.
pub splice-splice :
    (start : ℕ) (a b xs : List ℕ)
    → start + length a ≤ length xs
    → splice (start + length a) b (splice start a xs) ≡ splice start (a ++ b) xs
splice-splice start a b xs h =
    let front = take start xs ++ a in
    let rest = drop (start + length a) xs in
    let shape : splice start a xs ≡ front ++ rest = sym (append_assoc (take start xs) a rest) in
    let size : start + length a ≡ length front =
      omega (arith, length-append (take start xs) a, length-take start xs (omega (arith, h))) in
    let both = length-append a b in
    let end : start + length a + length b ≡ start + length (a ++ b) = omega (arith, both) in
    ap (splice (start + length a) b) shape
    ∙ ap (λ k. take k (front ++ rest) ++ (b ++ drop (k + length b) (front ++ rest))) size
    ∙ ap (λ f. f ++ (b ++ drop (length front + length b) (front ++ rest))) (take-append front rest)
    ∙ ap (λ d. front ++ (b ++ d))
        (drop-right (length b) front rest
          ∙ drop-add (start + length a) (length b) xs
          ∙ ap (λ k. drop k xs) end)
    ∙ append_assoc (take start xs) a (b ++ drop (start + length (a ++ b)) xs)
    ∙ ap (◌++◌ (take start xs)) (sym (append_assoc a b (drop (start + length (a ++ b)) xs)))

pub length-splice :
    (start : ℕ) (bytes xs : List ℕ)
    → start + length bytes ≤ length xs
    → length (splice start bytes xs) ≡ length xs
length-splice start bytes xs h = omega (
  arith,
  length-append (take start xs) (bytes ++ drop (start + length bytes) xs),
  length-append bytes (drop (start + length bytes) xs),
  length-take start xs (omega (arith, h)),
  length-drop (start + length bytes) xs,
)

-- In one block of many.
pub flat-set :
    (size j start : ℕ) (bytes block : List ℕ) (bs : List (List ℕ))
    → Whole size bs
    → get_elem? bs j ≡ some block
    → start + length bytes ≤ size
    → flat (set bs j (splice start bytes block)) ≡ splice (j * size + start) bytes (flat bs)
flat-set size j start bytes block [] whole there fits = absurd cc
flat-set size zero start bytes block (b ∷ bs) whole there fits =
    let same = some_inj there in
    let at : start ≡ zero * size + start = grind arith in
    ap (λ x. splice start bytes x ++ flat bs) (sym same)
    ∙ splice-left start bytes b (flat bs) (omega (arith, fits, whole.0))
    ∙ ap (λ k. splice k bytes (b ++ flat bs)) at
flat-set size (suc j) start bytes block (b ∷ bs) whole there fits =
    let row : suc j * size + start ≡ size + (j * size + start) = grind arith in
    let at : length b + (j * size + start) ≡ suc j * size + start = omega (arith, row, whole.0) in
    ap (◌++◌ b) (flat-set size j start bytes block bs whole.1 there fits)
    ∙ splice-right (j * size + start) bytes b (flat bs)
    ∙ ap (λ k. splice k bytes (b ++ flat bs)) at

pub splice-nil : (start : ℕ) (xs : List ℕ) → splice start [] xs ≡ xs
splice-nil start xs =
    let e : start + length {A = ℕ} [] ≡ start = omega arith in
    ap (λ k. take start xs ++ drop k xs) e ∙ take-append-drop start xs

-- What was written is what stands there.
pub slice-splice :
    (start n : ℕ) (bytes xs : List ℕ)
    → start ≤ length xs
    → length bytes ≡ n
    → slice start n (splice start bytes xs) ≡ bytes
slice-splice start n bytes xs h e =
    let rest = bytes ++ drop (start + length bytes) xs in
    ap (λ k. take n (drop k (take start xs ++ rest))) (sym (length-take start xs h))
    ∙ ap (take n) (drop-append (take start xs) rest)
    ∙ ap (λ k. take k rest) (sym e)
    ∙ take-append bytes (drop (start + length bytes) xs)
