-- ===== src/Vector/Removal.antt =====
-- vector_pop_back, vector_erase, vector_clear, vector_destroy and the shrinking branch of
-- vector_resize of vector/vector.c, on the list of elements and the log of destroyed ones.
use system_programming.Base.{
  ℕ, zero, suc, ◌+◌, ◌-◌, ◌%◌, ◌^◌, ◌<◌, ◌≤◌, ◌≡◌, refl, sym, ◌∙◌, List, [], ◌∷◌, ◌++◌, none, some,
  true, ltb, lt→ltb, length, length-append, length-map, get_elem?, arith,
}
use mathlib.Core.List.{reverse_aux}
use system_programming.Vector.Cells.{Cells, load, destroy_up}
use system_programming.Vector.Capacity.{size_mod}
use system_programming.Vector.Defs.{Vector, pop_back, erase, clear, destroy, shrink, resize, to_int}
use system_programming.Vector.Blocks.{
  cells, load-middle, shift_down-all, destroy_up-all, destroy_down-all,
}
use system_programming.Vector.Contents.{IsBlock, IsVector}
use system_programming.Vector.Growth.{
  rewritten, length-snoc, length-middle, length-shifted, cells-append,
}

module _ {ℓ} {A : Type ℓ} where
  -- A vector of fewer elements in the same block: what followed them is spare.
  fewer :
      (v : Vector A) (xs ys : List A) (n : ℕ) (log : List A)
      → IsBlock v (xs ++ ys)
      → n ≡ length xs
      → IsVector (record v { size = n; destroyed = log }) xs
  fewer v xs ys n log b h = record {
    block = record {
      spare = cells ys ++ b.spare;
      filled = b.filled ∙ cells-append xs ys b.spare;
      counted = b.counted;
      bounded = b.bounded;
    };
    size = h;
  }

  -- vector_pop_back destroys the last element and drops it.
  pub pop_back-IsVector :
      (v : Vector A) (xs : List A) (a : A)
      → IsVector v (xs ++ a ∷ [])
      → length xs < 2 ^ 60
      → (w : Vector A) × (pop_back v ≡ some w) × IsVector w xs × (w.destroyed ≡ a ∷ v.destroyed)
  unfolding pop_back
  pop_back-IsVector v xs a is small =
      let n = (v.size + size_mod - 1) % size_mod in
      let last : n ≡ length xs = omega (arith, is.size, length-snoc xs a) in
      let read = load-middle (cells xs) is.block.spare a n (last ∙ sym (length-map some xs)) in
      let split = is.block.filled ∙ cells-append xs (a ∷ []) is.block.spare in
      (
        record v { size = n; destroyed = a ∷ v.destroyed },
        rw (split, read),
        fewer v xs (a ∷ []) n (a ∷ v.destroyed) is.block last,
        refl,
      )

  get_elem?-past : (m : Cells A) (i : ℕ) → length m ≤ i → get_elem? m i ≡ none
  get_elem?-past [] i h = refl
  get_elem?-past (c ∷ m) zero h = absurd (omega arith)
  get_elem?-past (c ∷ m) (suc i) h = get_elem?-past m i (omega arith)

  -- On an empty vector, vector_pop_back calls the destructor on a handle outside the block, a
  -- fault, since the size wraps around.
  pop_back-empty : (v : Vector A) → IsVector v [] → pop_back v ≡ none
  unfolding pop_back load
  pop_back-empty v is =
      let n = (v.size + size_mod - 1) % size_mod in
      let far : n ≡ size_mod - 1 = omega (arith, is.size) in
      rw (get_elem?-past v.array n (omega (arith, is.block.counted, is.block.bounded)))

  -- vector_erase destroys the element at the position and closes the gap.
  pub erase-IsVector :
      (v : Vector A) (xs ys : List A) (a : A)
      → IsVector v (xs ++ a ∷ ys)
      → (w : Vector A) × (erase v (length xs) ≡ some w)
        × IsVector w (xs ++ ys)
        × (w.destroyed ≡ a ∷ v.destroyed)
  unfolding erase
  erase-IsVector v xs ys a is =
      let spare = is.block.spare in
      let n = length-middle xs ys a in
      let total = length-append xs ys in
      let inside : ltb (length xs) v.size ≡ true = lt→ltb _ _ (omega (arith, is.size, n, total)) in
      let rounds : v.size - 1 - length xs ≡ length ys = omega (arith, is.size, n, total) in
      let split = is.block.filled ∙ cells-append xs (a ∷ ys) spare in
      let at = sym (length-map some xs) in
      let read = load-middle (cells xs) (cells ys ++ spare) a (length xs) at in
      let (d, shifted) = shift_down-all ys (cells xs) (some a) spare (length xs) at in
      let m = cells xs ++ (cells ys ++ d ∷ spare) in
      (
        record v { array = m; size = v.size - 1; destroyed = a ∷ v.destroyed },
        rw (inside, rounds, split, read, shifted),
        rewritten v (xs ++ ys) (cells xs ++ some a ∷ (cells ys ++ spare)) m (d ∷ spare) split
            is.block.counted is.block.bounded
            (sym (length-shifted (cells xs) (cells ys) spare (some a) d))
            (sym (cells-append xs ys (d ∷ spare))) (v.size - 1) (omega (arith, is.size, n))
            (a ∷ v.destroyed),
        refl,
      )

  destroys_all :
      (v : Vector A) (xs : List A)
      → IsVector v xs
      → destroy_up 0 v.size v.array v.destroyed ≡ some (reverse_aux xs v.destroyed)
  destroys_all v xs is =
      rw (is.size, is.block.filled) (destroy_up-all xs [] is.block.spare v.destroyed 0 refl)

  -- vector_clear destroys every element once, first to last, and keeps the block.
  pub clear-IsVector :
      (v : Vector A) (xs : List A)
      → IsVector v xs
      → (w : Vector A) × (clear v ≡ some w)
        × IsVector w []
        × (w.destroyed ≡ reverse_aux xs v.destroyed)
        × (w.capacity ≡ v.capacity)
  unfolding clear
  clear-IsVector v xs is =
      let log = reverse_aux xs v.destroyed in
      (
        record v { size = 0; destroyed = log },
        rw (destroys_all v xs is),
        fewer v [] xs 0 log is.block refl,
        refl,
        refl,
      )

  -- On a vector with the given elements vector_destroy runs without a fault and calls the
  -- destructor on every element once, first to last.
  destroy-all :
      (v : Vector A) (xs : List A) → IsVector v xs → destroy v ≡ some (reverse_aux xs v.destroyed)
  unfolding destroy
  destroy-all v xs is = destroys_all v xs is

  -- On a vector with fewer than 2^31 elements, a vector_resize to a smaller size succeeds, keeps
  -- the first elements, and destroys the others, the last one first.
  resize-shrink-IsVector :
      (v : Vector A) (xs ys : List A) (fresh : A)
      → IsVector v (xs ++ ys)
      → 0 < length ys
      → length (xs ++ ys) < 2 ^ 31
      → (w : Vector A) × (resize fresh v (length xs) ≡ some w)
        × IsVector w xs
        × (w.destroyed ≡ ys ++ v.destroyed)
  unfolding resize shrink to_int
  resize-shrink-IsVector v xs ys fresh is some_less small =
      let total = length-append xs ys in
      let log = ys ++ v.destroyed in
      let less : ltb (length xs) v.size ≡ true = lt→ltb _ _ (omega (arith, is.size, total)) in
      let top : ltb v.size (2 ^ 31) ≡ true = lt→ltb _ _ (omega (arith, is.size)) in
      let bottom : ltb (length xs) (2 ^ 31) ≡ true = lt→ltb _ _ (omega (arith, total)) in
      let rounds : v.size - length xs ≡ length ys = omega (arith, is.size, total) in
      let split = is.block.filled ∙ cells-append xs ys is.block.spare in
      let ran =
        destroy_down-all (length ys) ys (cells xs) is.block.spare v.destroyed (length xs) refl
          (sym (length-map some xs)) in
      (
        record v { size = length xs; destroyed = log },
        rw (less, top, bottom, rounds, split, ran),
        fewer v xs ys (length xs) log is.block refl,
        refl,
      )
