-- ===== src/Vector/Growth.antt =====
-- vector_push_back, vector_insert, vector_set, vector_get and the growing branch of vector_resize
-- of vector/vector.c, on the list of elements.
use system_programming.Base.{
  ℕ, suc, ◌+◌, ◌-◌, ◌*◌, ◌%◌, ◌^◌, ◌<◌, ◌≤◌, ◌≡◌, refl, sym, ap, ◌∙◌, List, [], ◌∷◌, ◌++◌, Option,
  some, lt→ltb, ge→ltb, length, take, drop, take-append-drop, length-take, replicate, length-append,
  length-map, length-replicate, arith,
}
use system_programming.Vector.Cells.{Cells}
use system_programming.Vector.Capacity.{size_mod}
use system_programming.Vector.Defs.{Vector, reserve, push_back, insert, put, get, resize}
use system_programming.Vector.Blocks.{cells, load-middle, store-middle, shift_up-all, fill-all}
use system_programming.Vector.Contents.{IsBlock, IsVector, reserve-Reserved, length-filled, uncons}

module _ {ℓ} {A : Type ℓ} where
  -- One more element: the new size, and a block with a spare cell behind the elements.
  record Bumped (v : Vector A) (xs : List A) (w : Vector A) : Type ℓ where
    hole : Option A
    rest : Cells A
    filled : w.array ≡ cells xs ++ hole ∷ rest
    counted : w.capacity ≡ length w.array
    bounded : w.capacity * 8 < size_mod
    size : w.size ≡ suc (length xs)
    same_log : w.destroyed ≡ v.destroyed

  bump :
      (v : Vector A) (xs : List A)
      → IsVector v xs
      → length xs < 2 ^ 60
      → (w : Vector A) × (reserve (record v { size = suc (length xs) }) (suc (length xs)) ≡ some w)
        × Bumped v xs w
  bump v xs is small =
      let v' : Vector A = record v { size = suc (length xs) } in
      let b : IsBlock v' xs = record {
        spare = is.block.spare;
        filled = is.block.filled;
        counted = is.block.counted;
        bounded = is.block.bounded;
      } in
      let (w, e, r) = reserve-Reserved v' xs (suc (length xs)) b small in
      let (c, rest, spare) = uncons r.block.spare (omega (arith, length-filled r.block, r.room)) in
      (
        w,
        e,
        record {
          hole = c;
          rest = rest;
          filled = r.block.filled ∙ ap (λ t. cells xs ++ t) spare;
          counted = r.block.counted;
          bounded = r.block.bounded;
          size = r.same_size;
          same_log = r.same_log;
        },
      )

  -- The array after a write keeps its length, and so the block its capacity.
  pub rewritten :
      (w : Vector A) (ys : List A) (whole m rest : Cells A)
      → w.array ≡ whole
      → w.capacity ≡ length w.array
      → w.capacity * 8 < size_mod
      → length m ≡ length whole
      → m ≡ cells ys ++ rest
      → (n : ℕ) → n ≡ length ys
      → (log : List A)
      → IsVector (record { array = m; size = n; capacity = w.capacity; destroyed = log }) ys
  rewritten w ys whole m rest before counted bounded same after n size log = record {
    block = record {
      spare = rest;
      filled = after;
      counted = counted ∙ ap length before ∙ sym same;
      bounded = bounded;
    };
    size = size;
  }

  length-same :
      (pre post : Cells A) (c d : Option A) → length (pre ++ d ∷ post) ≡ length (pre ++ c ∷ post)
  length-same [] post c d = refl
  length-same (x ∷ pre) post c d = ap suc (length-same pre post c d)

  pub length-shifted :
      (pre mid post : Cells A) (c d : Option A)
      → length (pre ++ c ∷ (mid ++ post)) ≡ length (pre ++ (mid ++ d ∷ post))
  length-shifted [] mid post c d =
      omega (arith, length-append mid post, length-append mid (d ∷ post))
  length-shifted (x ∷ pre) mid post c d = ap suc (length-shifted pre mid post c d)

  length-same_parts :
      (pre ms bs post : Cells A)
      → length ms ≡ length bs
      → length (pre ++ (ms ++ post)) ≡ length (pre ++ (bs ++ post))
  length-same_parts [] ms bs post h = omega (arith, length-append ms post, length-append bs post)
  length-same_parts (x ∷ pre) ms bs post h = ap suc (length-same_parts pre ms bs post h)

  pub length-middle : (xs ys : List A) (a : A) → length (xs ++ a ∷ ys) ≡ suc (length (xs ++ ys))
  length-middle [] ys a = refl
  length-middle (x ∷ xs) ys a = ap suc (length-middle xs ys a)

  pub length-snoc : (xs : List A) (a : A) → length (xs ++ a ∷ []) ≡ suc (length xs)
  length-snoc [] a = refl
  length-snoc (x ∷ xs) a = ap suc (length-snoc xs a)

  pub cells-append :
      (xs ys : List A) (post : Cells A) → cells (xs ++ ys) ++ post ≡ cells xs ++ (cells ys ++ post)
  cells-append [] ys post = refl
  cells-append (x ∷ xs) ys post = ap (◌∷◌ (some x)) (cells-append xs ys post)

  cells-snoc :
      (xs : List A) (a : A) (post : Cells A)
      → cells (xs ++ a ∷ []) ++ post ≡ cells xs ++ some a ∷ post
  cells-snoc xs a post = cells-append xs (a ∷ []) post

  module _ (copy : A → A) where
    -- vector_push_back adds the copy of the element at the end and destroys nothing.
    pub push_back-IsVector :
        (v : Vector A) (xs : List A) (a : A)
        → IsVector v xs
        → length xs < 2 ^ 60
        → (w : Vector A) × (push_back copy v a ≡ some w)
          × IsVector w (xs ++ copy a ∷ [])
          × (w.destroyed ≡ v.destroyed)
    unfolding push_back
    push_back-IsVector v xs a is small =
        let (w, e, b) = bump v xs is small in
        let size : (v.size + 1) % size_mod ≡ suc (length xs) = omega (arith, is.size) in
        let last : (suc (length xs) + size_mod - 1) % size_mod ≡ length xs = omega arith in
        let wrote =
          store-middle (cells xs) b.rest b.hole (copy a) (length xs) (sym (length-map some xs)) in
        let m = cells xs ++ some (copy a) ∷ b.rest in
        (
          record w { array = m },
          rw (size, e, last, b.filled, wrote),
          rewritten w (xs ++ copy a ∷ []) (cells xs ++ b.hole ∷ b.rest) m b.rest b.filled b.counted
              b.bounded (length-same (cells xs) b.rest b.hole (some (copy a)))
              (sym (cells-snoc xs (copy a) b.rest)) w.size (b.size ∙ sym (length-snoc xs (copy a)))
              w.destroyed,
          b.same_log,
        )

    -- vector_insert puts the copy of the element in front of the element at the position, for a
    -- position up to the size, and destroys nothing.
    pub insert-IsVector :
        (v : Vector A) (xs ys : List A) (a : A)
        → IsVector v (xs ++ ys)
        → length (xs ++ ys) < 2 ^ 60
        → (w : Vector A) × (insert copy v (length xs) a ≡ some w)
          × IsVector w (xs ++ copy a ∷ ys)
          × (w.destroyed ≡ v.destroyed)
    unfolding insert
    insert-IsVector v xs ys a is small =
        let (w, e, b) = bump v (xs ++ ys) is small in
        let n = length (xs ++ ys) in
        let size : (v.size + 1) % size_mod ≡ suc n = omega (arith, is.size) in
        let last : (suc n + size_mod - 1) % size_mod ≡ n = omega arith in
        let rounds : n - length xs ≡ length ys = omega (arith, length-append xs ys) in
        let split = b.filled ∙ cells-append xs ys (b.hole ∷ b.rest) in
        let (d, shifted) =
          shift_up-all (length ys) ys (cells xs) b.hole b.rest (length xs) refl
            (sym (length-map some xs)) in
        let wrote =
          store-middle (cells xs) (cells ys ++ b.rest) d (copy a) (length xs)
            (sym (length-map some xs)) in
        let m = cells xs ++ some (copy a) ∷ (cells ys ++ b.rest) in
        (
          record w { array = m },
          rw (size, e, last, rounds, split, shifted, wrote),
          rewritten w (xs ++ copy a ∷ ys) (cells xs ++ (cells ys ++ b.hole ∷ b.rest)) m b.rest split
              b.counted b.bounded
              (length-shifted (cells xs) (cells ys) b.rest (some (copy a)) b.hole)
              (sym (cells-append xs (copy a ∷ ys) b.rest)) w.size
              (b.size ∙ sym (length-middle xs ys (copy a))) w.destroyed,
          b.same_log,
        )

    -- vector_set destroys the element at the position and puts the copy in its place.
    pub put-IsVector :
        (v : Vector A) (xs ys : List A) (old a : A)
        → IsVector v (xs ++ old ∷ ys)
        → (w : Vector A) × (put copy v (length xs) a ≡ some w)
          × IsVector w (xs ++ copy a ∷ ys)
          × (w.destroyed ≡ old ∷ v.destroyed)
    unfolding put
    put-IsVector v xs ys old a is =
        let post = cells ys ++ is.block.spare in
        let split = is.block.filled ∙ cells-append xs (old ∷ ys) is.block.spare in
        let at : length xs ≡ length (cells xs) = sym (length-map some xs) in
        let read = load-middle (cells xs) post old (length xs) at in
        let wrote = store-middle (cells xs) post (some old) (copy a) (length xs) at in
        let m = cells xs ++ some (copy a) ∷ post in
        (
          record v { array = m; destroyed = old ∷ v.destroyed },
          rw (split, read, wrote),
          rewritten v (xs ++ copy a ∷ ys) (cells xs ++ some old ∷ post) m is.block.spare split
              is.block.counted is.block.bounded
              (length-same (cells xs) post (some old) (some (copy a)))
              (sym (cells-append xs (copy a ∷ ys) is.block.spare)) v.size
              (is.size ∙ length-middle xs ys old ∙ sym (length-middle xs ys (copy a)))
              (old ∷ v.destroyed),
          refl,
        )

  -- vector_get returns the element at the position.
  pub get-middle :
      (v : Vector A) (xs ys : List A) (a : A)
      → IsVector v (xs ++ a ∷ ys)
      → get v (length xs) ≡ some a
  unfolding get
  get-middle v xs ys a is =
      rw (is.block.filled ∙ cells-append xs (a ∷ ys) is.block.spare) (
        load-middle (cells xs) (cells ys ++ is.block.spare) a (length xs)
          (sym (length-map some xs)))

  -- On a vector with fewer than n elements, for n up to 2^60, vector_resize succeeds, appends
  -- default elements up to n, and destroys nothing.
  resize-grow-IsVector :
      (v : Vector A) (xs : List A) (fresh : A) (n : ℕ)
      → IsVector v xs
      → length xs < n
      → n ≤ 2 ^ 60
      → (w : Vector A) × (resize fresh v n ≡ some w)
        × IsVector w (xs ++ replicate (n - v.size) fresh)
        × (w.destroyed ≡ v.destroyed)
  unfolding resize
  resize-grow-IsVector v xs fresh n is more fits =
      let (w, e, r) = reserve-Reserved v xs n is.block fits in
      let k = n - v.size in
      let spare = r.block.spare in
      let long : k ≤ length spare = omega (arith, length-filled r.block, r.room, is.size) in
      let gap = take k spare in
      let rest = drop k spare in
      let whole = cells xs ++ (gap ++ rest) in
      let split : w.array ≡ whole =
        r.block.filled ∙ ap (λ t. cells xs ++ t) (sym (take-append-drop k spare)) in
      let filled =
        fill-all k (cells xs) gap rest fresh v.size (length-take k spare long)
          (is.size ∙ sym (length-map some xs)) in
      let m = cells xs ++ (cells (replicate k fresh) ++ rest) in
      (
        record w { array = m; size = n },
        rw (
          ge→ltb n v.size (omega (arith, is.size)),
          lt→ltb v.size n (omega (arith, is.size)),
          e,
          split,
          filled,
        ),
        rewritten w (xs ++ replicate k fresh) whole m rest split r.block.counted r.block.bounded
            (length-same_parts (cells xs) (cells (replicate k fresh)) gap rest (
              length-map some (replicate k fresh)
              ∙ length-replicate k fresh
              ∙ sym (length-take k spare long)))
            (sym (cells-append xs (replicate k fresh) rest)) n
            (omega (arith, length-append xs (replicate k fresh), length-replicate k fresh, is.size))
            w.destroyed,
        r.same_log,
      )
