-- ===== src/Vector/Blocks.antt =====
-- What the loops over a block of cells do (the loops of vector/vector.c, from Vector/Cells): each is
-- stated for a block that is split around the cells that the loop runs over.
use system_programming.Base.{
  ℕ, zero, suc, ◌+◌, ◌-◌, ◌≤◌, ◌≡◌, refl, sym, ap, ◌∙◌, List, [], ◌∷◌, ◌++◌, Option, none, some,
  true, map, ltb, lt→ltb, length, get_elem?, set, take, replicate, length-append, length-map,
  append_assoc, arith,
}
use mathlib.Core.List.{reverse_aux, map-append}
use system_programming.Vector.Cells.{
  Cells, load, store, realloc, destroy_down, destroy_up, fill, shift_up, shift_down,
}

module _ {ℓ} {A : Type ℓ} where
  pub get_elem?-middle :
      (pre post : List A) (a : A) → get_elem? (pre ++ a ∷ post) (length pre) ≡ some a
  get_elem?-middle [] post a = refl
  get_elem?-middle (x ∷ pre) post a = get_elem?-middle pre post a

  pub set-middle :
      (pre post : List A) (a b : A) → set (pre ++ a ∷ post) (length pre) b ≡ pre ++ b ∷ post
  set-middle [] post a b = refl
  set-middle (x ∷ pre) post a b = ap (◌∷◌ x) (set-middle pre post a b)

  -- The last entry of a list that is not empty.
  pub snoc_split :
      (k : ℕ) (xs : List A)
      → length xs ≡ suc k
      → (ys : List A) × (y : A) × (xs ≡ ys ++ y ∷ []) × (length ys ≡ k)
  snoc_split k [] h = absurd (omega arith)
  snoc_split zero (x ∷ []) h = ([], x, refl, refl)
  snoc_split zero (x ∷ y ∷ xs) h = absurd (omega arith)
  snoc_split (suc k) (x ∷ xs) h =
      let (ys, y, e, n) = snoc_split k xs (omega arith) in (x ∷ ys, y, ap (◌∷◌ x) e, ap suc n)

module _ {ℓ} {A : Type ℓ} where
  abbrev pub cells : List A → Cells A
  cells = map some

  cells_snoc :
      (pre : Cells A) (ys xs : List A) (y : A) (post : Cells A)
      → xs ≡ ys ++ y ∷ []
      → pre ++ (cells xs ++ post) ≡ (pre ++ cells ys) ++ some y ∷ post
  cells_snoc pre ys xs y post e = rw (
    e,
    map-append some ys (y ∷ []),
    append_assoc (cells ys) (some y ∷ []) post,
    append_assoc pre (cells ys) (some y ∷ post),
  )

  pub load-middle :
      (pre post : Cells A) (a : A) (i : ℕ) → i ≡ length pre → load (pre ++ some a ∷ post) i ≡ some a
  unfolding load
  load-middle pre post a i h = rw (h, get_elem?-middle pre post (some a))

  pub store-middle :
      (pre post : Cells A) (c : Option A) (a : A) (i : ℕ)
      → i ≡ length pre
      → store (pre ++ c ∷ post) i a ≡ some (pre ++ some a ∷ post)
  unfolding store
  store-middle pre post c a i h =
      let inside : ltb (length pre) (length (pre ++ c ∷ post)) ≡ true =
        lt→ltb _ _ (omega (arith, length-append pre (c ∷ post))) in
      rw (h, inside, set-middle pre post c (some a))

  pub load-next :
      (pre post : Cells A) (c : Option A) (a : A) (i : ℕ)
      → i ≡ length pre + 1
      → load (pre ++ c ∷ some a ∷ post) i ≡ some a
  load-next pre post c a i h =
      rw (← append_assoc pre (c ∷ []) (some a ∷ post))
        (load-middle (pre ++ c ∷ []) post a i (omega (arith, length-append pre (c ∷ []))))

  pub store-next :
      (pre post : Cells A) (c old : Option A) (a : A) (i : ℕ)
      → i ≡ length pre + 1
      → store (pre ++ c ∷ old ∷ post) i a ≡ some (pre ++ c ∷ some a ∷ post)
  store-next pre post c old a i h =
      rw (← append_assoc pre (c ∷ []) (old ∷ post), ← append_assoc pre (c ∷ []) (some a ∷ post))
        (store-middle (pre ++ c ∷ []) post old a i (omega (arith, length-append pre (c ∷ []))))

  -- A loop over the cells `xs` from the first on calls the destructor on each, once, in order.
  pub destroy_up-all :
      (xs : List A) (pre post : Cells A) (log : List A) (from : ℕ)
      → from ≡ length pre
      → destroy_up from (length xs) (pre ++ (cells xs ++ post)) log ≡ some (reverse_aux xs log)
  unfolding destroy_up
  destroy_up-all [] pre post log from h = refl
  destroy_up-all (x ∷ xs) pre post log from h =
      let rest =
        destroy_up-all xs (pre ++ some x ∷ []) post (x ∷ log) (from + 1)
          (omega (arith, length-append pre (some x ∷ []))) in
      rw (load-middle pre (cells xs ++ post) x from h)
        (rw (append_assoc pre (some x ∷ []) (cells xs ++ post)) at rest)

  -- A loop from the last cell down to the first of `xs` does so in the opposite order.
  pub destroy_down-all :
      (k : ℕ) (xs : List A) (pre post : Cells A) (log : List A) (from : ℕ)
      → length xs ≡ k
      → from ≡ length pre
      → destroy_down from k (pre ++ (cells xs ++ post)) log ≡ some (xs ++ log)
  unfolding destroy_down
  destroy_down-all zero [] pre post log from n h = refl
  destroy_down-all zero (x ∷ xs) pre post log from n h = absurd (omega arith)
  destroy_down-all (suc k) xs pre post log from n h =
      let (ys, y, e, n') = snoc_split k xs n in
      let split : pre ++ (cells xs ++ post) ≡ (pre ++ cells ys) ++ some y ∷ post =
        cells_snoc pre ys xs y post e in
      let read =
        load-middle (pre ++ cells ys) post y (from + k)
          (omega (arith, length-append pre (cells ys), length-map some ys)) in
      let rest = destroy_down-all k ys pre (some y ∷ post) (y ∷ log) from n' h in
      rw (split, read, append_assoc pre (cells ys) (some y ∷ post))
        (rest ∙ ap some (sym (append_assoc ys (y ∷ []) log) ∙ ap (λ t. t ++ log) (sym e)))

  -- The filling loop writes every cell of the range.
  pub fill-all :
      (k : ℕ) (pre cs post : Cells A) (a : A) (from : ℕ)
      → length cs ≡ k
      → from ≡ length pre
      → fill from k a (pre ++ (cs ++ post)) ≡ some (pre ++ (cells (replicate k a) ++ post))
  unfolding fill
  fill-all zero pre [] post a from n h = refl
  fill-all zero pre (c ∷ cs) post a from n h = absurd (omega arith)
  fill-all (suc k) pre [] post a from n h = absurd (omega arith)
  fill-all (suc k) pre (c ∷ cs) post a from n h =
      let rest =
        fill-all k (pre ++ some a ∷ []) cs post a (from + 1) (omega arith)
          (omega (arith, length-append pre (some a ∷ []))) in
      let rest' = rw (append_assoc pre (some a ∷ []) (cs ++ post)) at rest in
      rw (store-middle pre (cs ++ post) c a from h)
        (rw (append_assoc pre (some a ∷ []) (cells (replicate k a) ++ post)) at rest')

  -- The upward shift moves the handles `ys` by one cell; what is left in the first cell is stale.
  pub shift_up-all :
      (k : ℕ) (ys : List A) (pre : Cells A) (c : Option A) (post : Cells A) (position : ℕ)
      → length ys ≡ k
      → position ≡ length pre
      → (d : Option A) × (shift_up position k (pre ++ (cells ys ++ c ∷ post))
          ≡ some (pre ++ d ∷ (cells ys ++ post)))
  unfolding shift_up
  shift_up-all zero [] pre c post position n h = (c, refl)
  shift_up-all zero (x ∷ ys) pre c post position n h = absurd (omega arith)
  shift_up-all (suc k) ys pre c post position n h =
      let (zs, y, e, n') = snoc_split k ys n in
      let split = cells_snoc pre zs ys y (c ∷ post) e in
      let at_end : position + k ≡ length (pre ++ cells zs) =
        omega (arith, length-append pre (cells zs), length-map some zs) in
      let read = load-middle (pre ++ cells zs) (c ∷ post) y (position + k) at_end in
      let wrote =
        store-next (pre ++ cells zs) post (some y) c y (position + k + 1)
          (ap (λ t. t + 1) at_end) in
      let (d, rest) = shift_up-all k zs pre (some y) (some y ∷ post) position n' h in
      let tail = append_assoc pre (cells zs) (some y ∷ some y ∷ post) in
      (
        d,
        rw (split, read, wrote, tail)
            (rest ∙ ap (λ t. some (pre ++ d ∷ t)) (sym (cells_snoc [] zs ys y post e))),
      )

  -- The downward shift moves the handles `ys` back by one cell.
  pub shift_down-all :
      (ys : List A) (pre : Cells A) (c : Option A) (post : Cells A) (position : ℕ)
      → position ≡ length pre
      → (d : Option A) × (shift_down position (length ys) (pre ++ c ∷ (cells ys ++ post))
          ≡ some (pre ++ (cells ys ++ d ∷ post)))
  unfolding shift_down
  shift_down-all [] pre c post position h = (c, refl)
  shift_down-all (y ∷ ys) pre c post position h =
      let read = load-next pre (cells ys ++ post) c y (position + 1) (ap (λ t. t + 1) h) in
      let wrote = store-middle pre (some y ∷ (cells ys ++ post)) c y position h in
      let (d, rest) =
        shift_down-all ys (pre ++ some y ∷ []) (some y) post (position + 1)
          (omega (arith, length-append pre (some y ∷ []))) in
      let regroup = append_assoc pre (some y ∷ []) in
      (
        d,
        rw (read, wrote)
            (rw (regroup (some y ∷ (cells ys ++ post)), regroup (cells ys ++ d ∷ post)) at rest),
      )

  take-all : (n : ℕ) (m : Cells A) → length m ≤ n → take n m ≡ m
  take-all zero [] h = refl
  take-all zero (c ∷ m) h = absurd (omega arith)
  take-all (suc n) [] h = refl
  take-all (suc n) (c ∷ m) h = ap (◌∷◌ c) (take-all n m (omega arith))

  -- A block that grows keeps its cells.
  pub realloc-grow :
      (n : ℕ) (m : Cells A) → length m ≤ n → realloc n m ≡ m ++ replicate (n - length m) none
  unfolding realloc
  realloc-grow n m h = rw (take-all n m h)
