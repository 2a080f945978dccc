-- ===== src/Vector/Refinement.antt =====
-- The contract of vector/vector.c: a sequence with random access, under any history of calls. The
-- specification works on the list of elements and on the log of destroyed ones.
use system_programming.Base.{
  ℕ, zero, suc, ◌+◌, ◌-◌, ◌^◌, ◌<◌, ◌≤◌, ◌≡◌, refl, sym, ap, ◌∙◌, subst, List, [], ◌∷◌, ◌++◌,
  Option, none, some, inl, inr, leb, if◌then◌else◌, Bool-cases, Option-cases, length, get_elem?,
  take, drop, length-take, take-append-drop, ◌>>=◌, >>=-eq-some, some_inj, arith,
}
use mathlib.Core.List.{reverse_aux}
use system_programming.Vector.Defs.{Vector, push_back, pop_back, insert, erase, put, clear}
use system_programming.Vector.Contents.{IsVector}
use system_programming.Vector.Growth.{
  push_back-IsVector, insert-IsVector, put-IsVector, length-middle, length-snoc,
}
use system_programming.Vector.Removal.{pop_back-IsVector, erase-IsVector, clear-IsVector}

-- One call of a client.
pub data Call {ℓ} (A : Type ℓ) : Type ℓ where
  pushes : A → Call A
  pops : Call A
  inserts : ℕ → A → Call A
  erases : ℕ → Call A
  sets : ℕ → A → Call A
  clears : Call A

-- The elements, and what was destroyed so far.
abbrev pub View {ℓ} : Type ℓ → Type ℓ
View A = List A × List A

module _ {ℓ} {A : Type ℓ} (copy : A → A) where
  unfoldable pub call : Call A → Vector A → Option (Vector A)
  call (pushes a) v = push_back copy v a
  call pops v = pop_back v
  call (inserts i a) v = insert copy v i a
  call (erases i) v = erase v i
  call (sets i a) v = put copy v i a
  call clears v = clear v

  -- The specification of a call; `none` where the caller breaks the precondition.
  unfoldable pub spec : Call A → View A → Option (View A)
  spec (pushes a) (xs, log) = some (xs ++ copy a ∷ [], log)
  spec pops (xs, log) = elim (get_elem? xs (length xs - 1)) [
    | none ↦ none
    | some a ↦ some (take (length xs - 1) xs, a ∷ log)
  ]
  spec (inserts i a) (xs, log) =
      if leb i (length xs) then some (take i xs ++ copy a ∷ drop i xs, log) else none
  spec (erases i) (xs, log) = elim (get_elem? xs i) [
    | none ↦ none
    | some a ↦ some (take i xs ++ drop (suc i) xs, a ∷ log)
  ]
  spec (sets i a) (xs, log) = elim (get_elem? xs i) [
    | none ↦ none
    | some old ↦ some (take i xs ++ copy a ∷ drop (suc i) xs, old ∷ log)
  ]
  spec clears (xs, log) = some ([], reverse_aux xs log)

  unfoldable pub calls : List (Call A) → Vector A → Option (Vector A)
  calls [] v = some v
  calls (c ∷ cs) v = do w ← call c v; calls cs w

  unfoldable pub specs : List (Call A) → View A → Option (View A)
  specs [] s = some s
  specs (c ∷ cs) s = do t ← spec c s; specs cs t

module _ {ℓ} {A : Type ℓ} where
  split_at :
      (xs : List A) (i : ℕ) (a : A)
      → get_elem? xs i ≡ some a
      → (xs ≡ take i xs ++ a ∷ drop (suc i) xs) × (length (take i xs) ≡ i)
  split_at [] i a e = cc
  split_at (x ∷ xs) zero a e = (ground arith, refl)
  split_at (x ∷ xs) (suc i) a e = let (p, n) = split_at xs i a e in (ap (◌∷◌ x) p, ap suc n)

  drop-last :
      (xs : List A) (a : A) (i : ℕ)
      → get_elem? xs i ≡ some a
      → length xs - 1 ≡ i
      → drop (suc i) xs ≡ []
  drop-last [] a i e h = refl
  drop-last (x ∷ []) a zero e h = refl
  drop-last (x ∷ y ∷ xs) a zero e h = absurd (omega arith)
  drop-last (x ∷ []) a (suc i) e h = refl
  drop-last (x ∷ y ∷ xs) a (suc i) e h = drop-last (y ∷ xs) a i e (omega arith)

  -- The vector shows the elements and the log.
  pub record Shows (v : Vector A) (s : View A) : Type ℓ where
    pub elements : IsVector v s.0
    pub log : v.destroyed ≡ s.1

  -- What a call leaves: a vector that shows the new view, with at most one more element.
  abbrev Leaves : Option (Vector A) → ℕ → View A → Type ℓ
  Leaves r n t = (w : Vector A) × (r ≡ some w) × Shows w t × (length t.0 ≤ suc n)

  leaves :
      {r : Option (Vector A)} {n : ℕ} {t : View A} (w : Vector A) (u : View A)
      → some u ≡ some t
      → r ≡ some w
      → IsVector w u.0
      → w.destroyed ≡ u.1
      → length u.0 ≤ suc n
      → Leaves r n t
  leaves {r} {n} w u e ran is same bound =
      subst (Leaves r n) (some_inj e) (w, ran, record { elements = is; log = same }, bound)

module _ {ℓ} {A : Type ℓ} (copy : A → A) (v : Vector A) (xs log : List A) (t : View A)
    (s : Shows v (xs, log)) (small : length xs < 2 ^ 60) where
  pops-Leaves : spec copy pops (xs, log) ≡ some t → Leaves (pop_back v) (length xs) t
  unfolding spec
  pops-Leaves e = elim (Option-cases (get_elem? xs (length xs - 1))) [
    | inl missing ↦ absurd (ground arith)
    | inr (a, found) ↦
        let i = length xs - 1 in
        let (p, n) = split_at xs i a found in
        let p' : xs ≡ take i xs ++ a ∷ [] =
          p ∙ ap (λ r. take i xs ++ a ∷ r) (drop-last xs a i found refl) in
        let (w, ran, is, same) =
          pop_back-IsVector v (take i xs) a (subst (IsVector v) p' s.elements) (omega arith) in
        leaves w (take i xs, a ∷ log) (rw (found, spec) at e) ran is (same ∙ ap (◌∷◌ a) s.log)
          (omega arith)
  ]

  inserts-Leaves :
      (i : ℕ) (a : A)
      → spec copy (inserts i a) (xs, log) ≡ some t
      → Leaves (insert copy v i a) (length xs) t
  unfolding spec
  inserts-Leaves i a e = elim (Bool-cases (leb i (length xs))) [
    | inl within ↦
        let at : length (take i xs) ≡ i = length-take i xs (ground arith) in
        let p = sym (take-append-drop i xs) in
        let (w, ran, is, same) =
          insert-IsVector copy v (take i xs) (drop i xs) a (subst (IsVector v) p s.elements)
            (omega (arith, ap length p)) in
        leaves w (take i xs ++ copy a ∷ drop i xs, log) (rw within at e) (rw at at ran) is
          (same ∙ s.log)
          (omega (arith, length-middle (take i xs) (drop i xs) (copy a), ap length p))
    | inr past ↦ absurd (ground arith)
  ]

  erases-Leaves :
      (i : ℕ) → spec copy (erases i) (xs, log) ≡ some t → Leaves (erase v i) (length xs) t
  unfolding spec
  erases-Leaves i e = elim (Option-cases (get_elem? xs i)) [
    | inl missing ↦ absurd (ground arith)
    | inr (a, found) ↦
        let (p, n) = split_at xs i a found in
        let (w, ran, is, same) =
          erase-IsVector v (take i xs) (drop (suc i) xs) a (subst (IsVector v) p s.elements) in
        leaves w (take i xs ++ drop (suc i) xs, a ∷ log) (rw (found, spec) at e) (rw n at ran) is
          (same ∙ ap (◌∷◌ a) s.log)
          (omega (arith, length-middle (take i xs) (drop (suc i) xs) a, ap length p))
  ]

  sets-Leaves :
      (i : ℕ) (a : A)
      → spec copy (sets i a) (xs, log) ≡ some t
      → Leaves (put copy v i a) (length xs) t
  unfolding spec
  sets-Leaves i a e = elim (Option-cases (get_elem? xs i)) [
    | inl missing ↦ absurd (ground arith)
    | inr (old, found) ↦
        let (p, n) = split_at xs i old found in
        let ys = drop (suc i) xs in
        let (w, ran, is, same) =
          put-IsVector copy v (take i xs) ys old a (subst (IsVector v) p s.elements) in
        leaves w (take i xs ++ copy a ∷ ys, old ∷ log) (rw (found, spec) at e) (rw n at ran) is
          (same ∙ ap (◌∷◌ old) s.log)
          (omega (
            arith,
            length-middle (take i xs) ys old,
            length-middle (take i xs) ys (copy a),
            ap length p,
          ))
  ]

  -- Every call that the specification allows is run by the code without a fault, with its result.
  call-refines :
      (c : Call A) → spec copy c (xs, log) ≡ some t → Leaves (call copy c v) (length xs) t
  unfolding call spec
  call-refines (pushes a) e =
      let (w, ran, is, same) = push_back-IsVector copy v xs a s.elements small in
      leaves w (xs ++ copy a ∷ [], log) e ran is (same ∙ s.log)
        (omega (arith, length-snoc xs (copy a)))
  call-refines pops e = pops-Leaves e
  call-refines (inserts i a) e = inserts-Leaves i a e
  call-refines (erases i) e = erases-Leaves i e
  call-refines (sets i a) e = sets-Leaves i a e
  call-refines clears e =
      let (w, ran, is, same, _) = clear-IsVector v xs s.elements in
      leaves w ([], reverse_aux xs log) e ran is (same ∙ ap (reverse_aux xs) s.log) (omega arith)

-- Any history of vector_push_back, vector_pop_back, vector_insert, vector_erase, vector_set and
-- vector_clear that the specification on lists allows runs without a fault on a vector that shows a
-- view, and leaves a vector that shows the view of the specification: its elements in order, and
-- the log of what was destroyed. The elements at the start and the calls are together at most 2^60.
pub calls-refine {ℓ} :
    {A : Type ℓ} (copy : A → A) (cs : List (Call A)) (v : Vector A) (s t : View A)
    → Shows v s
    → length s.0 + length cs ≤ 2 ^ 60
    → specs copy cs s ≡ some t
    → (w : Vector A) × (calls copy cs v ≡ some w) × Shows w t
unfolding calls specs
calls-refine copy [] v s t sh small e = (v, refl, subst (Shows v) (some_inj e) sh)
calls-refine copy (c ∷ cs) v s t sh small e =
    let (u, e₁, e₂) = >>=-eq-some (spec copy c s) (specs copy cs) e in
    let (w, ran, sh', bound) = call-refines copy v s.0 s.1 u sh (omega arith) c e₁ in
    let (x, rest, sh'') = calls-refine copy cs w u t sh' (omega arith) e₂ in (x, rw ran rest, sh'')
