-- ===== src/Mmu/Removed.antt =====
-- ideal_indirection/mmu.c: what mmu_remove_process and mmu_delete leave.
use system_programming.Base.{
  subst, Bool, ℕ, zero, suc, ◌+◌, ◌≤◌, ◌<◌, ◌≡◌, inl, inr, refl, true, false, Option, none, some,
  ltb, lt→ltb, ◌==◌, arith, Bool-cases,
}
use system_programming.Mmu.Defs.{System, Mmu}
use system_programming.Mmu.Process.{store, remove, mmu_remove_process, remove_from, mmu_delete}

store-same : {A : Type 0} (f : ℕ → A) (i : ℕ) (a : A) → store f i a i ≡ a
unfolding store
store-same f i a = let same : (i == i) ≡ true = ground arith in rw same refl

store-none : {A : Type 0} (f : ℕ → Option A) (i j : ℕ) → f j ≡ none → store f i none j ≡ none
unfolding store
store-none f i j e = elim (Bool-cases (j == i)) [
  | inl same ↦ rw same refl
  | inr other ↦ rw (other, e) refl
]

module _ {K T : Type 0} (s : System K T) where
  -- The process has no page directory and no segments.
  abbrev IsGone : Mmu K T → ℕ → Type 0
  IsGone m pid = (m.page_directories pid ≡ none) × (m.segmentations pid ≡ none)

  remove-IsGone : (m : Mmu K T) (pid : ℕ) → IsGone (remove s m pid) pid
  unfolding remove
  remove-IsGone m pid =
      (store-same m.page_directories pid none, store-same m.segmentations pid none)

  remove-kept : (m : Mmu K T) (pid other : ℕ) → IsGone m other → IsGone (remove s m pid) other
  unfolding remove
  remove-kept m pid other (pd, segs) =
      (store-none m.page_directories pid other pd, store-none m.segmentations pid other segs)

  -- The loop of mmu_delete removes the processes that it comes to, and brings none back.
  remove_from-IsGone :
      (m : Mmu K T) (pid k : ℕ)
      → pid + k ≤ s.max_process_id
      → ((q : ℕ) → q < pid → IsGone m q)
      → (m1 : Mmu K T) × (remove_from s m pid k ≡ some m1) × ((q : ℕ) → q < pid + k → IsGone m1 q)
  unfolding remove_from mmu_remove_process
  remove_from-IsGone m pid zero bound gone = (m, refl, λ q h. gone q (omega (arith, h)))
  remove_from-IsGone m pid (suc k) bound gone =
      let legal : ltb pid s.max_process_id ≡ true = lt→ltb _ _ (omega (arith, bound)) in
      let (m1, ran, all) =
        remove_from-IsGone (remove s m pid) (suc pid) k (omega (arith, bound))
          (λ q h. by_place q h (q == pid) refl) in
      (m1, rw legal ran, λ q h. all q (omega (arith, h)))
    where
      by_place : (q : ℕ) → q < suc pid → (b : Bool) → (q == pid) ≡ b → IsGone (remove s m pid) q
      by_place q h true e =
          let same : pid ≡ q = ground arith in
          subst (IsGone (remove s m pid)) same (remove-IsGone m pid)
      by_place q h false e =
          let other : q < pid = ground arith in remove-kept m pid q (gone q other)

  -- mmu_delete succeeds, and no process has a page directory or segments behind it.
  mmu_delete-IsGone :
      (m : Mmu K T)
      → (m1 : Mmu K T) × (mmu_delete s m ≡ some m1)
        × ((pid : ℕ) → pid < s.max_process_id → IsGone m1 pid)
  unfolding mmu_delete
  mmu_delete-IsGone m =
      let (m1, ran, all) =
        remove_from-IsGone m 0 s.max_process_id (omega arith) (λ q h. absurd (omega (arith, h))) in
      (m1, ran, λ q h. all q (omega (arith, h)))
