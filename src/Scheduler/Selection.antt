-- ===== src/Scheduler/Selection.antt =====
-- A concrete priority queue and concrete times, on which the scheduler of savvy_scheduler/libscheduler.c runs:
-- poll looks at all the elements.
use system_programming.Base.{
  some_inj, subst, ℕ, ◌+◌, ◌-◌, ◌/◌, ◌≡◌, ◌≢◌, refl, sym, ap, ◌∙◌, List, [], ◌∷◌, Option, none,
  some, ltb, ◌==◌,
}
use system_programming.Scheduler.Comparers.{
  ltb_split, ltb_trans, ltb_irrefl, Doubles, Sign, below, same, above, flip, IsOrder,
}
use system_programming.Scheduler.Defs.{PriQueue}
use mathlib.Core.List.{Mem, Perm, forall_mem-cons, not-mem-nil}
use mathlib.Core.List.Perm

below-above : below ≢ above
below-above e = cc

same-above : same ≢ above
same-above e = cc

module _ {A : Type 0} (cmp : A → A → Sign) where
  abbrev pub choose : Sign → A → List A → A × List A → A × List A
  choose below j js r = (j, js)
  choose same j js r = (j, js)
  choose above j js r = (r.0, j ∷ r.1)

  abbrev pub select_with : A → List A → Option (A × List A) → Option (A × List A)
  select_with j js none = some (j, [])
  select_with j js (some r) = some (choose (cmp j r.0) j js r)

  unfoldable pub select : List A → Option (A × List A)
  select [] = none
  select (j ∷ js) = select_with j js (select js)

  -- What select gives.
  abbrev pub Selects : List A → Option (A × List A) → Type 0
  Selects js none = js ≡ []
  Selects js (some r) = Perm js (r.0 ∷ r.1) × ((m : A) → Mem m js → cmp r.0 m ≢ above)

  reflexive : IsOrder cmp → (j : A) → cmp j j ≢ above
  reflexive ordered j e = by_sign (cmp j j) e (ordered.flips j j)
    where
      by_sign : (s : Sign) → s ≡ above → s ≡ flip s → ⊥
      by_sign below e f = cc
      by_sign same e f = cc
      by_sign above e f = cc

  least_of_cons :
      (k j : A) (js : List A)
      → cmp k j ≢ above
      → ((m : A) → Mem m js → cmp k m ≢ above)
      → (m : A) → Mem m (j ∷ js)
      → cmp k m ≢ above
  least_of_cons k j js first rest = (forall_mem-cons (λ m. hlevel)).1 (first, rest)

  select_with-Selects :
      IsOrder cmp
      → (j : A) (js : List A) (o : Option (A × List A)) → Selects js o
      → Selects (j ∷ js) (select_with j js o)
  select_with-Selects ordered j js none e = (
    rw e Perm.rfl,
    rw e (least_of_cons j j [] (reflexive ordered j) (λ m here. absurd (not-mem-nil here))),
  )
  select_with-Selects ordered j js (some r) picked = by_sign (cmp j r.0) refl
    where
      smaller : cmp j r.0 ≢ above → (m : A) → Mem m js → cmp j m ≢ above
      smaller h m here = ordered.chains j r.0 m h (picked.1 m here)

      keeps :
          cmp j r.0 ≢ above → Perm (j ∷ js) (j ∷ js) × ((m : A) → Mem m (j ∷ js) → cmp j m ≢ above)
      keeps h = (Perm.rfl, least_of_cons j j js (reflexive ordered j) (smaller h))

      by_sign : (s : Sign) → cmp j r.0 ≡ s → Selects (j ∷ js) (some (choose s j js r))
      by_sign below e = keeps (λ h. below-above (sym e ∙ h))
      by_sign same e = keeps (λ h. same-above (sym e ∙ h))
      by_sign above e = (
        Perm.trans (Perm.cons j picked.0) (Perm.swap r.0 j r.1),
        least_of_cons r.0 j js (λ h. below-above (sym (ordered.flips r.0 j ∙ ap flip e) ∙ h))
            picked.1,
      )

  pub select-Selects : IsOrder cmp → (js : List A) → Selects js (select js)
  unfolding select
  select-Selects ordered [] = refl
  select-Selects ordered (j ∷ js) =
      select_with-Selects ordered j js (select js) (select-Selects ordered js)

-- A queue is its comparer and its elements.
abbrev pub with_order :
    {A : Type 0} → (A → A → Sign) → Option (A × List A) → Option (A × ((A → A → Sign) × List A))
with_order cmp none = none
with_order cmp (some r) = some (r.0, (cmp, r.1))

pub polled_order :
    {A : Type 0} (cmp : A → A → Sign) (j : A) (q : (A → A → Sign) × List A)
    (o : Option (A × List A))
    → with_order cmp o ≡ some (j, q)
    → q.0 ≡ cmp
polled_order cmp j q none e = absurd cc
polled_order cmp j q (some r) e = sym (ap (λ p. p.1.0) (some_inj e))

pub polled_none :
    {A : Type 0} (cmp : A → A → Sign) (js : List A) (o : Option (A × List A))
    → Selects cmp js o
    → with_order cmp o ≡ none
    → js ≡ []
polled_none cmp js none picked e = picked
polled_none cmp js (some r) picked e = absurd cc

pub polled :
    {A : Type 0} (cmp : A → A → Sign) (js : List A) (j : A) (q : (A → A → Sign) × List A)
    (o : Option (A × List A))
    → Selects cmp js o
    → with_order cmp o ≡ some (j, q)
    → Selects cmp js (some (j, q.1))
polled cmp js j q none picked e = absurd cc
polled cmp js j q (some r) picked e =
    subst (λ p. Selects cmp js (some (p.0, p.1.1))) (some_inj e) picked

abbrev pub selection : (A : Type 0) → PriQueue A
selection A = record {
  Queue = (A → A → Sign) × List A;
  init = λ cmp. (cmp, []);
  offer = λ j q. (q.0, j ∷ q.1);
  poll = λ q. with_order q.0 (select q.0 q.1);
  contents = λ q. q.1;
  order = λ q. q.0;
  contents_init = λ cmp. refl;
  order_init = λ cmp. refl;
  order_offer = λ j q. refl;
  order_poll = λ q j r e. polled_order q.0 j r (select q.0 q.1) e;
  offer_adds = λ j q ordered. Perm.rfl;
  poll_none =
      λ q ordered e. polled_none q.0 q.1 (select q.0 q.1) (select-Selects q.0 ordered q.1) e;
  poll_removes =
      λ q j r ordered e. (polled q.0 q.1 j r (select q.0 q.1) (select-Selects q.0 ordered q.1) e).0;
  poll_least =
      λ q j r ordered e. (polled q.0 q.1 j r (select q.0 q.1) (select-Selects q.0 ordered q.1) e).1;
}

-- Times in whole seconds.
abbrev pub seconds : Doubles
seconds = record {
  Double = ℕ;
  zero_double = 0;
  plus = λ a b. a + b;
  minus = λ a b. a - b;
  divide = λ a n. a / n;
  is_zero = λ a. a == 0;
  less = ltb;
  less_irrefl = ltb_irrefl;
  less_trans = ltb_trans;
  less_split = ltb_split;
}
