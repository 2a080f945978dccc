-- ===== src/Scheduler/Comparers.antt =====
-- The comparers of savvy_scheduler/libscheduler.c. The arithmetic of double is a parameter.
use system_programming.Base.{
  ℕ, ◌≡◌, ◌≢◌, ◌⊎◌, inl, inr, refl, Bool, true, false, Bool-cases, ltb, ltb→lt, lt→ltb, ge→ltb, sym,
  ◌∙◌, arith,
}
use system_programming.Clib.Strings.{true-false}

pub record Doubles : Type 1 where
  pub Double : Type 0
  pub zero_double : Double
  pub plus : Double → Double → Double
  pub minus : Double → Double → Double
  pub divide : Double → ℕ → Double
  pub is_zero : Double → Bool
  pub less : Double → Double → Bool
  -- What `<` is on doubles that are not NaN.
  pub less_irrefl : (a : Double) → less a a ≡ false
  pub less_trans : (a b c : Double) → less a b ≡ true → less b c ≡ true → less a c ≡ true
  pub less_split : (a b c : Double) → less a c ≡ true → (less a b ≡ true) ⊎ (less b c ≡ true)

pub data Scheme : Type 0 where
  fcfs pri ppri psrtf rr sjf : Scheme

-- The results -1, 0 and 1 of a comparer.
pub data Sign : Type 0 where
  below same above : Sign

abbrev pub flip : Sign → Sign
flip below = above
flip same = same
flip above = below

-- `if (a < b) return -1; if (b < a) return 1; return tie;`
unfoldable pub first_of : Bool → Bool → Sign → Sign
first_of true b tie = below
first_of false true tie = above
first_of false false tie = tie

-- What priqueue asks of a comparer: a total order, in which different jobs can be equal.
pub record IsOrder {ℓ} {A : Type ℓ} (cmp : A → A → Sign) : Type ℓ where
  pub flips : (a b : A) → cmp a b ≡ flip (cmp b a)
  pub chains : (a b c : A) → cmp a b ≢ above → cmp b c ≢ above → cmp a c ≢ above

module _ (num : Doubles) where
  open num use {Double, minus, less, less_irrefl, less_trans, less_split}

  -- job_info. The priority is the int and 2^31.
  pub record JobInfo : Type 0 where
    pub id : ℕ
    pub priority : ℕ
    pub runtime : Double
    pub arrival_time : Double
    pub start_time : Double
    pub end_time : Double
    pub rr_time : Double
    pub used_time : Double

  unfoldable pub comparer_fcfs : JobInfo → JobInfo → Sign
  comparer_fcfs a b =
      first_of (less a.arrival_time b.arrival_time) (less b.arrival_time a.arrival_time) same

  unfoldable pub break_tie : JobInfo → JobInfo → Sign
  break_tie a b = comparer_fcfs a b

  unfoldable pub comparer_pri : JobInfo → JobInfo → Sign
  comparer_pri a b =
      first_of (ltb a.priority b.priority) (ltb b.priority a.priority) (break_tie a b)

  unfoldable pub comparer_ppri : JobInfo → JobInfo → Sign
  comparer_ppri a b = comparer_pri a b

  unfoldable pub comparer_psrtf : JobInfo → JobInfo → Sign
  comparer_psrtf a b =
      let remain_a = minus a.runtime a.used_time in
      let remain_b = minus b.runtime b.used_time in
      first_of (less remain_a remain_b) (less remain_b remain_a) (break_tie a b)

  unfoldable pub comparer_rr : JobInfo → JobInfo → Sign
  comparer_rr a b = first_of (less a.rr_time b.rr_time) (less b.rr_time a.rr_time) same

  unfoldable pub comparer_sjf : JobInfo → JobInfo → Sign
  comparer_sjf a b = first_of (less a.runtime b.runtime) (less b.runtime a.runtime) (break_tie a b)

  -- comparision_func, by the scheme.
  unfoldable pub comparer : Scheme → JobInfo → JobInfo → Sign
  comparer fcfs = comparer_fcfs
  comparer pri = comparer_pri
  comparer ppri = comparer_ppri
  comparer psrtf = comparer_psrtf
  comparer rr = comparer_rr
  comparer sjf = comparer_sjf

first_of-flip :
    (x y : Bool) (s t : Sign)
    → (x ≡ true → y ≡ true → ⊥)
    → s ≡ flip t
    → first_of x y s ≡ flip (first_of y x t)
unfolding first_of
first_of-flip true true s t once e = absurd (once refl refl)
first_of-flip true false s t once e = refl
first_of-flip false true s t once e = refl
first_of-flip false false s t once e = e

-- A result other than 1.
first_of-cases :
    (x y : Bool) (t : Sign)
    → first_of x y t ≢ above
    → (x ≡ true) ⊎ ((x ≡ false) × (y ≡ false) × (t ≢ above))
unfolding first_of
first_of-cases true y t h = inl refl
first_of-cases false true t h = absurd (h refl)
first_of-cases false false t h = inr (refl, refl, h)

first_of-below : (x y : Bool) (t : Sign) → x ≡ true → first_of x y t ≢ above
unfolding first_of
first_of-below true y t e h = cc
first_of-below false y t e h = absurd (true-false (sym e))

first_of-tie : (x y : Bool) (t : Sign) → y ≡ false → t ≢ above → first_of x y t ≢ above
unfolding first_of
first_of-tie true y t e h k = cc
first_of-tie false true t e h k = absurd (true-false e)
first_of-tie false false t e h k = h k

-- A test `<` on a key, then a comparer for jobs with equal keys.
module _ {ℓ κ} {A : Type ℓ} {K : Type κ} (less : K → K → Bool) (key : A → K)
    (tie : A → A → Sign) where
  abbrev lexical : A → A → Sign
  lexical a b = first_of (less (key a) (key b)) (less (key b) (key a)) (tie a b)

  lexical-IsOrder :
      ((a : K) → less a a ≡ false)
      → ((a b c : K) → less a b ≡ true → less b c ≡ true → less a c ≡ true)
      → ((a b c : K) → less a c ≡ true → (less a b ≡ true) ⊎ (less b c ≡ true))
      → IsOrder tie
      → IsOrder lexical
  lexical-IsOrder irrefl trans split ordered = record { flips = flips; chains = chains }
    where
      once : (a b : K) → less a b ≡ true → less b a ≡ true → ⊥
      once a b h k = true-false (sym (trans a b a h k) ∙ irrefl a)

      flips : (a b : A) → lexical a b ≡ flip (lexical b a)
      flips a b = first_of-flip _ _ _ _ (once (key a) (key b)) (ordered.flips a b)

      chains : (a b c : A) → lexical a b ≢ above → lexical b c ≢ above → lexical a c ≢ above
      chains a b c p q = elim (first_of-cases _ _ _ p) [
        | inl ab ↦ elim (first_of-cases _ _ _ q) [
          | inl bc ↦ first_of-below _ _ _ (trans (key a) (key b) (key c) ab bc)
          | inr tied ↦ elim (split (key a) (key c) (key b) ab) [
            | inl ac ↦ first_of-below _ _ _ ac
            | inr cb ↦ absurd (true-false (sym cb ∙ tied.1))
          ]
        ]
        | inr tied ↦ elim (first_of-cases _ _ _ q) [
          | inl bc ↦ elim (split (key b) (key a) (key c) bc) [
            | inl ba ↦ absurd (true-false (sym ba ∙ tied.1))
            | inr ac ↦ first_of-below _ _ _ ac
          ]
          | inr tied' ↦ elim (Bool-cases (less (key c) (key a))) [
            | inl ca ↦ elim (split (key c) (key b) (key a) ca) [
              | inl cb ↦ absurd (true-false (sym cb ∙ tied'.1))
              | inr ba ↦ absurd (true-false (sym ba ∙ tied.1))
            ]
            | inr later ↦ first_of-tie _ _ _ later (ordered.chains a b c tied.2 tied'.2)
          ]
        ]
      ]

pub ltb_irrefl : (a : ℕ) → ltb a a ≡ false
ltb_irrefl a = ge→ltb a a (omega arith)

pub ltb_trans : (a b c : ℕ) → ltb a b ≡ true → ltb b c ≡ true → ltb a c ≡ true
ltb_trans a b c h k = lt→ltb a c (omega (arith, ltb→lt a b h, ltb→lt b c k))

pub ltb_split : (a b c : ℕ) → ltb a c ≡ true → (ltb a b ≡ true) ⊎ (ltb b c ≡ true)
ltb_split a b c h = ground arith

module _ (num : Doubles) where
  same-IsOrder : IsOrder {A = JobInfo num} (λ a b. same)
  same-IsOrder = record { flips = λ a b. refl; chains = λ a b c p q. p }

  fcfs-IsOrder : IsOrder (comparer_fcfs num)
  unfolding comparer_fcfs
  fcfs-IsOrder =
      lexical-IsOrder num.less (λ j. j.arrival_time) (λ a b. same) num.less_irrefl num.less_trans
        num.less_split same-IsOrder

  pri-IsOrder : IsOrder (comparer_pri num)
  unfolding comparer_pri break_tie
  pri-IsOrder =
      lexical-IsOrder ltb (λ j. j.priority) (comparer_fcfs num) ltb_irrefl ltb_trans ltb_split
        fcfs-IsOrder

  -- The comparer of every scheme is a total order of jobs, in which different jobs can be equal:
  -- exchanging its arguments changes the sign, and not above is transitive.
  pub comparer-IsOrder : (s : Scheme) → IsOrder (comparer num s)
  unfolding comparer comparer_ppri comparer_psrtf comparer_rr comparer_sjf break_tie
  comparer-IsOrder fcfs = fcfs-IsOrder
  comparer-IsOrder pri = pri-IsOrder
  comparer-IsOrder ppri = pri-IsOrder
  comparer-IsOrder psrtf =
      lexical-IsOrder num.less (λ j. num.minus j.runtime j.used_time) (comparer_fcfs num)
        num.less_irrefl num.less_trans num.less_split fcfs-IsOrder
  comparer-IsOrder rr =
      lexical-IsOrder num.less (λ j. j.rr_time) (λ a b. same) num.less_irrefl num.less_trans
        num.less_split same-IsOrder
  comparer-IsOrder sjf =
      lexical-IsOrder num.less (λ j. j.runtime) (comparer_fcfs num) num.less_irrefl num.less_trans
        num.less_split fcfs-IsOrder
