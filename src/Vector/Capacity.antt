-- ===== src/Vector/Capacity.antt =====
-- get_new_capacity of vector/vector.c: `size_t` doubling, with its wrap-around at 2^64.
use native.Mathlib.Nat.{pow-suc, pow-succ', mul_assoc}
use system_programming.Base.{
  ℕ, zero, suc, ◌+◌, ◌*◌, ◌%◌, ◌^◌, ◌≤◌, ◌<◌, ◌≡◌, refl, ◌⊎◌, inl, inr, true, Option, if◌then◌else◌,
  none, some, ltb, Bool-cases, ltb→lt, ltb→ge, lt→ltb, arith, sym, ap, ◌∙◌,
}

abbrev pub size_mod : ℕ
size_mod = 2 ^ 64

-- while (new_capacity < target) new_capacity *= GROWTH_FACTOR; `none` when the fuel runs out.
unfoldable pub double_until : ℕ → ℕ → ℕ → Option ℕ
double_until zero target capacity = none
double_until (suc fuel) target capacity =
    let rest = double_until fuel target (capacity * 2 % size_mod) in
    if ltb capacity target then rest else some capacity

-- After 64 doublings the capacity is 0 for ever, so 65 rounds decide whether the loop ends.
unfoldable pub get_new_capacity : ℕ → Option ℕ
get_new_capacity target = double_until 65 target 1

-- What the loop must return: a power of two that covers the target and is below its double.
pub record IsCapacity (target capacity : ℕ) : Type 0 where
  pub exponent : ℕ
  pub power : capacity ≡ 2 ^ exponent
  pub covers : target ≤ capacity
  pub tight : (capacity ≡ 1) ⊎ (capacity < 2 * target)

loop-IsCapacity :
    (fuel e target capacity : ℕ)
    → e + fuel ≡ 65
    → capacity ≡ 2 ^ e
    → capacity < size_mod
    → (capacity ≡ 1) ⊎ (capacity < 2 * target)
    → target ≤ 2 ^ 63
    → (c : ℕ) × (double_until fuel target capacity ≡ some c) × IsCapacity target c
unfolding double_until
loop-IsCapacity zero e target capacity sum power small tight fits =
    let last : e ≡ 65 = omega arith in absurd (omega (arith, power ∙ ap (◌^◌ 2) last))
loop-IsCapacity (suc fuel) e target capacity sum power small tight fits =
    elim (Bool-cases (ltb capacity target)) [
      | inl more ↦
          let lt = ltb→lt capacity target more in
          let whole : capacity * 2 % size_mod ≡ capacity * 2 = omega arith in
          rw (more, whole)
            (loop-IsCapacity fuel (suc e) target (capacity * 2) (omega arith)
              (ap (λ (t : ℕ). t * 2) power ∙ sym (pow-suc 2 e)) (omega arith) (inr (omega arith))
              fits)
      | inr done ↦ rw done (
        capacity,
        refl,
        record { exponent = e; power = power; covers = ltb→ge capacity target done; tight = tight },
      )
    ]

-- For a target of at most 2^63 the loop of get_new_capacity returns a power of two that covers the
-- target, and is 1 or below twice the target.
pub get_new_capacity-IsCapacity :
    (target : ℕ)
    → target ≤ 2 ^ 63
    → (c : ℕ) × (get_new_capacity target ≡ some c) × IsCapacity target c
unfolding get_new_capacity
get_new_capacity-IsCapacity target fits =
    loop-IsCapacity 65 0 target 1 refl refl (omega arith) (inl refl) fits

two_pow_pos : (k : ℕ) → 0 < 2 ^ k
two_pow_pos zero = omega arith
two_pow_pos (suc k) = rw (pow-suc 2 k) (omega (arith, two_pow_pos k))

stuck-none : (fuel target : ℕ) → 0 < target → double_until fuel target 0 ≡ none
unfolding double_until
stuck-none zero target h = refl
stuck-none (suc fuel) target h = rw (lt→ltb 0 target h) (stuck-none fuel target h)

half-le : (capacity k : ℕ) → capacity * 2 ^ suc k ≡ size_mod → capacity ≤ 2 ^ 63
half-le capacity k e =
    let e' : capacity * (2 ^ k * 2) ≡ size_mod =
      ap (λ (t : ℕ). capacity * t) (sym (pow-suc 2 k)) ∙ e in
    grind (arith, two_pow_pos k)

double-whole :
    (capacity k : ℕ)
    → capacity * 2 ^ suc (suc k) ≡ size_mod
    → capacity * 2 % size_mod * 2 ^ suc k ≡ size_mod
double-whole capacity k e =
    let regrouped : capacity * 2 * 2 ^ suc k ≡ size_mod =
      mul_assoc capacity 2 (2 ^ suc k)
      ∙ ap (λ (t : ℕ). capacity * t) (sym (pow-succ' 2 (suc k)))
      ∙ e in
    let whole : capacity * 2 % size_mod ≡ capacity * 2 =
      omega (arith, half-le (capacity * 2) k regrouped) in
    rw whole regrouped

diverges_from :
    (fuel k target capacity : ℕ)
    → capacity * 2 ^ suc k ≡ size_mod
    → 2 ^ 63 < target
    → double_until fuel target capacity ≡ none
unfolding double_until
diverges_from zero k target capacity e big = refl
diverges_from (suc fuel) zero target capacity e big =
    let wraps : capacity * 2 % size_mod ≡ 0 = omega arith in
    let below : ltb capacity target ≡ true =
      lt→ltb capacity target (omega (arith, half-le capacity 0 e)) in
    rw (below, wraps) (stuck-none fuel target (omega arith))
diverges_from (suc fuel) (suc k) target capacity e big =
    let below : ltb capacity target ≡ true =
      lt→ltb capacity target (omega (arith, half-le capacity (suc k) e)) in
    rw below (diverges_from fuel k target (capacity * 2 % size_mod) (double-whole capacity k e) big)

-- For a target above 2^63 the loop of get_new_capacity ends for no number of rounds.
pub double_until_diverges : (fuel target : ℕ) → 2 ^ 63 < target → double_until fuel target 1 ≡ none
double_until_diverges fuel target big = diverges_from fuel 63 target 1 refl big
