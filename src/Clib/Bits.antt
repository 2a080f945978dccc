-- ===== src/Clib/Bits.antt =====
-- The operator `|` on numbers without a common bit.
use Prim.Native.Nat.{bit_or, bit_or-bitwise, max, digits}
use system_programming.Base.{ℕ, zero, suc, ◌+◌, ◌*◌, ◌/◌, ◌^◌, ◌<◌, ◌≤◌, ◌≡◌, refl, ◌∙◌, arith}

abbrev or_digits : ℕ → ℕ → ℕ → ℕ
or_digits n a b = digits (λ b. b) max n a b

power_suc : (k : ℕ) → 2 ^ suc k ≡ 2 * 2 ^ k
power_suc k = grind arith

doubled : (a k : ℕ) → a * 2 ^ suc k ≡ 2 * (a * 2 ^ k)
doubled a k = grind (arith, power_suc k)

or_digits_disjoint : (n k a x p : ℕ) → x ≡ a * 2 ^ k → x ≤ n → p < 2 ^ k → or_digits n x p ≡ x + p
or_digits_disjoint zero k a zero p e h small = omega arith
or_digits_disjoint (suc n) k a zero p e h small = omega arith
or_digits_disjoint zero k a (suc x) p e h small = absurd (omega arith)
or_digits_disjoint (suc n) zero a (suc x) p e h small = omega (
  arith,
  or_digits_disjoint n zero (suc x / 2) (suc x / 2) (p / 2) (omega arith) (omega arith)
      (omega arith),
)
or_digits_disjoint (suc n) (suc k) a (suc x) p e h small =
    let twice = doubled a k in
    let power = power_suc k in
    omega (
      arith,
      or_digits_disjoint n k a (suc x / 2) (p / 2) (omega (arith, e, twice)) (omega (arith, h))
          (omega (arith, small, power)),
      e,
      twice,
    )

-- A shifted number and what fits below it.
pub bit_or-disjoint : (k a p : ℕ) → p < 2 ^ k → bit_or (a * 2 ^ k) p ≡ a * 2 ^ k + p
bit_or-disjoint k a p small =
    (λ i. bit_or-bitwise (a * 2 ^ k) p i)
    ∙ or_digits_disjoint (a * 2 ^ k) k a (a * 2 ^ k) p refl (omega arith) small
