-- ===== src/Clib/Ints.antt =====
-- (int) of a size_t, as the programs use it to end a loop that counts from 0.
use system_programming.Base.{
  ℕ, ◌%◌, ◌^◌, ◌<◌, ◌≡◌, ltb, if◌then◌else◌, length, List, take, take-all, arith,
}

-- The rounds of `for (int i = 0; i < (int)n; i++)`: the low 32 bits of n, and none where these stand for
-- a negative number.
unfoldable pub int_bound : ℕ → ℕ
int_bound n = if ltb (n % 2 ^ 32) (2 ^ 31) then n % 2 ^ 32 else 0

pub int_bound-small : (n : ℕ) → n < 2 ^ 31 → int_bound n ≡ n
unfolding int_bound
int_bound-small n h = ground (arith, h)

pub take-int_bound {ℓ} :
    {A : Type ℓ} (xs : List A) → length xs < 2 ^ 31 → take (int_bound (length xs)) xs ≡ xs
take-int_bound xs h = take-all (int_bound (length xs)) xs (int_bound-small (length xs) h)
