-- ===== src/Vector/Cells.antt =====
-- The block of `void *` cells behind `this->array` in vector/vector.c. A cell that was allocated
-- and never written is `none`; reading one, or any access outside the block, is a fault.
use system_programming.Base.{
  ℕ, zero, suc, ◌+◌, ◌-◌, List, ◌∷◌, ◌++◌, Option, none, some, ltb, if◌then◌else◌, length,
  get_elem?, set, take, replicate, ◌>>=◌,
}

abbrev pub Cells {ℓ} : Type ℓ → Type ℓ
Cells A = List (Option A)

module _ {ℓ} {A : Type ℓ} where
  abbrev pub written : Option (Option A) → Option A
  written none = none
  written (some c) = c

  -- `*(array + i)` as a value.
  unfoldable pub load : Cells A → ℕ → Option A
  load m i = written (get_elem? m i)

  -- `*(array + i) = a`.
  unfoldable pub store : Cells A → ℕ → A → Option (Cells A)
  store m i a = if ltb i (length m) then some (set m i (some a)) else none

  -- `realloc` to `n` cells: the common part is kept, and what is new was never written.
  unfoldable pub realloc : ℕ → Cells A → Cells A
  realloc n m = take n m ++ replicate (n - length m) none

  -- for (i = from + rounds - 1; i >= from; i--) destructor(array[i]): the handles that were
  -- destroyed, the last one first.
  unfoldable pub destroy_down : ℕ → ℕ → Cells A → List A → Option (List A)
  destroy_down from zero m log = some log
  destroy_down from (suc k) m log = do a ← load m (from + k); destroy_down from k m (a ∷ log)

  -- for (i = from; i < from + rounds; i++) destructor(array[i]).
  unfoldable pub destroy_up : ℕ → ℕ → Cells A → List A → Option (List A)
  destroy_up from zero m log = some log
  destroy_up from (suc k) m log = do a ← load m from; destroy_up (from + 1) k m (a ∷ log)

  -- for (i = from; i < from + rounds; i++) array[i] = a.
  unfoldable pub fill : ℕ → ℕ → A → Cells A → Option (Cells A)
  fill from zero a m = some m
  fill from (suc k) a m = do m' ← store m from a; fill (from + 1) k a m'

  -- for (i = position + rounds; i > position; i--) array[i] = array[i - 1].
  unfoldable pub shift_up : ℕ → ℕ → Cells A → Option (Cells A)
  shift_up position zero m = some m
  shift_up position (suc k) m = do
    a ← load m (position + k)
    m' ← store m (position + k + 1) a
    shift_up position k m'

  -- for (i = position; i < position + rounds; i++) array[i] = array[i + 1].
  unfoldable pub shift_down : ℕ → ℕ → Cells A → Option (Cells A)
  shift_down position zero m = some m
  shift_down position (suc k) m = do
    a ← load m (position + 1)
    m' ← store m position a
    shift_down (position + 1) k m'
