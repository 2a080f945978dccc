-- ===== src/Vector/Defs.antt =====
-- The struct of vector/vector.c and its operations. The callbacks are parameters: `copy` is what
-- the copy constructor returns and `fresh` what the default constructor returns, and the calls of
-- the destructor are recorded in `destroyed`. Allocation is taken to succeed.
use system_programming.Base.{
  ◌<◌, ◌≡◌, lt→ltb, ℕ, ◌+◌, ◌-◌, ◌*◌, ◌/◌, ◌%◌, ◌^◌, Bool, true, false, not, List, [], ◌∷◌, Option,
  none, some, ltb, ◌==◌, if◌then◌else◌, replicate, ◌>>=◌, ◌>>◌, guard,
}
use system_programming.Vector.Cells.{
  Cells, load, store, realloc, destroy_down, destroy_up, fill, shift_up, shift_down,
}
use system_programming.Vector.Capacity.{size_mod, get_new_capacity}

pub record Vector {ℓ} (A : Type ℓ) : Type ℓ where
  pub array : Cells A
  pub size : ℕ
  pub capacity : ℕ
  -- What the destructor was called on, the latest first.
  pub destroyed : List A

abbrev pub initial_capacity : ℕ
initial_capacity = 8

-- A conversion of `size_t` to `int`, a fault where the value does not fit.
unfoldable pub to_int : ℕ → Option ℕ
to_int n = if ltb n (2 ^ 31) then some n else none

pub to_int-fits : (n m : ℕ) → n ≡ m → m < 2 ^ 31 → to_int n ≡ some m
unfolding to_int
to_int-fits n m e small = rw (e, lt→ltb m (2 ^ 31) small)

module _ {ℓ} {A : Type ℓ} where
  unfoldable pub create : Vector A
  create = record {
    array = replicate initial_capacity none;
    size = 0;
    capacity = initial_capacity;
    destroyed = [];
  }

  -- The handles that the destructor was called on, when the struct is freed.
  unfoldable pub destroy : Vector A → Option (List A)
  destroy v = destroy_up 0 v.size v.array v.destroyed

  -- `this->array = realloc(this->array, new_capacity * sizeof(void*))`, in bytes modulo 2^64.
  unfoldable pub reallocate : ℕ → Vector A → Vector A
  reallocate c v = record v { array = realloc (c * 8 % size_mod / 8) v.array; capacity = c }

  -- The branch `if(n > this->capacity)` of resize, reserve, push_back and insert.
  unfoldable pub reserve : Vector A → ℕ → Option (Vector A)
  reserve v n =
      if ltb v.capacity n then (do c ← get_new_capacity n; some (reallocate c v)) else some v

  unfoldable pub is_empty : Vector A → Bool
  is_empty v = if not (v.size == 0) then false else true

  unfoldable pub get : Vector A → ℕ → Option A
  get v position = load v.array position

  unfoldable pub shrink : Vector A → ℕ → Option (Vector A)
  shrink v n = do
    top ← to_int v.size
    bottom ← to_int n
    log ← destroy_down bottom (top - bottom) v.array v.destroyed
    some (record v { destroyed = log; size = n })

  unfoldable pub resize : A → Vector A → ℕ → Option (Vector A)
  resize fresh v n =
      if ltb n v.size
      then shrink v n
      else if ltb v.size n
      then (do
        v' ← reserve v n
        m ← fill v.size (n - v.size) fresh v'.array
        some (record v' { array = m; size = n }))
      else some (record v { size = n })

  unfoldable pub put : (A → A) → Vector A → ℕ → A → Option (Vector A)
  put copy v position element = do
    old ← load v.array position
    m ← store v.array position (copy element)
    some (record v { array = m; destroyed = old ∷ v.destroyed })

  unfoldable pub push_back : (A → A) → Vector A → A → Option (Vector A)
  push_back copy v element = do
    let n = (v.size + 1) % size_mod
    v' ← reserve (record v { size = n }) n
    m ← store v'.array ((n + size_mod - 1) % size_mod) (copy element)
    some (record v' { array = m })

  unfoldable pub pop_back : Vector A → Option (Vector A)
  pop_back v = do
    let n = (v.size + size_mod - 1) % size_mod
    old ← load v.array n
    some (record v { size = n; destroyed = old ∷ v.destroyed })

  unfoldable pub insert : (A → A) → Vector A → ℕ → A → Option (Vector A)
  insert copy v position element = do
    let n = (v.size + 1) % size_mod
    v' ← reserve (record v { size = n }) n
    m ← shift_up position ((n + size_mod - 1) % size_mod - position) v'.array
    m' ← store m position (copy element)
    some (record v' { array = m' })

  unfoldable pub erase : Vector A → ℕ → Option (Vector A)
  erase v position = do
    guard (ltb position v.size)
    old ← load v.array position
    m ← shift_down position (v.size - 1 - position) v.array
    some (record v { array = m; size = v.size - 1; destroyed = old ∷ v.destroyed })

  unfoldable pub clear : Vector A → Option (Vector A)
  clear v = do
    log ← destroy_up 0 v.size v.array v.destroyed
    some (record v { size = 0; destroyed = log })
