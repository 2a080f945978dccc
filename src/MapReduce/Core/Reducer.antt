-- ===== src/MapReduce/Core/Reducer.antt =====
-- mapreduce/core/reducer.c and utils.c, and mapreduce/reducers/sum.c.
pub mod Pairs
pub mod Sums
use system_programming.Base.{
  ℕ, zero, suc, ◌+◌, ◌≡◌, List, [], ◌∷◌, ◌++◌, Bool, true, false, ltb, ◌==◌, ◌*◌, ◌^◌,
  if◌then◌else◌, Option, none, some, length, c_string, set, drop, ◌>>=◌,
}
use system_programming.Clib.Strings.{newline, split_line, strstr}
use system_programming.Clib.Decimal.{decimal, atoi}
use system_programming.Vector.Defs.{to_int}
use system_programming.MapReduce.Core.Datastore.{
  Datastore, datastore_init, datastore_put, datastore_get, datastore_update, datastore_iterate,
}

abbrev pub separator : List ℕ
separator = b':' ∷ b' ' ∷ []

-- Both places found: the key and the value, where two bytes of the line became NUL.
unfoldable pub cut_line : List ℕ → Option ℕ → Option ℕ → Option (List ℕ × List ℕ)
cut_line line none end = none
cut_line line (some split) none = none
cut_line line (some split) (some end) =
    let l = set (set line split 0) end 0 in some (c_string l, c_string (drop (split + 2) l))

-- int split_key_value(char *line, char **key, char **value), where 0 is `none`.
unfoldable pub split_key_value : List ℕ → Option (List ℕ × List ℕ)
split_key_value line = cut_line line (strstr separator line) (strstr (newline ∷ []) line)

-- The reducer of sum.c: `none` where the sum does not fit an `int`.
unfoldable pub sum : List ℕ → List ℕ → Option (List ℕ)
sum value1 value2 = do
  count1 ← atoi value1
  count2 ← atoi value2
  total ← to_int (count1 + count2)
  some (decimal total)

-- print_ds.
unfoldable pub print_ds : List ℕ → List ℕ → List ℕ → List ℕ
print_ds key value out = out ++ (key ++ (separator ++ (value ++ newline ∷ [])))

module _ (func : List ℕ → List ℕ → Option (List ℕ)) where
  -- The body of the loop for a key and a value: `curr_val` is what the store has for the key.
  unfoldable pub combine : Datastore → List ℕ → List ℕ → Option (List ℕ) → Option Datastore
  combine ds key value none = some (datastore_put ds key value).0
  combine ds key value (some curr_val) = do
    new_value ← func curr_val value
    some (datastore_update ds key new_value).0

  -- `continue` for a line that is malformed.
  unfoldable pub reduce_pair : Datastore → Option (List ℕ × List ℕ) → Option Datastore
  reduce_pair ds none = some ds
  reduce_pair ds (some (key, value)) = combine ds key value (datastore_get ds key)

  -- The loop of run_reducer_on over getline; out of fuel is `none`.
  unfoldable pub reduce_lines : ℕ → List ℕ → Datastore → Option Datastore
  reduce_lines zero input ds = none
  reduce_lines (suc fuel) [] ds = some ds
  reduce_lines (suc fuel) (c ∷ cs) ds = do
    let (line, rest) = split_line (c ∷ cs)
    ds' ← reduce_pair ds (split_key_value (c_string line))
    reduce_lines fuel rest ds'

  -- The store after the loop; every round takes a byte at least.
  unfoldable pub reduce_input : List ℕ → Option Datastore
  reduce_input input = reduce_lines (suc (length input)) input datastore_init

  -- What run_reducer_on writes.
  unfoldable pub run_reducer_on : List ℕ → Option (List ℕ)
  run_reducer_on input = do ds ← reduce_input input; some (datastore_iterate ds print_ds [])
