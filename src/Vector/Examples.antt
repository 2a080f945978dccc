-- ===== src/Vector/Examples.antt =====
-- The theorems on vector/vector.c at concrete vectors and calls.
use system_programming.Base.{ℕ, ◌+◌, ◌^◌, ◌≡◌, refl, List, [], ◌∷◌, none, some, arith}
use system_programming.Vector.Capacity.{
  double_until, double_until_diverges, get_new_capacity, get_new_capacity-IsCapacity, IsCapacity,
}
use system_programming.Vector.Defs.{Vector, create}
use system_programming.Vector.Contents.{IsVector, create-IsVector}
use system_programming.Vector.Sstring.{Sstring, sstring_substitute}
use system_programming.Vector.Sstring.Substitute.{Substituted, sstring_substitute-Substituted}
use system_programming.Vector.Refinement.{
  Call, pushes, pops, inserts, erases, sets, View, calls, spec, specs, Shows, calls-refine,
}

abbrev greeting : Sstring
greeting = record { source = b'a' ∷ b'x' ∷ b'b' ∷ []; len = 3 }

sstring_substitute-Substituted_example :
    Substituted greeting 1
      (b'x' ∷ [])
      (b'y' ∷ b'z' ∷ [])
      (sstring_substitute greeting 1 (b'x' ∷ []) (b'y' ∷ b'z' ∷ []))
sstring_substitute-Substituted_example =
    sstring_substitute-Substituted greeting 1 (b'x' ∷ []) (b'y' ∷ b'z' ∷ []) refl (omega arith)
      (omega arith) (omega arith)

abbrev same_number : ℕ → ℕ
same_number n = n

abbrev some_calls : List (Call ℕ)
some_calls = pushes 3 ∷ pushes 5 ∷ inserts 1 4 ∷ sets 0 7 ∷ erases 1 ∷ pops ∷ []

abbrev fresh_view : View ℕ
fresh_view = ([], [])

fresh_Shows : Shows (create {A = ℕ}) fresh_view
unfolding create
fresh_Shows = record { elements = create-IsVector; log = refl }

run_of_specs : specs same_number some_calls fresh_view ≡ some (7 ∷ [], 5 ∷ 4 ∷ 3 ∷ [])
unfolding specs spec
run_of_specs = refl

calls-refine_example :
    (w : Vector ℕ) × (calls same_number some_calls create ≡ some w)
    × Shows w (7 ∷ [], 5 ∷ 4 ∷ 3 ∷ [])
calls-refine_example =
    calls-refine same_number some_calls create fresh_view (7 ∷ [], 5 ∷ 4 ∷ 3 ∷ []) fresh_Shows
      (omega arith) run_of_specs

get_new_capacity-IsCapacity_example : (c : ℕ) × (get_new_capacity 9 ≡ some c) × IsCapacity 9 c
get_new_capacity-IsCapacity_example = get_new_capacity-IsCapacity 9 (omega arith)

double_until_diverges_example : double_until 100 (2 ^ 63 + 1) 1 ≡ none
double_until_diverges_example = double_until_diverges 100 (2 ^ 63 + 1) (omega arith)

abbrev three : Vector ℕ
three = record {
  array = some 1 ∷ some 2 ∷ some 3 ∷ none ∷ [];
  size = 3;
  capacity = 4;
  destroyed = [];
}

three-IsVector : IsVector three (1 ∷ 2 ∷ 3 ∷ [])
three-IsVector = record {
  block = record { spare = none ∷ []; filled = refl; counted = refl; bounded = omega arith };
  size = refl;
}
