-- ===== src/MapReduce/Examples.antt =====
-- The theorems on mapreduce at concrete files and histories.
use system_programming.Base.{some, ℕ, ◌≡◌, List, [], ◌∷◌, arith}
use system_programming.Clib.Ascii.{ascii}
use system_programming.Clib.Strings.{equals}
use system_programming.Clib.Decimal.{decimal, digits}
use system_programming.MapReduce.Core.Datastore.{Datastore, datastore_init, datastore_get}
use system_programming.MapReduce.Core.Datastore.Contract.{
  Change, puts, updates, changes, spec, specs, changes-specs,
}
use system_programming.MapReduce.Core.Mapper.{run_mapper_on_fds, asciicount}
use system_programming.MapReduce.Core.Reducer.{sum, reduce_input}
use system_programming.MapReduce.Core.Composed.{occurrences, asciicount-sum}
use system_programming.MapReduce.Splitter.{portions, portions-whole}

abbrev small_file : List ℕ
small_file = b'a' ∷ b'\n' ∷ b'b' ∷ b'c' ∷ b'\n' ∷ b'd' ∷ []

portions-whole_example : portions small_file 3 3 ≡ small_file
portions-whole_example = portions-whole small_file 3 (omega arith) (omega arith)

abbrev key : List ℕ
key = b'k' ∷ []

abbrev history : List Change
history = puts key (b'1' ∷ []) ∷ updates key (b'2' ∷ []) ∷ puts key (b'3' ∷ []) ∷ []

changes-specs_example :
    (datastore_get (changes history datastore_init).0 key ≡ some (b'2' ∷ []))
    × ((changes history datastore_init).1 ≡ 1 ∷ 1 ∷ 0 ∷ [])
unfolding specs spec equals
changes-specs_example = changes-specs history key

-- "Ab a", where the letter `a` stands twice.
abbrev text : List ℕ
text = b'A' ∷ b'b' ∷ b' ' ∷ b'a' ∷ b'\n' ∷ []

asciicount-sum_example :
    (pairs : List ℕ) × (ds : Datastore) × (run_mapper_on_fds (asciicount ascii) text ≡ some pairs)
    × (reduce_input sum pairs ≡ some ds)
    × (datastore_get ds (b'a' ∷ []) ≡ some (b'2' ∷ []))
unfolding occurrences decimal digits
asciicount-sum_example =
    asciicount-sum ascii text b'a' (λ e. cc, (λ e. cc, (λ e. cc, (λ e. cc, (λ e. cc, tt)))))
      (omega arith)
