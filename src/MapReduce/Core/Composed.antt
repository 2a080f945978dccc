-- ===== src/MapReduce/Core/Composed.antt =====
-- The mapper of mapreduce/mappers/asciicount.c, its output given to the reducer of
-- mapreduce/reducers/sum.c.
use system_programming.Base.{
  ℕ, suc, ◌≡◌, ◌<◌, ◌≤◌, ◌^◌, ◌≢◌, refl, sym, ap, ◌∙◌, List, [], ◌∷◌, true, false, Bool-cases, inl,
  inr, ◌==◌, if◌then◌else◌, some, length, arith,
}
use system_programming.Clib.Strings.{newline, equals}
use system_programming.Clib.Ctype.{Ctype}
use system_programming.MapReduce.Core.Datastore.{Datastore, datastore_get}
use system_programming.MapReduce.Core.Mapper.{run_mapper_on_fds, asciicount, one_pairs}
use system_programming.MapReduce.Core.Mapper.Letters.{NoNul, letters, run_mapper_on_fds-letters}
use system_programming.MapReduce.Core.Reducer.{sum, reduce_input}
use system_programming.MapReduce.Core.Reducer.Sums.{AreKeys, tally, shown, reduce_input-Counts}

true-false : true ≢ false
true-false e = cc

module _ (ctype : Ctype) where
  open ctype use {is_alpha, to_lower, alpha_nul, alpha_colon, alpha_newline, upper_lower}

  not_alpha : (c d : ℕ) → is_alpha c ≡ true → is_alpha d ≡ false → c ≢ d
  not_alpha c d h k e = true-false (sym h ∙ ap is_alpha e ∙ k)

  letters-AreKeys : (s : List ℕ) → AreKeys (letters ctype s)
  unfolding letters
  letters-AreKeys [] = tt
  letters-AreKeys (c ∷ s) = elim (Bool-cases (is_alpha c)) [
    | inr other ↦ rw other (letters-AreKeys s)
    | inl letter ↦
        let low = upper_lower c letter in
        rw letter (
          (
            not_alpha _ 0 low alpha_nul,
            not_alpha _ newline low alpha_newline,
            not_alpha _ b':' low alpha_colon,
            tt,
          ),
          letters-AreKeys s,
        )
  ]

  length-letters : (s : List ℕ) → length (letters ctype s) ≤ length s
  unfolding letters
  length-letters [] = omega arith
  length-letters (c ∷ s) = elim (Bool-cases (is_alpha c)) [
    | inl letter ↦ rw letter (omega (arith, length-letters s))
    | inr other ↦ rw other (omega (arith, length-letters s))
  ]

  -- How many letters of the text are the given one, in lower case.
  unfoldable pub occurrences : ℕ → List ℕ → ℕ
  occurrences d [] = 0
  occurrences d (c ∷ s) =
      let rest = occurrences d s in
      if is_alpha c then (if d == to_lower c then suc rest else rest) else rest

  tally-occurrences : (d : ℕ) (s : List ℕ) → tally (d ∷ []) (letters ctype s) ≡ occurrences d s
  unfolding letters occurrences equals
  tally-occurrences d [] = refl
  tally-occurrences d (c ∷ s) = elim (Bool-cases (is_alpha c)) [
    | inr other ↦ rw other (tally-occurrences d s)
    | inl letter ↦ elim (Bool-cases (d == to_lower c)) [
      | inl same ↦ rw (letter, same) (ap suc (tally-occurrences d s))
      | inr differs ↦ rw (letter, differs) (tally-occurrences d s)
    ]
  ]

  -- For an input of fewer than 2^31 bytes without NUL, the mapper asciicount runs to its end, the
  -- reducer sum runs to its end on what the mapper wrote, and for every byte the data store of the
  -- reducer then holds, in decimal, how many letters of the input are that byte in lower case, or
  -- nothing where there is none.
  pub asciicount-sum :
      (input : List ℕ) (d : ℕ)
      → NoNul input
      → length input < 2 ^ 31
      → (pairs : List ℕ) × (ds : Datastore) × (run_mapper_on_fds (asciicount ctype) input
          ≡ some pairs)
        × (reduce_input sum pairs ≡ some ds)
        × (datastore_get ds (d ∷ []) ≡ shown (occurrences d input))
  asciicount-sum input d o small =
      let ks = letters ctype input in
      let (ds, ran, counts) =
        reduce_input-Counts ks (letters-AreKeys input) (omega (arith, length-letters input)) in
      (
        one_pairs ks,
        ds,
        run_mapper_on_fds-letters ctype input o,
        ran,
        counts (d ∷ []) ∙ ap shown (tally-occurrences d input),
      )
