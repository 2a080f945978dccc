-- ===== src/MapReduce/Core/Reducer/Sums.antt =====
-- The reducer of mapreduce/reducers/sum.c on pairs that count 1 each: the sum for a key is the number
-- of its pairs.
use system_programming.Base.{
  ◌⊎◌, ℕ, zero, suc, ◌+◌, ◌≡◌, ◌<◌, ◌≤◌, ◌^◌, refl, sym, ap, ◌∙◌, subst, List, [], ◌∷◌, ◌++◌,
  append_assoc, append-nil, Bool-cases, inl, inr, if◌then◌else◌, Option, none, some, length,
  length-append, arith,
}
use system_programming.Clib.Strings.{newline, equals, equals_iff}
use system_programming.Clib.Decimal.{digits, atoi, decimal, atoi-decimal}
use system_programming.Vector.Defs.{to_int-fits}
use system_programming.MapReduce.Core.Datastore.{
  dictionary_tfind, Datastore, datastore_init, datastore_get,
}
use system_programming.MapReduce.Core.Datastore.Contract.{get-put, get-update}
use system_programming.MapReduce.Core.Mapper.{one_pair, one_pairs}
use system_programming.MapReduce.Core.Reducer.{
  sum, combine, reduce_pair, reduce_lines, reduce_input,
}
use system_programming.MapReduce.Core.Reducer.Pairs.{IsKey, IsText, reduce_lines-pair}

-- How often a key stands in a list.
abbrev pub tally : List ℕ → List (List ℕ) → ℕ
tally key [] = 0
tally key (k ∷ ks) = let rest = tally key ks in if equals key k then suc rest else rest

tally-append :
    (key : List ℕ) (ks ls : List (List ℕ)) → tally key (ks ++ ls) ≡ tally key ks + tally key ls
tally-append key [] ls = omega arith
tally-append key (k ∷ ks) ls = elim (Bool-cases (equals key k)) [
  | inl same ↦ rw same (omega (arith, tally-append key ks ls))
  | inr other ↦ rw other (tally-append key ks ls)
]

tally-le : (key : List ℕ) (ks : List (List ℕ)) → tally key ks ≤ length ks
tally-le key [] = omega arith
tally-le key (k ∷ ks) = elim (Bool-cases (equals key k)) [
  | inl same ↦ rw same (omega (arith, tally-le key ks))
  | inr other ↦ rw other (omega (arith, tally-le key ks))
]

-- What the store has for a key with this count.
abbrev pub shown : ℕ → Option (List ℕ)
shown zero = none
shown (suc n) = some (decimal (suc n))

-- The store counts the keys.
abbrev pub Counts : Datastore → List (List ℕ) → Type 0
Counts ds ks = (key : List ℕ) → datastore_get ds key ≡ shown (tally key ks)

abbrev one_text : List ℕ
one_text = b'1' ∷ []

one_decimal : decimal 1 ≡ one_text
unfolding decimal digits
one_decimal = refl

sum-one : (n : ℕ) → n + 1 < 2 ^ 31 → sum (decimal n) one_text ≡ some (decimal (n + 1))
unfolding sum
sum-one n h =
    let one = ap atoi (sym one_decimal) ∙ atoi-decimal 1 in
    rw (atoi-decimal n, one, to_int-fits (n + 1) (n + 1) refl h)

counted :
    (key j : List ℕ) (ks : List (List ℕ))
    → tally j (ks ++ key ∷ []) ≡ (if equals j key then tally key ks + 1 else tally j ks)
counted key j ks = ground (arith, tally-append j ks (key ∷ []), equals_iff j key)

nat_cases : (n : ℕ) → (n ≡ 0) ⊎ ((m : ℕ) × (n ≡ suc m))
nat_cases zero = inl refl
nat_cases (suc m) = inr (m, refl)

-- The store that has the next count for a key.
Counts-snoc :
    (ds ds' : Datastore) (ks : List (List ℕ)) (key : List ℕ)
    → Counts ds ks
    → ((j : List ℕ)
        → datastore_get ds' j
          ≡ (if equals j key then some (decimal (tally key ks + 1)) else datastore_get ds j))
    → Counts ds' (ks ++ key ∷ [])
Counts-snoc ds ds' ks key c h j = elim (Bool-cases (equals j key)) [
  | inl same ↦
      let next : tally key ks + 1 ≡ suc (tally key ks) = omega arith in
      h j ∙ rw (counted key j ks, same, next)
  | inr other ↦ h j ∙ rw (counted key j ks, other) (c j)
]

-- A pair with the key raises its count.
reduce_pair-Counts :
    (ds : Datastore) (ks : List (List ℕ)) (key : List ℕ)
    → Counts ds ks
    → length ks + 1 < 2 ^ 31
    → (ds' : Datastore) × (reduce_pair sum ds (some (key, one_text)) ≡ some ds')
      × Counts ds' (ks ++ key ∷ [])
unfolding reduce_pair combine
reduce_pair-Counts ds ks key c small = elim (nat_cases (tally key ks)) [
  | inl none_yet ↦
      let absent : datastore_get ds key ≡ none = c key ∙ ap shown none_yet in
      let one : decimal (tally key ks + 1) ≡ one_text =
        ap (λ n. decimal (n + 1)) none_yet ∙ one_decimal in
      rw absent
        (_, refl, Counts-snoc ds _ ks key c (λ j. rw one (get-put ds key one_text j absent)))
  | inr (m, some_yet) ↦
      let there : datastore_get ds key ≡ some (decimal (tally key ks)) = c key ∙ rw some_yet in
      let added = sum-one (tally key ks) (omega (arith, tally-le key ks)) in
      rw (there, added)
        (
          _,
          refl,
          Counts-snoc ds _ ks key c (λ j.
              get-update ds key (decimal (tally key ks + 1)) (decimal (tally key ks)) j there),
        )
]

abbrev pub AreKeys : List (List ℕ) → Type 0
AreKeys [] = Unit {0}
AreKeys (k ∷ ks) = IsKey k × AreKeys ks

one_text-IsText : IsText one_text
one_text-IsText = ((λ e. cc), (λ e. cc), tt)

reduce_lines-Counts :
    (fuel : ℕ) (ds : Datastore) (done ks : List (List ℕ))
    → Counts ds done
    → AreKeys ks
    → length done + length ks < 2 ^ 31
    → length ks < fuel
    → (ds' : Datastore) × (reduce_lines sum fuel (one_pairs ks) ds ≡ some ds')
      × Counts ds' (done ++ ks)
unfolding one_pairs one_pair
reduce_lines-Counts zero ds done ks c keys small enough = absurd (omega arith)
reduce_lines-Counts (suc fuel) ds done [] c keys small enough =
    (ds, unfold reduce_lines in refl, subst (Counts ds) (sym (append-nil done)) c)
reduce_lines-Counts (suc fuel) ds done (k ∷ ks) c keys small enough =
    let (ds', ran, c') = reduce_pair-Counts ds done k c (omega arith) in
    let (ds'', rest, c'') =
      reduce_lines-Counts fuel ds' (done ++ k ∷ []) ks c' keys.1
        (omega (arith, length-append done (k ∷ []))) (omega arith) in
    (
      ds'',
      reduce_lines-pair sum fuel k one_text (one_pairs ks) ds keys.0 one_text-IsText ∙ rw ran rest,
      subst (Counts ds'') (append_assoc done (k ∷ []) ks) c'',
    )

length-one_pairs : (ks : List (List ℕ)) → length ks ≤ length (one_pairs ks)
unfolding one_pairs one_pair
length-one_pairs [] = omega arith
length-one_pairs (k ∷ ks) = omega (
  arith,
  length-one_pairs ks,
  length-append (one_pair k) (one_pairs ks),
  length-append k (b':' ∷ b' ' ∷ one_text ++ newline ∷ []),
)

-- Reading pairs that count 1 each, the reducer counts the keys.
pub reduce_input-Counts :
    (ks : List (List ℕ))
    → AreKeys ks
    → length ks < 2 ^ 31
    → (ds : Datastore) × (reduce_input sum (one_pairs ks) ≡ some ds) × Counts ds ks
unfolding reduce_input
reduce_input-Counts ks keys small =
    reduce_lines-Counts (suc (length (one_pairs ks))) datastore_init [] ks
      (λ key. unfold datastore_init datastore_get dictionary_tfind in refl) keys (omega arith)
      (omega (arith, length-one_pairs ks))
