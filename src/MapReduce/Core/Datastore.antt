-- ===== src/MapReduce/Core/Datastore.antt =====
-- mapreduce/core/libds.c: a map from strings to strings. The tree of search.h is the sequence of its
-- entries in the order of the keys, in which twalk visits them.
pub mod Lookup
pub mod Contract
use system_programming.Base.{
  ℕ, ◌≡◌, ◌≢◌, refl, sym, ap, ◌∙◌, List, [], ◌∷◌, ◌++◌, Bool, true, false, Bool-cases, inl, inr,
  ltb, ◌==◌, if◌then◌else◌, Option, none, some, arith,
}
use system_programming.Clib.Strings.{equals, equals-eq, equals_refl}

pub record Entry : Type 0 where
  pub key : List ℕ
  pub value : List ℕ

abbrev pub Datastore : Type 0
Datastore = List Entry

-- compare(a, b) < 0: strcmp on the keys, byte by byte.
unfoldable pub before : List ℕ → List ℕ → Bool
before s [] = false
before [] (d ∷ ds) = true
before (c ∷ cs) (d ∷ ds) =
    let rest = before cs ds in if ltb c d then true else if c == d then rest else false

unfoldable pub dictionary_tfind : Datastore → List ℕ → Option Entry
dictionary_tfind [] key = none
dictionary_tfind (e ∷ ds) key =
    let rest = dictionary_tfind ds key in if equals key e.key then some e else rest

-- tsearch(3) with a key that is not there.
unfoldable pub tsearch : Entry → Datastore → Datastore
tsearch e [] = e ∷ []
tsearch e (f ∷ ds) = let rest = tsearch e ds in if before e.key f.key then e ∷ f ∷ ds else f ∷ rest

unfoldable pub dictionary_tdelete : Datastore → List ℕ → Datastore
dictionary_tdelete [] key = []
dictionary_tdelete (e ∷ ds) key =
    let rest = dictionary_tdelete ds key in if equals key e.key then ds else e ∷ rest

-- entry->value = strdup(value), in the tree.
unfoldable pub set_value : Datastore → List ℕ → List ℕ → Datastore
set_value [] key value = []
set_value (e ∷ ds) key value =
    let rest = set_value ds key value in
    if equals key e.key then record e { value = value } ∷ ds else e ∷ rest

unfoldable pub datastore_init : Datastore
datastore_init = []

-- The store, and the result 1 or 0.
unfoldable pub datastore_put : Datastore → List ℕ → List ℕ → Datastore × ℕ
datastore_put ds key value = elim (dictionary_tfind ds key) [
  | none ↦ (tsearch (record { key = key; value = value }) ds, 1)
  | some e ↦ (ds, 0)
]

unfoldable pub datastore_get : Datastore → List ℕ → Option (List ℕ)
datastore_get ds key = elim (dictionary_tfind ds key) [ none ↦ none | some e ↦ some e.value ]

unfoldable pub datastore_update : Datastore → List ℕ → List ℕ → Datastore × ℕ
datastore_update ds key value = elim (dictionary_tfind ds key) [
  | none ↦ (ds, 0)
  | some e ↦ (set_value ds key value, 1)
]

unfoldable pub datastore_delete : Datastore → List ℕ → Datastore × ℕ
datastore_delete ds key = elim (dictionary_tfind ds key) [
  | none ↦ (ds, 0)
  | some e ↦ (dictionary_tdelete ds key, 1)
]

-- my_action calls the function at the visits `postorder` and `leaf`, one of each entry. What the
-- function changes is `s`.
unfoldable pub datastore_iterate {ℓ} : {S : Type ℓ} → Datastore → (List ℕ → List ℕ → S → S) → S → S
datastore_iterate [] f s = s
datastore_iterate (e ∷ ds) f s = datastore_iterate ds f (f e.key e.value s)

unfoldable pub datastore_destroy : Datastore → Datastore
datastore_destroy ds = []
