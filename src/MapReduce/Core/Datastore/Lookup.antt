-- ===== src/MapReduce/Core/Datastore/Lookup.antt =====
-- What the functions of mapreduce/core/libds.c find after the others have changed the tree.
use system_programming.Base.{
  ℕ, ◌≡◌, refl, List, [], ◌∷◌, Bool-cases, inl, inr, if◌then◌else◌, none, some, arith,
}
use system_programming.Clib.Strings.{equals_iff, equals}
use system_programming.MapReduce.Core.Datastore.{
  Entry, Datastore, before, dictionary_tfind, tsearch, dictionary_tdelete, set_value, datastore_get,
}

-- Looking up after the operations on the tree.
pub find-tsearch :
    (e : Entry) (ds : Datastore) (j : List ℕ)
    → dictionary_tfind ds e.key ≡ none
    → dictionary_tfind (tsearch e ds) j ≡ (if equals j e.key then some e else dictionary_tfind ds j)
unfolding tsearch dictionary_tfind
find-tsearch e [] j h = refl
find-tsearch e (f ∷ ds) j h =
    ground
      (arith, find-tsearch e ds j, equals_iff j e.key, equals_iff j f.key, equals_iff e.key f.key)

pub find-set_value :
    (ds : Datastore) (key value j : List ℕ)
    → datastore_get (set_value ds key value) j ≡ (
        if equals j key
        then (elim (datastore_get ds key) [ none ↦ none | some v ↦ some value ])
        else datastore_get ds j)
unfolding set_value dictionary_tfind datastore_get
find-set_value [] key value j = ground arith
find-set_value (e ∷ ds) key value j = ground (
  arith,
  find-set_value ds key value j,
  equals_iff j key,
  equals_iff key e.key,
  equals_iff j e.key,
)

-- No key stands twice.
abbrev pub Unique : Datastore → Type 0
Unique [] = Unit {0}
Unique (e ∷ ds) = (dictionary_tfind ds e.key ≡ none) × Unique ds

pub find-delete :
    (ds : Datastore) (key j : List ℕ)
    → Unique ds
    → dictionary_tfind (dictionary_tdelete ds key) j
      ≡ (if equals j key then none else dictionary_tfind ds j)
unfolding dictionary_tdelete dictionary_tfind
find-delete [] key j u = ground arith
find-delete (e ∷ ds) key j u = ground (
  arith,
  find-delete ds key j u.1,
  u.0,
  equals_iff j key,
  equals_iff key e.key,
  equals_iff j e.key,
)

pub Unique-tsearch :
    (e : Entry) (ds : Datastore)
    → dictionary_tfind ds e.key ≡ none
    → Unique ds
    → Unique (tsearch e ds)
unfolding tsearch dictionary_tfind
Unique-tsearch e [] h u = (refl, tt)
Unique-tsearch e (f ∷ ds) h u = elim (Bool-cases (before e.key f.key)) [
  | inl first ↦ rw first (h, u)
  | inr later ↦
      let absent : dictionary_tfind ds e.key ≡ none = ground (arith, equals_iff e.key f.key) in
      rw later (
        ground (
          arith,
          find-tsearch e ds f.key absent,
          u.0,
          equals_iff e.key f.key,
          equals_iff f.key e.key,
        ),
        Unique-tsearch e ds absent u.1,
      )
]

pub find-set_value-none :
    (ds : Datastore) (key value j : List ℕ)
    → dictionary_tfind ds j ≡ none
    → dictionary_tfind (set_value ds key value) j ≡ none
unfolding set_value dictionary_tfind
find-set_value-none [] key value j h = refl
find-set_value-none (e ∷ ds) key value j h = ground (arith, find-set_value-none ds key value j)

pub Unique-set_value :
    (ds : Datastore) (key value : List ℕ) → Unique ds → Unique (set_value ds key value)
unfolding set_value
Unique-set_value [] key value u = tt
Unique-set_value (e ∷ ds) key value u = elim (Bool-cases (equals key e.key)) [
  | inl same ↦ rw same u
  | inr other ↦
      rw other (find-set_value-none ds key value e.key u.0, Unique-set_value ds key value u.1)
]

pub Unique-delete : (ds : Datastore) (key : List ℕ) → Unique ds → Unique (dictionary_tdelete ds key)
unfolding dictionary_tdelete
Unique-delete [] key u = tt
Unique-delete (e ∷ ds) key u = elim (Bool-cases (equals key e.key)) [
  | inl same ↦ rw same u.1
  | inr other ↦
      rw other (ground (arith, find-delete ds key e.key u.1, u.0), Unique-delete ds key u.1)
]
