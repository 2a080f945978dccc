-- ===== src/MapReduce/Core/Datastore/Contract.antt =====
-- The contract of mapreduce/core/libds.c: any history of calls behaves as on a map from strings to
-- strings.
use system_programming.Base.{
  ℕ, ◌≡◌, ◌≢◌, refl, sym, ap, ◌∙◌, List, [], ◌∷◌, inl, inr, if◌then◌else◌, Option, Option-cases,
  none, some, arith,
}
use system_programming.Clib.Strings.{equals}
use system_programming.MapReduce.Core.Datastore.{
  Entry, Datastore, dictionary_tfind, tsearch, dictionary_tdelete, datastore_init, datastore_put,
  datastore_get, datastore_update, datastore_delete,
}
use system_programming.MapReduce.Core.Datastore.Lookup.{
  find-tsearch, find-set_value, Unique, find-delete, Unique-tsearch, Unique-set_value,
  Unique-delete,
}

-- A call of a client that changes the store.
pub data Change : Type 0 where
  puts updates : (key value : List ℕ) → Change
  deletes : (key : List ℕ) → Change

unfoldable pub change : Change → Datastore → Datastore × ℕ
change (puts key value) ds = datastore_put ds key value
change (updates key value) ds = datastore_update ds key value
change (deletes key) ds = datastore_delete ds key

-- The store after the calls, and their results.
unfoldable pub changes : List Change → Datastore → Datastore × List ℕ
changes [] ds = (ds, [])
changes (c ∷ cs) ds =
    let (ds', result) = change c ds in
    let (ds'', results) = changes cs ds' in (ds'', result ∷ results)

-- The specification, on maps from keys to values.
abbrev pub Map : Type 0
Map = List ℕ → Option (List ℕ)

abbrev pub assign : Map → List ℕ → Option (List ℕ) → Map
assign m key value j = if equals j key then value else m j

unfoldable pub spec : Change → Map → Map × ℕ
spec (puts key value) m = elim (m key) [ none ↦ (assign m key (some value), 1) | some v ↦ (m, 0) ]
spec (updates key value) m = elim (m key) [
  | none ↦ (m, 0)
  | some v ↦ (assign m key (some value), 1)
]
spec (deletes key) m = elim (m key) [ none ↦ (m, 0) | some v ↦ (assign m key none, 1) ]

unfoldable pub specs : List Change → Map → Map × List ℕ
specs [] m = (m, [])
specs (c ∷ cs) m =
    let (m', result) = spec c m in let (m'', results) = specs cs m' in (m'', result ∷ results)

-- The store shows the map.
record Shows (ds : Datastore) (m : Map) : Type 0 where
  unique : Unique ds
  same : (key : List ℕ) → datastore_get ds key ≡ m key

-- A pair of a store and a result shows a pair of a map and a result.
abbrev Agree : Datastore × ℕ → Map × ℕ → Type 0
Agree r s = Shows r.0 s.0 × (r.1 ≡ s.1)

none-some : {v : List ℕ} → none ≢ some v
none-some e = cc

get-find :
    (ds : Datastore) (key : List ℕ) → dictionary_tfind ds key ≡ none → datastore_get ds key ≡ none
unfolding datastore_get
get-find ds key h = ground arith

get-tsearch :
    (e : Entry) (ds : Datastore) (j : List ℕ)
    → dictionary_tfind ds e.key ≡ none
    → datastore_get (tsearch e ds) j ≡ (if equals j e.key then some e.value else datastore_get ds j)
unfolding datastore_get
get-tsearch e ds j h = ground (arith, find-tsearch e ds j h)

get-delete :
    (ds : Datastore) (key j : List ℕ)
    → Unique ds
    → datastore_get (dictionary_tdelete ds key) j
      ≡ (if equals j key then none else datastore_get ds j)
unfolding datastore_get
get-delete ds key j u = ground (arith, find-delete ds key j u)

find-get :
    (ds : Datastore) (key : List ℕ) → datastore_get ds key ≡ none → dictionary_tfind ds key ≡ none
unfolding datastore_get
find-get ds key h = ground arith

-- Looking up after datastore_put of a new key, and after datastore_update of a key that is there.
pub get-put :
    (ds : Datastore) (key value j : List ℕ)
    → datastore_get ds key ≡ none
    → datastore_get (datastore_put ds key value).0 j
      ≡ (if equals j key then some value else datastore_get ds j)
unfolding datastore_put
get-put ds key value j h =
    rw (find-get ds key h, datastore_put)
      (get-tsearch (record { key = key; value = value }) ds j (find-get ds key h))

pub get-update :
    (ds : Datastore) (key value v j : List ℕ)
    → datastore_get ds key ≡ some v
    → datastore_get (datastore_update ds key value).0 j
      ≡ (if equals j key then some value else datastore_get ds j)
unfolding datastore_update
get-update ds key value v j h = elim (Option-cases (dictionary_tfind ds key)) [
  | inl absent ↦ absurd (none-some (sym (get-find ds key absent) ∙ h))
  | inr (e, there) ↦ rw (there, datastore_update) (ground (arith, find-set_value ds key value j, h))
]

put-Agree :
    (ds : Datastore) (m : Map) (key value : List ℕ)
    → Shows ds m
    → Agree (datastore_put ds key value) (spec (puts key value) m)
unfolding datastore_put spec
put-Agree ds m key value s = elim (Option-cases (dictionary_tfind ds key)) [
  | inl absent ↦
      let free : m key ≡ none = sym (s.same key) ∙ get-find ds key absent in
      rw (absent, free, datastore_put, spec)
        (
          record {
            unique = Unique-tsearch (record { key = key; value = value }) ds absent s.unique;
            same = λ j.
                ground
                  (arith, get-tsearch (record { key = key; value = value }) ds j absent, s.same j);
          },
          refl,
        )
  | inr (e, there) ↦
      let taken : m key ≡ some e.value =
        sym (s.same key) ∙ (unfold datastore_get in ground arith) in
      rw (there, taken, datastore_put, spec) (s, refl)
]

update-Agree :
    (ds : Datastore) (m : Map) (key value : List ℕ)
    → Shows ds m
    → Agree (datastore_update ds key value) (spec (updates key value) m)
unfolding datastore_update spec
update-Agree ds m key value s = elim (Option-cases (dictionary_tfind ds key)) [
  | inl absent ↦
      let free : m key ≡ none = sym (s.same key) ∙ get-find ds key absent in
      rw (absent, free, datastore_update, spec) (s, refl)
  | inr (e, there) ↦
      let taken : m key ≡ some e.value =
        sym (s.same key) ∙ (unfold datastore_get in ground arith) in
      rw (there, taken, datastore_update, spec)
        (
          record {
            unique = Unique-set_value ds key value s.unique;
            same = λ j. ground (arith, find-set_value ds key value j, s.same j, s.same key);
          },
          refl,
        )
]

delete-Agree :
    (ds : Datastore) (m : Map) (key : List ℕ)
    → Shows ds m
    → Agree (datastore_delete ds key) (spec (deletes key) m)
unfolding datastore_delete spec
delete-Agree ds m key s = elim (Option-cases (dictionary_tfind ds key)) [
  | inl absent ↦
      let free : m key ≡ none = sym (s.same key) ∙ get-find ds key absent in
      rw (absent, free, datastore_delete, spec) (s, refl)
  | inr (e, there) ↦
      let taken : m key ≡ some e.value =
        sym (s.same key) ∙ (unfold datastore_get in ground arith) in
      rw (there, taken, datastore_delete, spec)
        (
          record {
            unique = Unique-delete ds key s.unique;
            same = λ j. ground (arith, get-delete ds key j s.unique, s.same j);
          },
          refl,
        )
]

change-Agree : (c : Change) (ds : Datastore) (m : Map) → Shows ds m → Agree (change c ds) (spec c m)
unfolding change
change-Agree (puts key value) ds m s = put-Agree ds m key value s
change-Agree (updates key value) ds m s = update-Agree ds m key value s
change-Agree (deletes key) ds m s = delete-Agree ds m key s

changes-Shows :
    (cs : List Change) (ds : Datastore) (m : Map)
    → Shows ds m
    → Shows (changes cs ds).0 (specs cs m).0 × ((changes cs ds).1 ≡ (specs cs m).1)
unfolding changes specs
changes-Shows [] ds m s = (s, refl)
changes-Shows (c ∷ cs) ds m s =
    let (s', r) = change-Agree c ds m s in
    let (s'', rs) = changes-Shows cs (change c ds).0 (spec c m).0 s' in
    (s'', ap (λ x. x ∷ (changes cs (change c ds).0).1) r ∙ ap (◌∷◌ (spec c m).1) rs)

-- After any history of datastore_put, datastore_update and datastore_delete from an empty data
-- store, each key is looked up as in the map of the specification, where a put adds a key that is
-- not there and an update changes one that is, and every call returned what the specification says.
pub changes-specs :
    (cs : List Change) (key : List ℕ)
    → (datastore_get (changes cs datastore_init).0 key ≡ (specs cs (λ k. none)).0 key)
      × ((changes cs datastore_init).1 ≡ (specs cs (λ k. none)).1)
changes-specs cs key =
    let (s, results) =
      changes-Shows cs datastore_init (λ k. none)
        (record {
          unique = unfold datastore_init in tt;
          same = λ k. unfold datastore_init datastore_get dictionary_tfind in refl;
        }) in
    (s.same key, results)
