-- ===== src/Vector/Sstring/Substitute.antt =====
-- sstring_substitute of vector/sstring.c against the parts of the string.
use system_programming.Base.{
  ℕ, suc, ◌+◌, ◌-◌, ◌^◌, ◌<◌, ◌≤◌, ◌≡◌, refl, sym, ap, ◌∙◌, inl, inr, true, Bool-cases, leb, ◌==◌,
  List, [], ◌∷◌, ◌++◌, Option, Option-cases, none, some, length, length-append, length-take, take,
  drop, take-append-drop, take-append, drop-append, append_assoc, some_inj, arith,
}
use system_programming.Vector.Defs.{to_int-fits}
use system_programming.Clib.Strings.{has_prefix, strstr}
use system_programming.Vector.Sstring.{Sstring, replace_at, replace_found, sstring_substitute}

same_byte : (c d : ℕ) → (c == d) ≡ true → c ≡ d
same_byte c d h = ground arith

has_prefix-append : (t s : List ℕ) → has_prefix t s ≡ true → s ≡ t ++ drop (length t) s
unfolding has_prefix
has_prefix-append [] s h = refl
has_prefix-append (c ∷ t) [] h = cc
has_prefix-append (c ∷ t) (d ∷ s) h = elim (Bool-cases (c == d)) [
  | inl same ↦
      let rest = has_prefix-append t s (rw same at h) in
      ap (λ x. x ∷ s) (sym (same_byte c d same)) ∙ ap (◌∷◌ c) rest
  | inr other ↦ absurd (ground arith)
]

strstr-parts :
    (target s : List ℕ) (k : ℕ)
    → strstr target s ≡ some k
    → (pre post : List ℕ) × (s ≡ pre ++ (target ++ post)) × (length pre ≡ k)
unfolding strstr
strstr-parts target [] k e = elim (Bool-cases (has_prefix target [])) [
  | inl hit ↦ ([], drop (length target) [], has_prefix-append target [] hit, some_inj (rw hit at e))
  | inr miss ↦ absurd (ground arith)
]
strstr-parts target (c ∷ cs) k e = elim (Bool-cases (has_prefix target (c ∷ cs))) [
  | inl hit ↦ (
    [],
    drop (length target) (c ∷ cs),
    has_prefix-append target (c ∷ cs) hit,
    some_inj (rw hit at e),
  )
  | inr miss ↦ elim (Option-cases (strstr target cs)) [
    | inl nowhere ↦ absurd (ground arith)
    | inr (j, there) ↦
        let (pre, post, parts, place) = strstr-parts target cs j there in
        (c ∷ pre, post, ap (◌∷◌ c) parts, ap suc place ∙ some_inj (rw (miss, there) at e))
  ]
]

drop-front : (pre mid post : List ℕ) → drop (length pre + length mid) (pre ++ (mid ++ post)) ≡ post
drop-front [] mid post =
    let e : 0 + length mid ≡ length mid = omega arith in rw e (drop-append mid post)
drop-front (x ∷ pre) mid post =
    let e : suc (length pre) + length mid ≡ suc (length pre + length mid) = omega arith in
    rw e (drop-front pre mid post)

-- What sstring_substitute did: the target is not there from the offset on, or it was replaced where
-- it stands, and the length is kept.
pub data Substituted (s : Sstring) (offset : ℕ) (target substitution : List ℕ)
    (r : Option (Option Sstring)) : Type 0 where
  absent :
      strstr target (drop offset s.source) ≡ none
      → r ≡ some none
      → Substituted s offset target substitution r
  replaced :
      (pre post : List ℕ) (t : Sstring)
      → offset ≤ length pre
      → s.source ≡ pre ++ (target ++ post)
      → r ≡ some (some t)
      → t.source ≡ pre ++ (substitution ++ post)
      → t.len ≡ length t.source
      → Substituted s offset target substitution r

replace_at-Substituted :
    (s : Sstring) (offset k : ℕ) (target substitution pre post : List ℕ)
    → s.len ≡ length s.source
    → length s.source < 2 ^ 31
    → length substitution < 2 ^ 31
    → s.source ≡ pre ++ (target ++ post)
    → length pre ≡ offset + k
    → Substituted s offset target substitution (replace_found s target substitution offset (some k))
unfolding replace_found replace_at
replace_at-Substituted s offset k target substitution pre post right small short parts place =
    let size = ap length parts ∙ length-append pre (target ++ post) in
    let size' = length-append target post in
    let front : take (offset + k) s.source ≡ pre =
      ap (λ i. take i s.source) (sym place)
      ∙ ap (take (length pre)) parts
      ∙ take-append pre (target ++ post) in
    let back : drop (offset + k + length target) s.source ≡ post =
      ap (λ i. drop (i + length target) s.source) (sym place)
      ∙ ap (drop (length pre + length target)) parts
      ∙ drop-front pre target post in
    rw
      (
        to_int-fits (offset + k) (offset + k) refl (omega arith),
        to_int-fits (length s.source - (offset + k) - length target) _ refl (omega arith),
        front,
        back,
      )
      (replaced pre post _ (omega arith) parts refl refl
        (omega (arith, length-append pre (substitution ++ post), length-append substitution post)))

-- For a string whose stored length is its length, below 2^31, a substitution shorter than 2^31 and
-- an offset inside the string, sstring_substitute either finds no target from the offset on and
-- changes nothing, or the string has the target at the offset or behind it and becomes the bytes
-- before, the substitution and the bytes behind, with the stored length right again.
pub sstring_substitute-Substituted :
    (s : Sstring) (offset : ℕ) (target substitution : List ℕ)
    → s.len ≡ length s.source
    → offset ≤ length s.source
    → length s.source < 2 ^ 31
    → length substitution < 2 ^ 31
    → Substituted s offset target substitution (sstring_substitute s offset target substitution)
unfolding sstring_substitute
sstring_substitute-Substituted s offset target substitution right inside small short =
    let allowed : leb offset (length s.source) ≡ true = ground arith in
    elim (Option-cases (strstr target (drop offset s.source))) [
      | inl nowhere ↦ rw (allowed, nowhere) (absent nowhere (unfold replace_found in refl))
      | inr (k, there) ↦
          let (p, post, parts, place) = strstr-parts target (drop offset s.source) k there in
          let pre = take offset s.source ++ p in
          rw (allowed, there)
            (replace_at-Substituted s offset k target substitution pre post right small short
              (sym (take-append-drop offset s.source)
                ∙ ap (λ t. take offset s.source ++ t) parts
                ∙ sym (append_assoc (take offset s.source) p (target ++ post)))
              (omega (
                arith,
                length-append (take offset s.source) p,
                length-take offset s.source inside,
              )))
    ]
