-- ===== src/CamelCaser/OnePass.antt =====
-- The letters of camel_caser, and a sentence in one pass.
use system_programming.Base.{
  ℕ, suc, ◌-◌, ◌≡◌, sym, ap, ◌∙◌, Bool, true, false, Bool-cases, inl, inr, ltb, lt→ltb, ◌&&◌,
  if◌then◌else◌, List, [], ◌∷◌, ◌++◌, map, length, arith,
}
use system_programming.Clib.Ctype.{Ctype}
use system_programming.CamelCaser.Defs.{byte_at, lower_first}
use system_programming.CamelCaser.Buffers.{true-false, last_of, byte_last}

module _ (ctype : Ctype) where
  open ctype use {
    is_alpha, is_digit, is_space, is_punct, to_lower, to_upper, alpha_nul, digit_nul, space_nul,
    space_lower, space_upper, space_alpha, upper_lower,
  }

  pub digit_before :
      (pre post : List ℕ)
      → (ltb 0 (length pre) && is_digit (byte_at (pre ++ post) (length pre - 1)))
        ≡ is_digit (last_of pre)
  unfolding last_of
  digit_before [] post = sym digit_nul
  digit_before (x ∷ p) post =
      let less : suc (length p) - 1 ≡ length p = omega arith in
      rw (lt→ltb 0 (suc (length p)) (omega arith), less) (ap is_digit (byte_last x p post))

  -- A letter behind the byte `prev`.
  unfoldable pub cased : ℕ → ℕ → ℕ
  cased prev c =
      if is_alpha c then (if is_digit prev then to_upper (to_lower c) else to_lower c) else c

  unfoldable pub raised : ℕ → ℕ
  raised c = if is_alpha c then to_upper c else c

  -- The sentence in one pass: `prev` is the byte in front, and `gap` says whether spaces were left
  -- out there.
  unfoldable pub one_pass : Bool → ℕ → List ℕ → List ℕ
  one_pass gap prev [] = []
  one_pass gap prev (c ∷ cs) =
      let skipped = one_pass true prev cs in
      let letter = if gap then raised c else cased prev c in
      let kept = letter ∷ one_pass false letter cs in if is_space c then skipped else kept

  pub not_alpha : (c : ℕ) → is_space c ≡ true → is_alpha c ≡ false
  not_alpha c h = elim (Bool-cases (is_alpha c)) [
    | inl letter ↦ absurd (true-false (sym h ∙ space_alpha c letter))
    | inr other ↦ other
  ]

  pub cased_space : (prev c : ℕ) → is_space c ≡ true → cased prev c ≡ c
  unfolding cased
  cased_space prev c h = rw (not_alpha c h)

  pub raised_space : (c : ℕ) → is_space c ≡ true → raised c ≡ c
  unfolding raised
  raised_space c h = rw (not_alpha c h)

  pub raised_other : (c : ℕ) → is_space c ≡ false → is_space (raised c) ≡ false
  unfolding raised
  raised_other c h = elim (Bool-cases (is_alpha c)) [
    | inl letter ↦ rw letter (space_upper c letter)
    | inr other ↦ rw other h
  ]

  pub cased_other : (prev c : ℕ) → is_space c ≡ false → is_space (cased prev c) ≡ false
  unfolding cased
  cased_other prev c h = elim (Bool-cases (is_alpha c)) [
    | inr other ↦ rw other h
    | inl letter ↦ elim (Bool-cases (is_digit prev)) [
      | inl digit ↦ rw (letter, digit) (space_upper (to_lower c) (upper_lower c letter))
      | inr plain ↦ rw (letter, plain) (space_lower c letter)
    ]
  ]

  -- A sentence in one pass.
  unfoldable pub camel_of : List ℕ → List ℕ
  camel_of s = lower_first ctype (one_pass false 0 s)

  -- No byte is a space.
  abbrev pub NoSpace : List ℕ → Type 0
  NoSpace [] = Unit {0}
  NoSpace (c ∷ cs) = (is_space c ≡ false) × NoSpace cs

  abbrev pub AllNoSpace : List (List ℕ) → Type 0
  AllNoSpace [] = Unit {0}
  AllNoSpace (s ∷ ss) = NoSpace s × AllNoSpace ss

  one_pass-NoSpace : (gap : Bool) (prev : ℕ) (s : List ℕ) → NoSpace (one_pass gap prev s)
  unfolding one_pass
  one_pass-NoSpace gap prev [] = tt
  one_pass-NoSpace true prev (c ∷ cs) = elim (Bool-cases (is_space c)) [
    | inl space ↦ rw space (one_pass-NoSpace true prev cs)
    | inr other ↦ rw other (raised_other c other, one_pass-NoSpace false (raised c) cs)
  ]
  one_pass-NoSpace false prev (c ∷ cs) = elim (Bool-cases (is_space c)) [
    | inl space ↦ rw space (one_pass-NoSpace true prev cs)
    | inr other ↦ rw other (cased_other prev c other, one_pass-NoSpace false (cased prev c) cs)
  ]

  lower_first-NoSpace : (s : List ℕ) → NoSpace s → NoSpace (lower_first ctype s)
  unfolding lower_first
  lower_first-NoSpace [] o = tt
  lower_first-NoSpace (c ∷ cs) o = elim (Bool-cases (is_alpha c)) [
    | inl letter ↦ rw letter (space_lower c letter, o.1)
    | inr other ↦ rw other o
  ]

  pub camel_of-NoSpace : (ss : List (List ℕ)) → AllNoSpace (map camel_of ss)
  unfolding camel_of
  camel_of-NoSpace [] = tt
  camel_of-NoSpace (s ∷ ss) =
      (lower_first-NoSpace (one_pass false 0 s) (one_pass-NoSpace false 0 s), camel_of-NoSpace ss)
