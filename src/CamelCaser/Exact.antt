-- ===== src/CamelCaser/Exact.antt =====
-- The loops of camel_caser, which work in place, against one pass over the sentence.
use system_programming.Base.{
  ℕ, zero, suc, ◌+◌, ◌^◌, ◌<◌, ◌≤◌, ◌≡◌, refl, sym, ap, ◌∙◌, true, false, Bool-cases, inl, inr, ltb,
  lt→ltb, ge→ltb, if◌then◌else◌, List, [], ◌∷◌, ◌++◌, map, some, length, length-append, length-map,
  append_assoc, arith,
}
use system_programming.Clib.Ctype.{Ctype}
use system_programming.Clib.Ints.{take-int_bound}
use system_programming.CamelCaser.Defs.{
  sentences, fix_letter, drop_space, drop_spaces, camel_loop, camel, camel_all, camel_caser,
}
use system_programming.CamelCaser.Buffers.{
  last_of, last_of-snoc, at_middle, at_end, set_middle, cut_middle,
}
use system_programming.CamelCaser.OnePass.{
  digit_before, cased, raised, one_pass, cased_space, raised_space, raised_other, cased_other,
  camel_of, AllNoSpace, camel_of-NoSpace,
}

module _ (ctype : Ctype) where
  open ctype use {
    is_alpha, is_digit, is_space, is_punct, to_lower, to_upper, alpha_nul, digit_nul, space_nul,
    space_lower, space_upper, space_alpha, upper_lower,
  }

  fix_letter-middle :
      (pre : List ℕ) (c : ℕ) (post : List ℕ)
      → fix_letter ctype (length pre) (pre ++ c ∷ post) ≡ pre ++ cased ctype (last_of pre) c ∷ post
  unfolding fix_letter cased
  fix_letter-middle pre c post = elim (Bool-cases (is_alpha c)) [
    | inr other ↦ rw (at_middle pre c post, other)
    | inl letter ↦ elim (Bool-cases (is_digit (last_of pre))) [
      | inl digit ↦
          rw (at_middle pre c post, letter, digit_before ctype pre (c ∷ post), digit)
            (set_middle pre c (to_upper (to_lower c)) post)
      | inr plain ↦
          rw (at_middle pre c post, letter, digit_before ctype pre (c ∷ post), plain)
            (set_middle pre c (to_lower c) post)
    ]
  ]

  abbrev raise_head : List ℕ → List ℕ
  raise_head [] = []
  raise_head (c ∷ cs) = raised ctype c ∷ cs

  drop_space-middle :
      (pre : List ℕ) (c : ℕ) (post : List ℕ)
      → drop_space ctype (length pre) (pre ++ c ∷ post) ≡ pre ++ raise_head post
  unfolding drop_space raised
  drop_space-middle pre c [] = rw (cut_middle pre c [], at_end pre, alpha_nul)
  drop_space-middle pre c (d ∷ post) = elim (Bool-cases (is_alpha d)) [
    | inl letter ↦
        rw (cut_middle pre c (d ∷ post), at_middle pre d post, letter)
          (set_middle pre d (to_upper d) post)
    | inr other ↦ rw (cut_middle pre c (d ∷ post), at_middle pre d post, other)
  ]

  -- What is left behind a space.
  abbrev after_space : List ℕ → List ℕ
  after_space [] = []
  after_space (c ∷ cs) =
      let rest = after_space cs in if is_space c then rest else raised ctype c ∷ cs

  length-after_space : (s : List ℕ) → length (after_space s) ≤ length s
  length-after_space [] = omega arith
  length-after_space (c ∷ cs) = elim (Bool-cases (is_space c)) [
    | inl space ↦ rw space (omega (arith, length-after_space cs))
    | inr other ↦ rw other (omega arith)
  ]

  drop_spaces-after :
      (k : ℕ) (pre post : List ℕ)
      → length post < k
      → drop_spaces ctype k (length pre) (pre ++ raise_head post) ≡ some (pre ++ after_space post)
  unfolding drop_spaces
  drop_spaces-after zero pre post h = absurd (omega arith)
  drop_spaces-after (suc k) pre [] h = rw (at_end pre, space_nul)
  drop_spaces-after (suc k) pre (c ∷ cs) h = elim (Bool-cases (is_space c)) [
    | inl space ↦
        rw (raised_space ctype c space, at_middle pre c cs, space, drop_space-middle pre c cs)
          (drop_spaces-after k pre cs (omega arith))
    | inr other ↦ rw (at_middle pre (raised ctype c) cs, raised_other ctype c other, other)
  ]

  drop_spaces-space :
      (k : ℕ) (pre : List ℕ) (c : ℕ) (post : List ℕ)
      → is_space c ≡ true
      → length post < k
      → drop_spaces ctype (suc k) (length pre) (pre ++ c ∷ post) ≡ some (pre ++ after_space post)
  unfolding drop_spaces
  drop_spaces-space k pre c post space h =
      rw (at_middle pre c post, space, drop_space-middle pre c post)
        (drop_spaces-after k pre post h)

  drop_spaces-other :
      (k : ℕ) (pre : List ℕ) (c : ℕ) (post : List ℕ)
      → is_space c ≡ false
      → drop_spaces ctype (suc k) (length pre) (pre ++ c ∷ post) ≡ some (pre ++ c ∷ post)
  unfolding drop_spaces
  drop_spaces-other k pre c post other = rw (at_middle pre c post, other)

  abbrev from_head : List ℕ → List ℕ
  from_head [] = []
  from_head (c ∷ cs) = c ∷ one_pass ctype false c cs

  one_pass_gap : (prev : ℕ) (s : List ℕ) → one_pass ctype true prev s ≡ from_head (after_space s)
  unfolding one_pass
  one_pass_gap prev [] = refl
  one_pass_gap prev (c ∷ cs) = elim (Bool-cases (is_space c)) [
    | inl space ↦ rw space (one_pass_gap prev cs)
    | inr other ↦ rw other
  ]

  -- The loop behind a round that left `t` from the index on.
  camel_rest :
      (k : ℕ) (pre t : List ℕ)
      → 0 < k
      → ((c : ℕ) (cs : List ℕ)
          → t ≡ c ∷ cs
          → camel_loop ctype k (length (pre ++ c ∷ [])) ((pre ++ c ∷ []) ++ cs)
            ≡ some ((pre ++ c ∷ []) ++ one_pass ctype false (last_of (pre ++ c ∷ [])) cs))
      → camel_loop ctype k (length pre + 1) (pre ++ t) ≡ some (pre ++ from_head t)
  camel_rest zero pre t h next = absurd (omega arith)
  camel_rest (suc k) pre [] h next =
      unfold camel_loop in
      rw (ge→ltb (length pre + 1) (length (pre ++ [])) (omega (arith, length-append pre [])))
  camel_rest (suc k) pre (c ∷ cs) h next =
      ap (λ i. camel_loop ctype (suc k) i (pre ++ c ∷ cs)) (sym (length-append pre (c ∷ [])))
      ∙ ap (camel_loop ctype (suc k) (length (pre ++ c ∷ []))) (sym (append_assoc pre (c ∷ []) cs))
      ∙ next c cs refl
      ∙ ap some (
          ap (λ l. (pre ++ c ∷ []) ++ one_pass ctype false l cs) (last_of-snoc pre c)
          ∙ append_assoc pre (c ∷ []) (one_pass ctype false c cs))

  camel_loop-one_pass :
      (k : ℕ) (pre post : List ℕ)
      → length post < k
      → camel_loop ctype k (length pre) (pre ++ post)
        ≡ some (pre ++ one_pass ctype false (last_of pre) post)
  unfolding camel_loop one_pass
  camel_loop-one_pass zero pre post h = absurd (omega arith)
  camel_loop-one_pass (suc k) pre [] h =
      rw (ge→ltb (length pre) (length (pre ++ [])) (omega (arith, length-append pre [])))
  camel_loop-one_pass (suc k) pre (c ∷ cs) h =
      let size = length-append pre (c ∷ cs) in
      let inside : ltb (length pre) (length (pre ++ c ∷ cs)) ≡ true = lt→ltb _ _ (omega arith) in
      elim (Bool-cases (is_space c)) [
        | inl space ↦
            let dropped = drop_spaces-space (length (pre ++ c ∷ cs)) pre c cs space (omega arith) in
            rw
              (
                inside,
                fix_letter-middle pre c cs,
                cased_space ctype (last_of pre) c space,
                dropped,
                space,
                one_pass_gap (last_of pre) cs,
              )
              (camel_rest k pre (after_space cs) (omega arith) (λ d ds e.
                camel_loop-one_pass k (pre ++ d ∷ []) ds
                  (omega (arith, ap length e, length-after_space cs))))
        | inr other ↦
            let letter = cased ctype (last_of pre) c in
            let kept =
              drop_spaces-other (length (pre ++ c ∷ cs)) pre letter cs
                (cased_other ctype (last_of pre) c other) in
            rw (inside, fix_letter-middle pre c cs, kept, other)
              (camel_rest k pre (letter ∷ cs) (omega arith)
                (λ d ds e. camel_loop-one_pass k (pre ++ d ∷ []) ds (omega (arith, ap length e))))
      ]

  camel-camel_of : (s : List ℕ) → camel ctype s ≡ some (camel_of ctype s)
  unfolding camel camel_of last_of
  camel-camel_of s = rw (camel_loop-one_pass (suc (length s)) [] s (omega arith))

  camel_all-map : (ss : List (List ℕ)) → camel_all ctype ss ≡ some (map (camel_of ctype) ss)
  unfolding camel_all
  camel_all-map [] = refl
  camel_all-map (s ∷ ss) = rw (camel-camel_of s, camel_all-map ss)

  -- For every input of fewer than 2^31 bytes, camel_caser, whose loops move the bytes of each
  -- sentence in place, returns, and its result is the list of the sentences, each put in camel case
  -- by one pass from left to right.
  pub camel_caser-camel_of :
      (input : List ℕ)
      → length input < 2 ^ 31
      → camel_caser ctype input ≡ some (map (camel_of ctype) (sentences ctype [] input))
  unfolding camel_caser
  camel_caser-camel_of input small =
      rw (take-int_bound input small) (camel_all-map (sentences ctype [] input))

  -- How many punctuation marks there are.
  abbrev pub marks : List ℕ → ℕ
  marks [] = 0
  marks (c ∷ cs) = let rest = marks cs in if is_punct c then suc rest else rest

  length-sentences : (cur input : List ℕ) → length (sentences ctype cur input) ≡ marks input
  unfolding sentences
  length-sentences cur [] = refl
  length-sentences cur (c ∷ cs) = elim (Bool-cases (is_punct c)) [
    | inl mark ↦ rw mark (ap suc (length-sentences [] cs))
    | inr other ↦ rw other (length-sentences (cur ++ c ∷ []) cs)
  ]

  -- For every input of fewer than 2^31 bytes camel_caser returns as many sentences as the input has punctuation marks, and
  -- no sentence holds a space.
  camel_caser-AllNoSpace :
      (input : List ℕ)
      → length input < 2 ^ 31
      → (result : List (List ℕ)) × (camel_caser ctype input ≡ some result)
        × (length result ≡ marks input)
        × AllNoSpace ctype result
  camel_caser-AllNoSpace input small =
      let ss = sentences ctype [] input in
      (
        map (camel_of ctype) ss,
        camel_caser-camel_of input small,
        length-map (camel_of ctype) ss ∙ length-sentences [] input,
        camel_of-NoSpace ctype ss,
      )
