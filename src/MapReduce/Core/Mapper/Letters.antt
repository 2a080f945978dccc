-- ===== src/MapReduce/Core/Mapper/Letters.antt =====
-- asciicount of mapreduce/mappers on a whole file.
use system_programming.Base.{
  ℕ, zero, suc, ◌≡◌, ◌<◌, ◌≢◌, refl, sym, ap, ◌∙◌, subst, List, [], ◌∷◌, ◌++◌, append_assoc, true,
  false, Bool-cases, inl, inr, ◌==◌, if◌then◌else◌, some, length, c_string, arith,
}
use system_programming.Clib.Strings.{newline, split_line, split_line-append, length-split_line}
use system_programming.Clib.Ctype.{Ctype}
use system_programming.MapReduce.Core.Mapper.{
  chomp_return, map_lines, run_mapper_on_fds, one_pair, one_pairs, asciicount,
}

-- No byte is NUL.
abbrev pub NoNul : List ℕ → Type 0
NoNul [] = Unit {0}
NoNul (c ∷ cs) = (c ≢ 0) × NoNul cs

NoNul-front : (s t : List ℕ) → NoNul (s ++ t) → NoNul s
NoNul-front [] t h = tt
NoNul-front (c ∷ s) t h = (h.0, NoNul-front s t h.1)

NoNul-back : (s t : List ℕ) → NoNul (s ++ t) → NoNul t
NoNul-back [] t h = h
NoNul-back (c ∷ s) t h = NoNul-back s t h.1

c_string-NoNul : (s : List ℕ) → NoNul s → c_string s ≡ s
unfolding c_string
c_string-NoNul [] h = refl
c_string-NoNul (c ∷ s) h =
    let plain : (c == 0) ≡ false = ground arith in rw plain (ap (◌∷◌ c) (c_string-NoNul s h.1))

NoNul-chomp_return : (s : List ℕ) → NoNul s → NoNul (chomp_return s)
unfolding chomp_return
NoNul-chomp_return [] h = tt
NoNul-chomp_return (c ∷ []) h = elim (Bool-cases (c == newline)) [
  | inl e ↦ rw e tt
  | inr e ↦ rw e h
]
NoNul-chomp_return (c ∷ d ∷ []) h = elim (Bool-cases (d == newline)) [
  | inl e ↦ elim (Bool-cases (c == b'\r')) [ inl r ↦ rw (e, r) tt | inr r ↦ rw (e, r) (h.0, tt) ]
  | inr e ↦ rw e h
]
NoNul-chomp_return (c ∷ d ∷ e ∷ s) h = (h.0, NoNul-chomp_return (d ∷ e ∷ s) h.1)

module _ (ctype : Ctype) where
  open ctype use {is_alpha, to_lower, alpha_newline, alpha_return}

  -- The letters of a text in lower case, each as a string.
  unfoldable pub letters : List ℕ → List (List ℕ)
  letters [] = []
  letters (c ∷ cs) = let rest = letters cs in if is_alpha c then (to_lower c ∷ []) ∷ rest else rest

  letters-append : (s t : List ℕ) → letters (s ++ t) ≡ letters s ++ letters t
  unfolding letters
  letters-append [] t = refl
  letters-append (c ∷ s) t = elim (Bool-cases (is_alpha c)) [
    | inl letter ↦ rw letter (ap (◌∷◌ (to_lower c ∷ [])) (letters-append s t))
    | inr other ↦ rw other (letters-append s t)
  ]

  asciicount-letters : (s : List ℕ) → asciicount ctype s ≡ one_pairs (letters s)
  unfolding asciicount letters one_pairs
  asciicount-letters [] = refl
  asciicount-letters (c ∷ s) = elim (Bool-cases (is_alpha c)) [
    | inl letter ↦ rw letter (ap (λ t. one_pair (to_lower c ∷ []) ++ t) (asciicount-letters s))
    | inr other ↦ rw other (asciicount-letters s)
  ]

  not_newline : (c : ℕ) → (c == newline) ≡ true → is_alpha c ≡ false
  not_newline c h = let e : c ≡ newline = ground arith in ap is_alpha e ∙ alpha_newline

  not_return : (c : ℕ) → (c == b'\r') ≡ true → is_alpha c ≡ false
  not_return c h = let e : c ≡ b'\r' = ground arith in ap is_alpha e ∙ alpha_return

  letters-cons : (c : ℕ) (s t : List ℕ) → letters s ≡ letters t → letters (c ∷ s) ≡ letters (c ∷ t)
  unfolding letters
  letters-cons c s t e = rw e

  letters-chomp_return : (s : List ℕ) → letters (chomp_return s) ≡ letters s
  unfolding chomp_return
  letters-chomp_return [] = refl
  letters-chomp_return (c ∷ []) = elim (Bool-cases (c == newline)) [
    | inl e ↦ unfold letters in rw (e, not_newline c e)
    | inr e ↦ rw e
  ]
  letters-chomp_return (c ∷ d ∷ []) = elim (Bool-cases (d == newline)) [
    | inl e ↦ elim (Bool-cases (c == b'\r')) [
      | inl r ↦ unfold letters in rw (e, r, not_newline d e, not_return c r)
      | inr r ↦ unfold letters in rw (e, r, not_newline d e)
    ]
    | inr e ↦ rw e
  ]
  letters-chomp_return (c ∷ d ∷ e ∷ s) =
      letters-cons c (chomp_return (d ∷ e ∷ s)) (d ∷ e ∷ s) (letters-chomp_return (d ∷ e ∷ s))

  one_pairs-append : (ks ls : List (List ℕ)) → one_pairs (ks ++ ls) ≡ one_pairs ks ++ one_pairs ls
  unfolding one_pairs
  one_pairs-append [] ls = refl
  one_pairs-append (k ∷ ks) ls =
      ap (λ t. one_pair k ++ t) (one_pairs-append ks ls)
      ∙ sym (append_assoc (one_pair k) (one_pairs ks) (one_pairs ls))

  mapped_line :
      (s : List ℕ) → NoNul s → asciicount ctype (c_string (chomp_return s)) ≡ one_pairs (letters s)
  mapped_line s h =
      ap (asciicount ctype) (c_string-NoNul (chomp_return s) (NoNul-chomp_return s h))
      ∙ asciicount-letters (chomp_return s)
      ∙ ap one_pairs (letters-chomp_return s)

  map_lines-letters :
      (fuel : ℕ) (input : List ℕ)
      → length input < fuel
      → NoNul input
      → map_lines (asciicount ctype) fuel input ≡ some (one_pairs (letters input))
  unfolding map_lines
  map_lines-letters zero input h o = absurd (omega arith)
  map_lines-letters (suc fuel) [] h o = unfold letters one_pairs in refl
  map_lines-letters (suc fuel) (c ∷ cs) h o =
      let line = (split_line (c ∷ cs)).0 in
      let rest = (split_line (c ∷ cs)).1 in
      let parts : line ++ rest ≡ c ∷ cs = split_line-append (c ∷ cs) in
      let o' = subst NoNul (sym parts) o in
      let later =
        map_lines-letters fuel rest (omega (arith, length-split_line c cs))
          (NoNul-back line rest o') in
      rw (later, mapped_line line (NoNul-front line rest o'))
        (ap some (
          sym (one_pairs-append (letters line) (letters rest))
          ∙ ap one_pairs (sym (letters-append line rest) ∙ ap letters parts)))

  -- On a file without NUL, asciicount prints a pair for every letter, in order.
  pub run_mapper_on_fds-letters :
      (input : List ℕ)
      → NoNul input
      → run_mapper_on_fds (asciicount ctype) input ≡ some (one_pairs (letters input))
  unfolding run_mapper_on_fds
  run_mapper_on_fds-letters input o = map_lines-letters (suc (length input)) input (omega arith) o
