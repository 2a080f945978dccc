-- ===== src/Clib/Strings.antt =====
-- Functions of string.h and stdio.h that the programs call, on strings as lists of bytes without the
-- closing NUL.
use system_programming.Base.{
  ◌≤◌, inr, inl, ◌∙◌, sym, Bool-cases, ℕ, suc, ◌≡◌, ◌≢◌, ◌↔◌, refl, ap, List, [], ◌∷◌, ◌++◌, Bool,
  true, false, ◌&&◌, ◌==◌, if◌then◌else◌, Option, none, some, length, arith,
}

abbrev pub newline : ℕ
newline = b'\n'

-- getline(3): the bytes up to and with the next newline, and the rest.
unfoldable pub split_line : List ℕ → List ℕ × List ℕ
split_line [] = ([], [])
split_line (c ∷ cs) =
    let (line, rest) = split_line cs in if c == newline then (c ∷ [], cs) else (c ∷ line, rest)

-- strcmp(s, t) == 0.
unfoldable pub equals : List ℕ → List ℕ → Bool
equals [] [] = true
equals [] (d ∷ ds) = false
equals (c ∷ cs) [] = false
equals (c ∷ cs) (d ∷ ds) = c == d && equals cs ds

-- strtok(3): the longest pieces without a delimiter that are not empty. `cur` is the piece so far.
abbrev pub keep_token : List ℕ → List (List ℕ) → List (List ℕ)
keep_token [] ts = ts
keep_token (c ∷ cs) ts = (c ∷ cs) ∷ ts

unfoldable pub tokens : ℕ → List ℕ → List ℕ → List (List ℕ)
tokens d cur [] = keep_token cur []
tokens d cur (c ∷ cs) =
    let cut = tokens d [] cs in
    let longer = tokens d (cur ++ c ∷ []) cs in if c == d then keep_token cur cut else longer

-- Whether the string starts with the other.
unfoldable pub has_prefix : List ℕ → List ℕ → Bool
has_prefix [] s = true
has_prefix (c ∷ cs) [] = false
has_prefix (c ∷ cs) (d ∷ ds) = c == d && has_prefix cs ds

abbrev pub one_more : Option ℕ → Option ℕ
one_more none = none
one_more (some k) = some (suc k)

-- strstr(3), as an offset.
unfoldable pub strstr : List ℕ → List ℕ → Option ℕ
strstr target [] = if has_prefix target [] then some 0 else none
strstr target (c ∷ cs) =
    let later = one_more (strstr target cs) in if has_prefix target (c ∷ cs) then some 0 else later

pub true-false : true ≢ false
true-false e = cc

pub equals_refl : (s : List ℕ) → equals s s ≡ true
unfolding equals
equals_refl [] = refl
equals_refl (c ∷ s) = ground (arith, equals_refl s)

pub equals-eq : (s t : List ℕ) → equals s t ≡ true → s ≡ t
unfolding equals
equals-eq [] [] h = refl
equals-eq [] (d ∷ t) h = cc
equals-eq (c ∷ s) [] h = cc
equals-eq (c ∷ s) (d ∷ t) h = elim (Bool-cases (c == d)) [
  | inl same ↦
      let e : c ≡ d = ground arith in
      let rest = equals-eq s t (rw same at h) in ap (λ x. x ∷ s) e ∙ ap (◌∷◌ d) rest
  | inr other ↦ absurd (ground arith)
]

pub equals-ne : (s t : List ℕ) → equals s t ≡ false → s ≢ t
equals-ne s t h e = absurd (true-false (sym (equals_refl s) ∙ ap (equals s) e ∙ h))

pub equals-sym : (s t : List ℕ) → equals s t ≡ equals t s
unfolding equals
equals-sym [] [] = refl
equals-sym [] (d ∷ t) = refl
equals-sym (c ∷ s) [] = refl
equals-sym (c ∷ s) (d ∷ t) = ground (arith, equals-sym s t)

-- For `ground`, at every pair of strings that is compared.
pub equals_iff : (s t : List ℕ) → (equals s t ≡ true) ↔ (s ≡ t)
equals_iff s t = (equals-eq s t, λ e. ap (equals s) (sym e) ∙ equals_refl s)

pub split_line-append : (s : List ℕ) → (split_line s).0 ++ (split_line s).1 ≡ s
unfolding split_line
split_line-append [] = refl
split_line-append (c ∷ cs) = elim (Bool-cases (c == newline)) [
  | inl end ↦ rw end
  | inr inside ↦ rw inside (ap (◌∷◌ c) (split_line-append cs))
]

-- A call of getline takes a byte at least.
pub length-split_line : (c : ℕ) (cs : List ℕ) → length (split_line (c ∷ cs)).1 ≤ length cs
unfolding split_line
length-split_line c [] = ground arith
length-split_line c (d ∷ cs) = elim (Bool-cases (c == newline)) [
  | inl end ↦ rw end (omega arith)
  | inr inside ↦ rw inside (omega (arith, length-split_line d cs))
]
