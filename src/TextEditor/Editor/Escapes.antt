-- ===== src/TextEditor/Editor/Escapes.antt =====
-- The two loops of text_editor/editor.c that read typed text: handle_append_command copies it to a
-- second buffer, handle_write_command edits a copy in place. Both then cut it with strsep.
use system_programming.Base.{
  ℕ, zero, suc, ◌+◌, ◌≤◌, ◌≡◌, refl, sym, ap, ◌∙◌, List, [], ◌∷◌, ◌++◌, none, some, ◌==◌,
  if◌then◌else◌, length, length-append, get_elem?, set, take, drop, append_assoc, arith, Bool-cases,
  inl, inr,
}
use system_programming.TextEditor.Strings.{Line}
use system_programming.Clib.Strings.{newline}

abbrev pub backslash : ℕ
backslash = 0x5c

-- The loop of handle_append_command. A backslash at the end is dropped.
unfoldable pub unescape : List ℕ → List ℕ
unescape [] = []
unescape (c ∷ []) = if c == backslash then [] else c ∷ []
unescape (c ∷ d ∷ cs) =
    let escaped = unescape cs in
    let plain = unescape (d ∷ cs) in
    if c == backslash then (if d == b'n' then newline else d) ∷ escaped else c ∷ plain

-- temp[j], where the buffer holds NUL bytes behind the string.
unfoldable pub byte_at : List ℕ → ℕ → ℕ
byte_at s j = elim (get_elem? s j) [ none ↦ 0 | some c ↦ c ]

-- memmove(temp + j, temp + j + 1, strlen(temp) - j).
unfoldable pub remove_at : ℕ → List ℕ → List ℕ
remove_at j s = take j s ++ drop (suc j) s

-- One round of the loop of handle_write_command.
unfoldable pub unescape_at : ℕ → List ℕ → List ℕ
unescape_at j s =
    if byte_at s j == backslash
    then (if byte_at s (j + 1) == b'n' then remove_at j (set s (j + 1) newline) else remove_at j s)
    else s

-- for (j = from; j < from + rounds; j++).
unfoldable pub unescape_loop : ℕ → ℕ → List ℕ → List ℕ
unescape_loop zero j s = s
unescape_loop (suc k) j s = unescape_loop k (j + 1) (unescape_at j s)

unfoldable pub unescape_in_place : List ℕ → List ℕ
unescape_in_place s = unescape_loop (length s) 0 s

unfoldable pub onto_first : ℕ → List Line → List Line
onto_first c [] = (c ∷ []) ∷ []
onto_first c (t ∷ ts) = (c ∷ t) ∷ ts

-- while (ptr) strsep(&ptr, "\n"): the pieces between newlines, one at least.
unfoldable pub pieces : List ℕ → List Line
pieces [] = [] ∷ []
pieces (c ∷ cs) = let rest = pieces cs in if c == newline then [] ∷ rest else onto_first c rest

unescape_at-cons : (x j : ℕ) (s : List ℕ) → unescape_at (suc j) (x ∷ s) ≡ x ∷ unescape_at j s
unfolding unescape_at byte_at remove_at
unescape_at-cons x j s = let next : suc j + 1 ≡ suc (j + 1) = omega arith in rw next (ground arith)

-- What a round does to the text from the index on.
abbrev after_round : ℕ → List ℕ → List ℕ
after_round c [] = if c == backslash then [] else c ∷ []
after_round c (d ∷ cs) =
    if c == backslash then (if d == b'n' then newline else d) ∷ cs else c ∷ d ∷ cs

unescape_at-middle :
    (pre : List ℕ) (c : ℕ) (post : List ℕ)
    → unescape_at (length pre) (pre ++ c ∷ post) ≡ pre ++ after_round c post
unescape_at-middle [] c [] = unfold unescape_at byte_at remove_at in ground arith
unescape_at-middle [] c (d ∷ post) = unfold unescape_at byte_at remove_at in ground arith
unescape_at-middle (x ∷ pre) c post =
    unescape_at-cons x (length pre) (pre ++ c ∷ post) ∙ ap (◌∷◌ x) (unescape_at-middle pre c post)

get_elem?-past : (s : List ℕ) (j : ℕ) → length s ≤ j → get_elem? s j ≡ none
get_elem?-past [] j h = refl
get_elem?-past (c ∷ s) zero h = absurd (omega arith)
get_elem?-past (c ∷ s) (suc j) h = get_elem?-past s j (omega arith)

byte_at-past : (s : List ℕ) (j : ℕ) → length s ≤ j → byte_at s j ≡ 0
unfolding byte_at
byte_at-past s j h = ground (arith, get_elem?-past s j h)

-- Behind the string the rounds change nothing.
past_lem : (k j : ℕ) (s : List ℕ) → length s ≤ j → unescape_loop k j s ≡ s
unfolding unescape_loop unescape_at
past_lem zero j s h = refl
past_lem (suc k) j s h = rw (byte_at-past s j h) (past_lem k (j + 1) s (omega arith))

-- The rounds from the index behind `pre ++ c ∷ []` on, as rounds behind a longer prefix.
shift_prefix :
    (k : ℕ) (pre : List ℕ) (c : ℕ) (post r : List ℕ)
    → unescape_loop k (length (pre ++ c ∷ [])) ((pre ++ c ∷ []) ++ post) ≡ (pre ++ c ∷ []) ++ r
    → unescape_loop k (length pre + 1) (pre ++ c ∷ post) ≡ pre ++ c ∷ r
shift_prefix k pre c post r h =
    ap (λ i. unescape_loop k i (pre ++ c ∷ post)) (sym (length-append pre (c ∷ [])))
    ∙ ap (unescape_loop k (length (pre ++ c ∷ []))) (sym (append_assoc pre (c ∷ []) post))
    ∙ h
    ∙ append_assoc pre (c ∷ []) r

in_place_lem :
    (k : ℕ) (pre post : List ℕ)
    → length post ≤ k
    → unescape_loop k (length pre) (pre ++ post) ≡ pre ++ unescape post
unfolding unescape unescape_loop
in_place_lem k pre [] h = past_lem k (length pre) (pre ++ []) (omega (arith, length-append pre []))
in_place_lem zero pre (c ∷ post) h = absurd (omega arith)
in_place_lem (suc k) pre (c ∷ []) h = elim (Bool-cases (c == backslash)) [
  | inl esc ↦
      rw (unescape_at-middle pre c [], esc)
        (past_lem k (length pre + 1) (pre ++ []) (omega (arith, length-append pre [])))
  | inr plain ↦
      rw (unescape_at-middle pre c [], plain)
        (shift_prefix k pre c [] [] (in_place_lem k (pre ++ c ∷ []) [] (omega arith)))
]
in_place_lem (suc k) pre (c ∷ d ∷ post) h = elim (Bool-cases (c == backslash)) [
  | inl esc ↦
      let e = if d == b'n' then newline else d in
      rw (unescape_at-middle pre c (d ∷ post), esc)
        (shift_prefix k pre e post (unescape post)
          (in_place_lem k (pre ++ e ∷ []) post (omega arith)))
  | inr plain ↦
      rw (unescape_at-middle pre c (d ∷ post), plain)
        (shift_prefix k pre c (d ∷ post) (unescape (d ∷ post))
          (in_place_lem k (pre ++ c ∷ []) (d ∷ post) (omega arith)))
]

-- The loop of handle_write_command, which removes the escapes from its buffer in place, yields for
-- every text what the loop of handle_append_command copies to a second buffer.
pub unescape_in_place-unescape : (s : List ℕ) → unescape_in_place s ≡ unescape s
unfolding unescape_in_place
unescape_in_place-unescape s = in_place_lem (length s) [] s (omega arith)
