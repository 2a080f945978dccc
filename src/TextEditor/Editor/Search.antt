-- ===== src/TextEditor/Editor/Search.antt =====
-- handle_search_command of text_editor/editor.c: what it finds is there, and what it does not find
-- is in no other line.
use system_programming.Base.{
  ℕ, zero, suc, ◌+◌, ◌-◌, ◌*◌, ◌%◌, ◌^◌, ◌<◌, ◌≤◌, ◌≡◌, ◌≢◌, ◌⊎◌, refl, sym, ap, ◌∙◌, subst, List,
  [], ◌∷◌, ◌++◌, Option, none, some, true, false, inl, inr, Bool-cases, Option-cases, ltb, lt→ltb,
  ◌==◌, length, drop, >>=-eq-some, some_inj, arith,
}
use system_programming.Vector.Capacity.{size_mod}
use system_programming.Vector.Defs.{to_int, to_int-fits}
use system_programming.TextEditor.Strings.{Line, StringCallbacks}
use system_programming.TextEditor.Document.Defs.{Document, document_size, document_get_line}
use system_programming.TextEditor.Document.Lines.{IsDocument, document_get_line-middle}
use system_programming.TextEditor.Editor.Defs.{
  Editor, Location, starts_with, find_str, search_loop, handle_search_command, wrapped, restart,
  found_or,
}

-- strstr returns an offset at which the needle stands.
find_str-starts_with :
    (needle s : Line) (k : ℕ) → find_str needle s ≡ some k → starts_with needle (drop k s) ≡ true
unfolding find_str
find_str-starts_with needle [] k e = elim (Bool-cases (starts_with needle [])) [
  | inl hit ↦ subst (λ j. starts_with needle (drop j []) ≡ true) (some_inj (rw hit at e)) hit
  | inr miss ↦ absurd (ground arith)
]
find_str-starts_with needle (c ∷ cs) k e = elim (Bool-cases (starts_with needle (c ∷ cs))) [
  | inl hit ↦ subst (λ j. starts_with needle (drop j (c ∷ cs)) ≡ true) (some_inj (rw hit at e)) hit
  | inr miss ↦ elim (Option-cases (find_str needle cs)) [
    | inl nowhere ↦ absurd (ground arith)
    | inr (j, there) ↦
        subst (λ i. starts_with needle (drop i (c ∷ cs)) ≡ true) (some_inj (rw (miss, there) at e))
          (find_str-starts_with needle cs j there)
  ]
]

drop-nil : (n : ℕ) → drop {A = ℕ} n [] ≡ []
drop-nil zero = refl
drop-nil (suc n) = refl

drop-drop : (m n : ℕ) (s : Line) → drop n (drop m s) ≡ drop (m + n) s
drop-drop zero n s = let e : zero + n ≡ n = omega arith in rw e
drop-drop (suc m) n (c ∷ s) =
    let e : suc m + n ≡ suc (m + n) = omega arith in rw e (drop-drop m n s)
drop-drop (suc m) n [] = drop-nil n ∙ sym (drop-nil (suc m + n))

abbrev pub nowhere : Location
nowhere = record { line_no = 0; idx = 0 }

-- The needle stands in the line at the location.
pub record Occurs (d : Document) (needle : Line) (loc : Location) : Type 0 where
  pub line : Line
  pub is_line : document_get_line d loc.line_no ≡ some line
  pub is_there : starts_with needle (drop loc.idx line) ≡ true

-- The round in which the loop comes to line `n`.
round_of :
    (size first n : ℕ)
    → 1 ≤ first
    → first ≤ size
    → 1 ≤ n
    → n ≤ size
    → n ≢ first
    → (m : ℕ) × (m < size) × (first < first + m) × (wrapped size (first + m) ≡ n)
round_of size first n lo hi n1 n2 other = elim (Bool-cases (ltb first n)) [
  | inl after ↦ (n - first, ground arith, ground arith, ground arith)
  | inr before ↦ (n + size - first, ground arith, ground arith, ground arith)
]

module _ (d : Document) (needle : Line) (first : ℕ) where
  search_loop_sound :
      (k i start : ℕ) (loc : Location)
      → search_loop d needle first k i start ≡ some loc
      → (loc ≡ nowhere) ⊎ Occurs d needle loc
  unfolding search_loop
  search_loop_sound zero i start loc e = inl (sym (some_inj e))
  search_loop_sound (suc k) i start loc e =
      let j = wrapped (document_size d) i in
      let (line, got, e₁) = >>=-eq-some (document_get_line d j) _ e in
      let (n, _, e₂) = >>=-eq-some (to_int (length line)) _ e₁ in
      let from = restart first i n start in
      elim (Option-cases (find_str needle (drop from line))) [
        | inl missing ↦ search_loop_sound k (i + 1) from loc (rw missing at e₂)
        | inr (at, hit) ↦ inr (
            subst (Occurs d needle) (some_inj (rw hit at e₂)) (record {
              line = line;
              is_line = got;
              is_there =
                  subst (λ s. starts_with needle s ≡ true) (drop-drop from at line)
                    (find_str-starts_with needle (drop from line) at hit);
            }))
      ]

  no_zeroth : (line : Line) → document_get_line d 0 ≢ some line
  unfolding document_get_line
  no_zeroth line e = cc

  -- The step of the next proof: the round at hand, or a later one.
  later_round :
      (k i m : ℕ) (line' line : Line) (n start : ℕ)
      → m < suc k
      → first < i + m
      → document_get_line d (wrapped (document_size d) i) ≡ some line'
      → document_get_line d (wrapped (document_size d) (i + m)) ≡ some line
      → find_str needle (drop (restart first i n start) line') ≡ none
      → ((m' : ℕ)
          → m' < k
          → first < i + 1 + m'
          → (l : Line) → document_get_line d (wrapped (document_size d) (i + 1 + m')) ≡ some l
          → find_str needle l ≡ none)
      → find_str needle line ≡ none
  later_round k i zero line' line n start h after got' got missing rest =
      let here : i + zero ≡ i = omega arith in
      let same : line' ≡ line =
        some_inj (
          sym got'
          ∙ ap (λ t. document_get_line d (wrapped (document_size d) t)) (sym here)
          ∙ got) in
      let past : ltb first i ≡ true = lt→ltb first i (omega arith) in
      ap (find_str needle) (sym same) ∙ (rw past at missing)
  later_round k i (suc m) line' line n start h after got' got missing rest =
      let next : i + suc m ≡ i + 1 + m = omega arith in
      rest m (omega arith) (omega arith) line
        (ap (λ t. document_get_line d (wrapped (document_size d) t)) (sym next) ∙ got)

  -- When the loop finds nothing, no line of a round after the first holds the needle.
  search_loop-nowhere :
      (k i start : ℕ)
      → search_loop d needle first k i start ≡ some nowhere
      → (m : ℕ) → m < k
      → first < i + m
      → (line : Line) → document_get_line d (wrapped (document_size d) (i + m)) ≡ some line
      → find_str needle line ≡ none
  unfolding search_loop
  search_loop-nowhere zero i start e m h after line got = absurd (omega arith)
  search_loop-nowhere (suc k) i start e m h after line got =
      let j = wrapped (document_size d) i in
      let (line', got', e₁) = >>=-eq-some (document_get_line d j) _ e in
      let (n, _, e₂) = >>=-eq-some (to_int (length line')) _ e₁ in
      let from = restart first i n start in
      elim (Option-cases (find_str needle (drop from line'))) [
        | inl missing ↦
            later_round k i m line' line n start h after got' got missing
              (search_loop-nowhere k (i + 1) from (rw missing at e₂))
        | inr (at, hit) ↦
            let zeroth : j ≡ 0 = ap (λ (l : Location). l.line_no) (some_inj (rw hit at e₂)) in
            absurd (no_zeroth line' (rw zeroth at got'))
      ]

-- The call is its loop, with as many rounds as the document has lines.
search-search_loop :
    (e : Editor) (loc : Location) (needle : Line)
    → needle ≢ []
    → loc.idx < 2 ^ 31
    → loc.line_no ≤ document_size e.document
    → document_size e.document < 2 ^ 31
    → handle_search_command e loc needle
      ≡ search_loop e.document needle loc.line_no
          (document_size e.document)
          loc.line_no
          (loc.idx + 1)
unfolding handle_search_command
search-search_loop e loc [] ne fits hi small = absurd (ne refl)
search-search_loop e loc (c ∷ cs) ne fits hi small =
    let typed : (length (c ∷ cs) == 0) ≡ false = ground arith in
    let rounds : (loc.line_no + document_size e.document) % size_mod - loc.line_no
        ≡ document_size e.document =
      omega arith in
    rw (typed, to_int-fits loc.idx loc.idx refl fits, rounds)

-- Every line is short enough for its length to be an `int`.
abbrev pub AreShort : List Line → Type 0
AreShort [] = Unit {0}
AreShort (s ∷ lines) = (length s < 2 ^ 31) × AreShort lines

line_at :
    (lines : List Line) (n : ℕ)
    → n < length lines
    → AreShort lines
    → (pre post : List Line) × (s : Line) × (lines ≡ pre ++ s ∷ post)
      × (length pre ≡ n)
      × (length s < 2 ^ 31)
line_at [] n h short = absurd (omega arith)
line_at (s ∷ lines) zero h short = ([], lines, s, refl, refl, short.0)
line_at (t ∷ lines) (suc n) h short =
    let (pre, post, s, parts, place, fits) = line_at lines n (omega arith) short.1 in
    (t ∷ pre, post, s, ap (◌∷◌ t) parts, ap suc place, fits)

found_or-returns :
    (j from : ℕ) (rest : Option Location) (hit : Option ℕ)
    → ((loc : Location) × (rest ≡ some loc))
    → (loc : Location) × (found_or j from rest hit ≡ some loc)
found_or-returns j from rest none h = h
found_or-returns j from rest (some k) h = (_, refl)

module _ (callbacks : StringCallbacks) (d : Document) (lines : List Line) (is : IsDocument d lines)
    (few : length lines < 2 ^ 31) (short : AreShort lines) where
  -- Every line number of the document can be read.
  readable :
      (n : ℕ)
      → 1 ≤ n
      → n ≤ document_size d
      → (s : Line) × (document_get_line d n ≡ some s) × (length s < 2 ^ 31)
  unfolding document_size
  readable n lo hi =
      let (pre, post, s, parts, place, fits) =
        line_at lines (n - 1) (omega (arith, is.size)) short in
      let number : length pre + 1 ≡ n = omega arith in
      (
        s,
        ap (document_get_line d) (sym number)
            ∙ document_get_line-middle callbacks d pre post s (subst (IsDocument d) parts is)
                (omega (arith, is.size)),
        fits,
      )

  search_loop-returns :
      (needle : Line) (first k i start : ℕ)
      → 1 ≤ i
      → i + k ≤ 2 * document_size d + 1
      → (loc : Location) × (search_loop d needle first k i start ≡ some loc)
  unfolding search_loop
  search_loop-returns needle first zero i start lo hi = (_, refl)
  search_loop-returns needle first (suc k) i start lo hi =
      let j = wrapped (document_size d) i in
      let (s, got, fits) = readable j (ground arith) (ground arith) in
      let from = restart first i (length s) start in
      rw (got, to_int-fits (length s) (length s) refl fits)
        (found_or-returns j from (search_loop d needle first k (i + 1) from)
          (find_str needle (drop from s))
          (search_loop-returns needle first k (i + 1) from (omega arith) (omega arith)))

  -- In a document of fewer than 2^31 lines, each shorter than 2^31 bytes, a search for a non-empty
  -- needle from one of its lines and an index below 2^31 returns: either line 0, index 0, or a line
  -- and an index at which the needle stands.
  pub handle_search_command-Occurs :
      (filename : Line) (loc : Location) (needle : Line)
      → needle ≢ []
      → 1 ≤ loc.line_no
      → loc.line_no ≤ length lines
      → loc.idx < 2 ^ 31
      → (result : Location) × (handle_search_command
            (record { document = d; filename = filename })
            loc
            needle
          ≡ some result)
        × ((result ≡ nowhere) ⊎ Occurs d needle result)
  unfolding document_size
  handle_search_command-Occurs filename loc needle ne lo hi fits =
      let e : Editor = record { document = d; filename = filename } in
      let size = is.size in
      let run = search-search_loop e loc needle ne fits (omega arith) (omega arith) in
      let (result, ran) =
        search_loop-returns needle loc.line_no (document_size d) loc.line_no (loc.idx + 1) lo
          (omega arith) in
      (
        result,
        run ∙ ran,
        search_loop_sound d needle loc.line_no (document_size d) loc.line_no (loc.idx + 1) result
            ran,
      )

-- A search for a non-empty needle, from one of the lines of a document of fewer than 2^31 lines and
-- an index below 2^31, that returns line 0, index 0 has looked at every other line: none of them
-- holds the needle.
handle_search_command-misses :
    (e : Editor) (loc : Location) (needle : Line) (n : ℕ) (line : Line)
    → handle_search_command e loc needle ≡ some nowhere
    → needle ≢ []
    → 1 ≤ loc.line_no
    → loc.line_no ≤ document_size e.document
    → loc.idx < 2 ^ 31
    → document_size e.document < 2 ^ 31
    → 1 ≤ n
    → n ≤ document_size e.document
    → n ≢ loc.line_no
    → document_get_line e.document n ≡ some line
    → find_str needle line ≡ none
handle_search_command-misses e loc needle n line ran ne lo hi fits small n1 n2 other got =
    let size = document_size e.document in
    let (m, below, above, same) = round_of size loc.line_no n lo hi n1 n2 other in
    search_loop-nowhere e.document needle loc.line_no size loc.line_no (loc.idx + 1)
      (sym (search-search_loop e loc needle ne fits hi small) ∙ ran) m below above line
      (ap (document_get_line e.document) same ∙ got)
