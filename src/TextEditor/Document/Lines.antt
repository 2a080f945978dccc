-- ===== src/TextEditor/Document/Lines.antt =====
-- What the operations of text_editor/document.c do to the lines of a document.
use system_programming.Base.{
  ℕ, zero, suc, ◌+◌, ◌-◌, ◌^◌, ◌<◌, ◌≤◌, ◌≡◌, refl, sym, ap, ◌∙◌, subst, List, [], ◌∷◌, ◌++◌, some,
  inl, inr, Bool-cases, ltb, ltb→lt, ltb→ge, lt→ltb, if◌then◌else◌, length, length-append,
  length-replicate, length-take, take, drop, replicate, take-append-drop, append-nil, append_assoc,
  arith,
}
use system_programming.Vector.Capacity.{size_mod}
use system_programming.Vector.Defs.{Vector}
use system_programming.Vector.Contents.{IsVector, create-IsVector}
use system_programming.Vector.Growth.{insert-IsVector, put-IsVector, get-middle}
use system_programming.Vector.Removal.{erase-IsVector}
use system_programming.TextEditor.Strings.{Line, StringCallbacks}
use system_programming.TextEditor.Document.Defs.{
  Document, index_of, document_create, document_get_line, document_delete_line, document_set_line,
  pad, document_insert_line,
}

abbrev pub IsDocument : Document → List Line → Type 0
IsDocument d lines = IsVector d.vector lines

pub document_create-IsDocument : IsDocument document_create []
unfolding document_create
document_create-IsDocument = create-IsVector

index : (n : ℕ) → 0 < n → n < size_mod → index_of n ≡ n - 1
index n h fits = omega arith

-- The lines, with empty ones added up to `n` lines.
abbrev pub padded : ℕ → List Line → List Line
padded n lines = lines ++ replicate (n - length lines) []

-- The lines with `str` as line `n`, the later ones moved down by one.
unfoldable pub with_line : ℕ → Line → List Line → List Line
with_line n str lines =
    take (n - 1) (padded (n - 1) lines) ++ str ∷ drop (n - 1) (padded (n - 1) lines)

module _ (callbacks : StringCallbacks) where
  open callbacks use {copy, copies}

  replicate-snoc :
      (k : ℕ) (a : Line) (lines : List Line)
      → (lines ++ a ∷ []) ++ replicate k a ≡ lines ++ replicate (suc k) a
  replicate-snoc k a lines = append_assoc lines (a ∷ []) (replicate k a)

  pad-IsVector :
      (k : ℕ) (v : Vector Line) (lines : List Line)
      → IsVector v lines
      → length lines + k ≤ 2 ^ 60
      → (w : Vector Line) × (pad callbacks k (length lines) v ≡ some w)
        × IsVector w (lines ++ replicate k [])
  unfolding pad
  pad-IsVector zero v lines is small = (v, refl, subst (IsVector v) (sym (append-nil lines)) is)
  pad-IsVector (suc k) v lines is small =
      let nil = sym (append-nil lines) in
      let one_more : length (lines ++ [] ∷ []) ≡ length lines + 1 = length-append lines ([] ∷ []) in
      let (w, ran, is', _) =
        insert-IsVector copy v lines [] [] (subst (IsVector v) nil is)
          (omega (arith, ap length nil)) in
      let added : IsVector w (lines ++ [] ∷ []) =
        subst (λ t. IsVector w (lines ++ t ∷ [])) (copies []) is' in
      let (x, rest, all) = pad-IsVector k w (lines ++ [] ∷ []) added (omega (arith, one_more)) in
      (
        x,
        rw ran (ap (λ i. pad callbacks k i w) (sym one_more) ∙ rest),
        subst (IsVector x) (replicate-snoc k [] lines) all,
      )

  -- The branch that adds empty lines.
  pad_branch :
      (v : Vector Line) (lines : List Line) (n : ℕ)
      → IsVector v lines
      → 0 < n
      → length lines + n ≤ 2 ^ 60
      → (w : Vector Line) × ((if ltb v.size n
            then pad callbacks (n - 1 - v.size) v.size v
            else some v)
          ≡ some w)
        × IsVector w (padded (n - 1) lines)
  pad_branch v lines n is pos small = elim (Bool-cases (ltb v.size n)) [
    | inl short ↦
        let (w, ran, is') =
          pad-IsVector (n - 1 - length lines) v lines is
            (omega (arith, is.size, ltb→lt v.size n short)) in
        (w, rw short (ap (λ i. pad callbacks (n - 1 - i) i v) is.size ∙ ran), is')
    | inr long ↦
        let none_missing : n - 1 - length lines ≡ 0 =
          omega (arith, is.size, ltb→ge v.size n long) in
        (
          v,
          rw long,
          subst (λ k. IsVector v (lines ++ replicate k [])) (sym none_missing)
              (subst (IsVector v) (sym (append-nil lines)) is),
        )
  ]

  padded_long : (n : ℕ) (lines : List Line) → n ≤ length (padded n lines)
  padded_long n lines = omega (
    arith,
    length-append lines (replicate (n - length lines) []),
    length-replicate {A = Line} (n - length lines) [],
  )

  -- For a line number above 0, with lines and line number together below 2^60, document_insert_line
  -- succeeds and makes the text the line with that number; a document that is too short gets empty
  -- lines first.
  pub document_insert_line-with_line :
      (d : Document) (lines : List Line) (n : ℕ) (str : Line)
      → IsDocument d lines
      → 0 < n
      → length lines + n < 2 ^ 60
      → (e : Document) × (document_insert_line callbacks d n str ≡ some e)
        × IsDocument e (with_line n str lines)
  unfolding document_insert_line with_line
  document_insert_line-with_line d lines n str is pos small =
      let (w, ran, is') = pad_branch d.vector lines n is pos (omega arith) in
      let all = padded (n - 1) lines in
      let whole = sym (take-append-drop (n - 1) all) in
      let (x, rest, added, _) =
        insert-IsVector copy w (take (n - 1) all) (drop (n - 1) all) str
          (subst (IsVector w) whole is')
          (omega (
            arith,
            ap length whole,
            length-append lines (replicate (n - 1 - length lines) []),
            length-replicate {A = Line} (n - 1 - length lines) [],
          )) in
      let at =
        length-take (n - 1) all (padded_long (n - 1) lines) ∙ sym (index n pos (omega arith)) in
      (
        record { vector = x },
        rw (ran, ← at, rest),
        subst (λ t. IsVector x (take (n - 1) all ++ t ∷ drop (n - 1) all)) (copies str) added,
      )

  module _ (d : Document) (pre post : List Line) (old : Line)
      (is : IsDocument d (pre ++ old ∷ post)) (small : length pre < 2 ^ 60) where
    at_index : length pre ≡ index_of (length pre + 1)
    at_index = omega arith

    -- document_get_line returns the line with the given number.
    pub document_get_line-middle : document_get_line d (length pre + 1) ≡ some old
    unfolding document_get_line
    document_get_line-middle =
        rw (lt→ltb 0 (length pre + 1) (omega arith), ← at_index)
          (get-middle d.vector pre post old is)

    -- document_set_line replaces the line with the given number.
    pub document_set_line-middle :
        (str : Line)
        → (e : Document) × (document_set_line callbacks d (length pre + 1) str ≡ some e)
          × IsDocument e (pre ++ str ∷ post)
    unfolding document_set_line
    document_set_line-middle str =
        let (w, ran, is', _) = put-IsVector copy d.vector pre post old str is in
        (
          record { vector = w },
          rw (← at_index, ran),
          subst (λ t. IsVector w (pre ++ t ∷ post)) (copies str) is',
        )

    -- document_delete_line drops the line with the given number.
    pub document_delete_line-middle :
        (e : Document) × (document_delete_line d (length pre + 1) ≡ some e)
        × IsDocument e (pre ++ post)
    unfolding document_delete_line
    document_delete_line-middle =
        let (w, ran, is', _) = erase-IsVector d.vector pre post old is in
        (record { vector = w }, rw (lt→ltb 0 (length pre + 1) (omega arith), ← at_index, ran), is')
