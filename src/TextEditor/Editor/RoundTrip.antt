-- ===== src/TextEditor/Editor/RoundTrip.antt =====
-- Commands of text_editor/editor.c that undo one another, and the pieces of a text.
use system_programming.Base.{
  ℕ, ◌+◌, ◌^◌, ◌<◌, ◌≤◌, ◌≡◌, ◌≢◌, refl, sym, ap, ◌∙◌, subst, List, [], ◌∷◌, ◌++◌, some, inl, inr,
  Bool-cases, ◌==◌, length, length-take, take, drop, take-append-drop, take-append, drop-append,
  append_assoc, length-append, arith,
}
use system_programming.TextEditor.Strings.{Line, StringCallbacks}
use system_programming.Clib.Strings.{newline}
use system_programming.TextEditor.Document.Lines.{IsDocument}
use system_programming.TextEditor.Editor.Escapes.{pieces, onto_first}
use system_programming.TextEditor.Editor.Defs.{
  Editor, handle_insert_command, handle_delete_command, handle_merge_line, handle_split_line,
}
use system_programming.TextEditor.Editor.Commands.{
  at_loc, handle_insert_command-middle, handle_delete_command-middle, handle_split_line-middle,
  handle_merge_line-middle,
}

-- The pieces, joined again by newlines.
unfoldable pub join : List Line → List ℕ
join [] = []
join (t ∷ []) = t
join (t ∷ u ∷ ts) = t ++ newline ∷ join (u ∷ ts)

abbrev pub HasNoNewline : List ℕ → Type 0
HasNoNewline [] = Unit {0}
HasNoNewline (c ∷ cs) = (c ≢ newline) × HasNoNewline cs

abbrev pub HaveNoNewline : List Line → Type 0
HaveNoNewline [] = Unit {0}
HaveNoNewline (t ∷ ts) = HasNoNewline t × HaveNoNewline ts

abbrev Cut : List ℕ → List Line → Type 0
Cut s ts = (join ts ≡ s) × HaveNoNewline ts × (ts ≢ [])

Cut-newline :
    (c : ℕ) (cs : List ℕ) (ts : List Line) → c ≡ newline → Cut cs ts → Cut (c ∷ cs) ([] ∷ ts)
unfolding join
Cut-newline c cs [] e (j, n, ne) = absurd (ne refl)
Cut-newline c cs (t ∷ ts) e (j, n, ne) = (rw e (ap (◌∷◌ newline) j), (tt, n), λ p. cc)

Cut-plain :
    (c : ℕ) (cs : List ℕ) (ts : List Line)
    → c ≢ newline
    → Cut cs ts
    → Cut (c ∷ cs) (onto_first c ts)
unfolding join onto_first
Cut-plain c cs [] d (j, n, ne) = absurd (ne refl)
Cut-plain c cs (t ∷ []) d (j, n, ne) = (ap (◌∷◌ c) j, ((d, n.0), n.1), λ p. cc)
Cut-plain c cs (t ∷ u ∷ ts) d (j, n, ne) = (ap (◌∷◌ c) j, ((d, n.0), n.1), λ p. cc)

-- The pieces of a text hold no newline, there is at least one, and joined by newlines they give the
-- text back.
pieces-join : (s : List ℕ) → (join (pieces s) ≡ s) × HaveNoNewline (pieces s) × (pieces s ≢ [])
unfolding pieces join
pieces-join [] = (refl, (tt, tt), λ p. cc)
pieces-join (c ∷ cs) = elim (Bool-cases (c == newline)) [
  | inl hit ↦ rw hit (Cut-newline c cs (pieces cs) (ground arith) (pieces-join cs))
  | inr miss ↦ rw miss (Cut-plain c cs (pieces cs) (ground arith) (pieces-join cs))
]

take-front : (i : ℕ) (xs ys : List ℕ) → length xs ≡ i → take i (xs ++ ys) ≡ xs
take-front i xs ys h = rw (← h) (take-append xs ys)

drop-front : (i : ℕ) (xs ys : List ℕ) → length xs ≡ i → drop i (xs ++ ys) ≡ ys
drop-front i xs ys h = rw (← h) (drop-append xs ys)

module _ (callbacks : StringCallbacks) (e : Editor) (pre post : List Line) (old : Line)
    (is : IsDocument e.document (pre ++ old ∷ post)) (small : length (pre ++ post) < 2 ^ 31) where
  -- In a document that has fewer than 2^31 other lines, splitting a line at an index inside it and
  -- below 2^31 succeeds, merging the line with the next one then succeeds, and the document has its
  -- old lines again.
  pub split-merge :
      (i : ℕ)
      → i < length old
      → i < 2 ^ 31
      → (e' e'' : Editor) × (handle_split_line callbacks e (at_loc (length pre + 1) i) ≡ some e')
        × (handle_merge_line callbacks e' (length pre + 1) ≡ some e'')
        × IsDocument e''.document (pre ++ old ∷ post)
  split-merge i inside si =
      let (e', ran, is', _) =
        handle_split_line-middle callbacks e pre post old is small i inside si in
      let (e'', ran', all, _) =
        handle_merge_line-middle callbacks e' pre post (take i old) (drop i old) is' small in
      (
        e',
        e'',
        ran,
        ran',
        subst (λ t. IsDocument e''.document (pre ++ t ∷ post)) (take-append-drop i old) all,
      )

  -- In a document that has fewer than 2^31 other lines, inserting a text shorter than 2^63 bytes
  -- into a line, at an index up to its end and below 2^31, succeeds, deleting as many bytes there
  -- then succeeds, and the document has its old lines again.
  insert-delete :
      (i : ℕ) (line : Line)
      → i ≤ length old
      → i < 2 ^ 31
      → length line < 2 ^ 63
      → (e' e'' : Editor) × (handle_insert_command callbacks e (at_loc (length pre + 1) i) line
          ≡ some e')
        × (handle_delete_command callbacks e' (at_loc (length pre + 1) i) (length line) ≡ some e'')
        × IsDocument e''.document (pre ++ old ∷ post)
  insert-delete i line inside si sl =
      let s = take i old ++ (line ++ drop i old) in
      let n = length-take i old inside in
      let (e', ran, is', _) =
        handle_insert_command-middle callbacks e pre post old is small i line inside in
      let (e'', ran', all, _) =
        handle_delete_command-middle callbacks e' pre post s is' small i (length line) si sl in
      let front : take i s ≡ take i old = take-front i (take i old) (line ++ drop i old) n in
      let back : drop (i + length line) s ≡ drop i old =
        ap (drop (i + length line)) (sym (append_assoc (take i old) line (drop i old)))
        ∙ drop-front (i + length line) (take i old ++ line) (drop i old)
            (omega (arith, length-append (take i old) line, n)) in
      (
        e',
        e'',
        ran,
        ran',
        subst (λ t. IsDocument e''.document (pre ++ t ∷ post))
            (ap (λ t. t ++ drop (i + length line) s) front
              ∙ ap (λ t. take i old ++ t) back
              ∙ take-append-drop i old)
            all,
      )
