-- ===== src/TextEditor/Editor/Commands.antt =====
-- What the commands of text_editor/editor.c do to the lines of the document.
use system_programming.Base.{
  ℕ, ◌+◌, ◌*◌, ◌-◌, ◌%◌, ◌^◌, ◌<◌, ◌≤◌, ◌≡◌, refl, sym, ap, ◌∙◌, subst, List, [], ◌∷◌, ◌++◌, Option,
  some, true, false, inl, inr, Bool-cases, ltb, leb, lt→ltb, ge→ltb, if◌then◌else◌, length,
  length-append, take, drop, drop-all, take-append, drop-append, append-nil, append_assoc, arith,
}
use system_programming.Vector.Capacity.{size_mod}
use system_programming.Vector.Defs.{to_int-fits}
use system_programming.Vector.Growth.{length-middle}
use system_programming.TextEditor.Strings.{Line, StringCallbacks}
use system_programming.TextEditor.Document.Defs.{
  Document, document_size, document_get_line, document_delete_line,
}
use system_programming.TextEditor.Document.Lines.{
  IsDocument, with_line, document_insert_line-with_line, document_get_line-middle,
  document_set_line-middle, document_delete_line-middle,
}
use system_programming.TextEditor.Editor.Escapes.{unescape, pieces, unescape_in_place-unescape}
use system_programming.TextEditor.Editor.Defs.{
  Editor, Location, slice_to, ensure_line, insert_pieces, append_pieces, write_pieces,
  handle_insert_command, handle_append_command, handle_write_command, handle_delete_command,
  handle_delete_line, handle_merge_line, handle_split_line, split_off,
}

-- A command that succeeds, the lines that it leaves, and the file name as it was.
abbrev pub Yields : Editor → Option Editor → List Line → Type 0
Yields e r lines =
    (e' : Editor) × (r ≡ some e') × IsDocument e'.document lines × (e'.filename ≡ e.filename)

abbrev pub at_loc : ℕ → ℕ → Location
at_loc n i = record { line_no = n; idx = i }

pub with_line-middle :
    (pre post : List Line) (s : Line) → with_line (length pre + 1) s (pre ++ post) ≡ pre ++ s ∷ post
unfolding with_line
with_line-middle pre post s =
    let n : length pre + 1 - 1 ≡ length pre = omega arith in
    let full : length pre - length (pre ++ post) ≡ 0 = omega (arith, length-append pre post) in
    rw (n, full, append-nil (pre ++ post), take-append pre post, drop-append pre post)

module _ (callbacks : StringCallbacks) where
  -- Inserting pieces one after the other, behind the lines `pre`.
  insert_pieces-lines :
      (ts pre post : List Line) (d : Document)
      → IsDocument d (pre ++ post)
      → length (pre ++ post) + length pre + 2 * length ts < 2 ^ 60
      → (d' : Document) × (insert_pieces callbacks (length pre) ts d ≡ some d')
        × IsDocument d' (pre ++ (ts ++ post))
  unfolding insert_pieces
  insert_pieces-lines [] pre post d is small = (d, refl, is)
  insert_pieces-lines (t ∷ ts) pre post d is small =
      let (d', ran, is') =
        document_insert_line-with_line callbacks d (pre ++ post) (length pre + 1) t is (omega arith)
          (omega arith) in
      let lines = with_line-middle pre post t ∙ sym (append_assoc pre (t ∷ []) post) in
      let n : length (pre ++ t ∷ []) ≡ length pre + 1 = length-append pre (t ∷ []) in
      let (x, rest, all) =
        insert_pieces-lines ts (pre ++ t ∷ []) post d' (subst (IsDocument d') lines is') (
          omega (arith, n, ap length (append_assoc pre (t ∷ []) post), length-middle pre post t)) in
      (
        x,
        rw ran (ap (λ i. insert_pieces callbacks i ts d') (sym n) ∙ rest),
        subst (IsDocument x) (append_assoc pre (t ∷ []) (ts ++ post)) all,
      )

  -- The line behind the first of two, as the line at the end of a longer prefix.
  longer :
      (d : Document) (pre post : List Line) (a b : Line)
      → IsDocument d (pre ++ a ∷ b ∷ post)
      → IsDocument d ((pre ++ a ∷ []) ++ b ∷ post)
  longer d pre post a b is = subst (IsDocument d) (sym (append_assoc pre (a ∷ []) (b ∷ post))) is

  second_line :
      (d : Document) (pre post : List Line) (a b : Line)
      → IsDocument d (pre ++ a ∷ b ∷ post)
      → length pre + 1 < 2 ^ 60
      → document_get_line d (length pre + 1 + 1) ≡ some b
  second_line d pre post a b is fits =
      let n : length (pre ++ a ∷ []) ≡ length pre + 1 = length-append pre (a ∷ []) in
      ap (λ k. document_get_line d (k + 1)) (sym n)
      ∙ document_get_line-middle callbacks d (pre ++ a ∷ []) post b (longer d pre post a b is)
          (omega (arith, n))

  drop_second :
      (d : Document) (pre post : List Line) (a b : Line)
      → IsDocument d (pre ++ a ∷ b ∷ post)
      → length pre + 1 < 2 ^ 60
      → (x : Document) × (document_delete_line d (length pre + 1 + 1) ≡ some x)
        × IsDocument x (pre ++ a ∷ post)
  drop_second d pre post a b is fits =
      let n : length (pre ++ a ∷ []) ≡ length pre + 1 = length-append pre (a ∷ []) in
      let (x, ran, is') =
        document_delete_line-middle callbacks d (pre ++ a ∷ []) post b (longer d pre post a b is)
          (omega (arith, n)) in
      (
        x,
        ap (λ k. document_delete_line d (k + 1)) (sym n) ∙ ran,
        subst (IsDocument x) (append_assoc pre (a ∷ []) post) is',
      )

  -- The pieces behind the first go below its line.
  below :
      (pre post : List Line) (d : Document) (first : Line) (ts : List Line)
      → IsDocument d (pre ++ first ∷ post)
      → length (pre ++ post) < 2 ^ 31
      → length ts < 2 ^ 31
      → (x : Document) × (insert_pieces callbacks (length pre + 1) ts d ≡ some x)
        × IsDocument x (pre ++ first ∷ (ts ++ post))
  below pre post d first ts is small few =
      let n : length (pre ++ first ∷ []) ≡ length pre + 1 = length-append pre (first ∷ []) in
      let regroup = append_assoc pre (first ∷ []) post in
      let (x, ran, all) =
        insert_pieces-lines ts (pre ++ first ∷ []) post d (subst (IsDocument d) (sym regroup) is) (
          omega
            (arith, n, ap length regroup, length-middle pre post first, length-append pre post)) in
      (
        x,
        ap (λ i. insert_pieces callbacks i ts d) (sym n) ∙ ran,
        subst (IsDocument x) (append_assoc pre (first ∷ []) (ts ++ post)) all,
      )

  cut_lem :
      (i stop : ℕ) (s : Line)
      → (if leb (length s) stop then take i s else take i s ++ drop stop s)
        ≡ take i s ++ drop stop s
  cut_lem i stop s = elim (Bool-cases (leb (length s) stop)) [
    | inl past ↦ rw (past, drop-all stop s (ground arith)) (sym (append-nil (take i s)))
    | inr more ↦ rw more
  ]

  module _ (e : Editor) (pre post : List Line) (old : Line)
      (is : IsDocument e.document (pre ++ old ∷ post)) (small : length (pre ++ post) < 2 ^ 31) where
    fits : length pre < 2 ^ 60
    fits = omega (arith, length-append pre post)

    here : ltb (document_size e.document) (length pre + 1) ≡ false
    unfolding document_size
    here = ge→ltb _ _ (omega (arith, is.size, length-middle pre post old, length-append pre post))

    -- Text inserted into a line goes between the bytes before and behind the index.
    pub handle_insert_command-middle :
        (i : ℕ) (line : Line)
        → i ≤ length old
        → Yields e
            (handle_insert_command callbacks e (at_loc (length pre + 1) i) line)
            (pre ++ (take i old ++ (line ++ drop i old)) ∷ post)
    unfolding handle_insert_command
    handle_insert_command-middle i line inside =
        let got = document_get_line-middle callbacks e.document pre post old is fits in
        let (d, ran, is') =
          document_set_line-middle callbacks e.document pre post old is fits
            (take i old ++ (line ++ drop i old)) in
        let asserted : leb 1 (length pre + 1) ≡ true = ground arith in
        let within : leb i (length old) ≡ true = ground arith in
        (record e { document = d }, rw (asserted, here, got, within, ran), is', refl)

    -- handle_delete_line drops the line.
    pub handle_delete_line-middle :
        Yields e (handle_delete_line callbacks e (length pre + 1)) (pre ++ post)
    unfolding handle_delete_line
    handle_delete_line-middle =
        let (d, ran, is') = document_delete_line-middle callbacks e.document pre post old is fits in
        (record e { document = d }, rw (here, ran), is', refl)

    -- handle_delete_command drops the bytes from the index on, at most as many as there are.
    pub handle_delete_command-middle :
        (i k : ℕ)
        → i < 2 ^ 31
        → k < 2 ^ 63
        → Yields e
            (handle_delete_command callbacks e (at_loc (length pre + 1) i) k)
            (pre ++ (take i old ++ drop (i + k) old) ∷ post)
    unfolding handle_delete_command slice_to
    handle_delete_command-middle i k si sk =
        let got = document_get_line-middle callbacks e.document pre post old is fits in
        let stop : (i + k) % size_mod ≡ i + k = omega arith in
        let cut : (if leb (length old) (i + k) then take i old else take i old ++ drop (i + k) old)
            ≡ take i old ++ drop (i + k) old =
          cut_lem i (i + k) old in
        let (d, ran, is') =
          document_set_line-middle callbacks e.document pre post old is fits
            (take i old ++ drop (i + k) old) in
        (
          record e { document = d },
          rw (here, got, stop, to_int-fits i i refl si, cut, ran),
          is',
          refl,
        )

    -- In a document that has fewer than 2^31 other lines, handle_append_command succeeds on a line
    -- of the document and a text with fewer than 2^31 newlines: the first piece of the text goes
    -- behind the line and the others become new lines below it, in order.
    handle_append_command-middle :
        (text first : Line) (ts : List Line)
        → pieces (unescape text) ≡ first ∷ ts
        → length ts < 2 ^ 31
        → Yields e
            (handle_append_command callbacks e (length pre + 1) text)
            (pre ++ (old ++ first) ∷ (ts ++ post))
    unfolding handle_append_command ensure_line append_pieces
    handle_append_command-middle text first ts cut few =
        let got = document_get_line-middle callbacks e.document pre post old is fits in
        let (d, ran, is') =
          document_set_line-middle callbacks e.document pre post old is fits (old ++ first) in
        let (x, rest, all) = below pre post d (old ++ first) ts is' small few in
        let asserted : ltb 0 (length pre + 1) ≡ true = ground arith in
        (record e { document = x }, rw (asserted, here, cut, got, ran, rest), all, refl)

    -- In a document that has fewer than 2^31 other lines, handle_write_command succeeds on a line
    -- of the document and a text with fewer than 2^31 newlines: the first piece of the text
    -- replaces the line and the others become new lines below it, in order.
    handle_write_command-middle :
        (text first : Line) (ts : List Line)
        → pieces (unescape text) ≡ first ∷ ts
        → length ts < 2 ^ 31
        → Yields e
            (handle_write_command callbacks e (length pre + 1) text)
            (pre ++ first ∷ (ts ++ post))
    unfolding handle_write_command ensure_line write_pieces
    handle_write_command-middle text first ts cut few =
        let (d, ran, is') =
          document_set_line-middle callbacks e.document pre post old is fits first in
        let (x, rest, all) = below pre post d first ts is' small few in
        let asserted : ltb 0 (length pre + 1) ≡ true = ground arith in
        (
          record e { document = x },
          rw (asserted, here, unescape_in_place-unescape text, cut, ran, rest),
          all,
          refl,
        )

    -- handle_split_line cuts the line at the index, and the rest of it becomes the next line.
    pub handle_split_line-middle :
        (i : ℕ)
        → i < length old
        → i < 2 ^ 31
        → Yields e
            (handle_split_line callbacks e (at_loc (length pre + 1) i))
            (pre ++ take i old ∷ drop i old ∷ post)
    unfolding handle_split_line split_off slice_to
    handle_split_line-middle i inside si =
        let got = document_get_line-middle callbacks e.document pre post old is fits in
        let within : leb (length old) i ≡ false = ground arith in
        let regroup = append_assoc pre (old ∷ []) post in
        let n : length (pre ++ old ∷ []) ≡ length pre + 1 = length-append pre (old ∷ []) in
        let (d, ran, is') =
          document_insert_line-with_line callbacks e.document (pre ++ old ∷ post)
            (length pre + 1 + 1) (drop i old) is (omega arith)
            (omega (arith, length-append pre post, length-middle pre post old)) in
        let lines : with_line (length pre + 1 + 1) (drop i old) (pre ++ old ∷ post)
            ≡ pre ++ old ∷ drop i old ∷ post =
          ap (λ k. with_line (k + 1) (drop i old) (pre ++ old ∷ post)) (sym n)
          ∙ ap (with_line (length (pre ++ old ∷ []) + 1) (drop i old)) (sym regroup)
          ∙ with_line-middle (pre ++ old ∷ []) post (drop i old)
          ∙ append_assoc pre (old ∷ []) (drop i old ∷ post) in
        let (x, rest, all) =
          document_set_line-middle callbacks d pre (drop i old ∷ post) old
            (subst (IsDocument d) lines is') fits (take i old) in
        (record e { document = x }, rw (got, within, ran, to_int-fits i i refl si, rest), all, refl)

  module _ (e : Editor) (pre post : List Line) (a b : Line)
      (is : IsDocument e.document (pre ++ a ∷ b ∷ post))
      (small : length (pre ++ post) < 2 ^ 31) where
    -- handle_merge_line joins a line with the next one.
    pub handle_merge_line-middle :
        Yields e (handle_merge_line callbacks e (length pre + 1)) (pre ++ (a ++ b) ∷ post)
    unfolding handle_merge_line document_size
    handle_merge_line-middle =
        let fits' : length pre + 1 < 2 ^ 60 = omega (arith, length-append pre post) in
        let got = document_get_line-middle callbacks e.document pre (b ∷ post) a is (omega arith) in
        let asserted : ltb (length pre + 1) e.document.vector.size ≡ true = lt→ltb _ _ (
          omega (
            arith,
            is.size,
            length-middle pre (b ∷ post) a,
            length-middle pre post b,
            length-append pre post,
          )) in
        let got' = second_line e.document pre post a b is fits' in
        let (d, ran, is') =
          document_set_line-middle callbacks e.document pre (b ∷ post) a is (omega arith)
            (a ++ b) in
        let (x, rest, all) = drop_second d pre post (a ++ b) b is' fits' in
        (record e { document = x }, rw (asserted, got, got', ran, rest), all, refl)
