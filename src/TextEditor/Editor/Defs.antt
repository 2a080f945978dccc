-- ===== src/TextEditor/Editor/Defs.antt =====
-- The commands of text_editor/editor.c. A location is a line number and an index in the line. A
-- command that reads behind a string, or fails an assertion, is a fault. The local vector of pieces
-- is its list of elements.
use system_programming.Base.{
  ℕ, zero, suc, ◌+◌, ◌-◌, ◌%◌, List, [], ◌∷◌, ◌++◌, Option, none, some, Bool, true, false, ◌&&◌,
  ltb, leb, ◌==◌, if◌then◌else◌, length, take, drop, ◌>>=◌, ◌>>◌, guard,
}
use system_programming.Vector.Capacity.{size_mod}
use system_programming.Vector.Defs.{to_int}
use system_programming.TextEditor.Strings.{Line, StringCallbacks}
use system_programming.TextEditor.Document.Defs.{
  Document, document_size, document_get_line, document_delete_line, document_set_line,
  document_insert_line,
}
use system_programming.TextEditor.Document.File.{document_write_to_file, document_create_from_file}
use system_programming.TextEditor.Editor.Escapes.{unescape, unescape_in_place, pieces}

pub record Editor : Type 0 where
  pub document : Document
  pub filename : Line

pub record Location : Type 0 where
  pub line_no : ℕ
  pub idx : ℕ

-- strncpy of the first bytes, for sstring_slice(s, 0, end): `end` is an int.
unfoldable pub slice_to : ℕ → Line → Option Line
slice_to end_index s = do n ← to_int end_index; some (take n s)

unfoldable pub starts_with : Line → Line → Bool
starts_with [] s = true
starts_with (c ∷ cs) [] = false
starts_with (c ∷ cs) (d ∷ ds) = c == d && starts_with cs ds

-- strstr(3): the offset of the first occurrence.
abbrev pub one_later : Option ℕ → Option ℕ
one_later none = none
one_later (some k) = some (suc k)

unfoldable pub find_str : Line → Line → Option ℕ
find_str needle [] = if starts_with needle [] then some 0 else none
find_str needle (c ∷ cs) =
    let later = one_later (find_str needle cs) in
    if starts_with needle (c ∷ cs) then some 0 else later

-- The line numbers that handle_display_command prints; `max_lines` is an ssize_t in two's
-- complement, and -1 stands for all lines.
unfoldable pub range_up_to : ℕ → ℕ → ℕ → List ℕ
range_up_to zero i stop = []
range_up_to (suc k) i stop =
    let rest = range_up_to k (i + 1) stop in if ltb i stop then i ∷ rest else []

unfoldable pub displayed : ℕ → ℕ → ℕ → List ℕ
displayed size start_line max_lines =
    if size == 0
    then []
    else if max_lines == size_mod - 1
    then range_up_to (size + 1 - start_line) start_line (size + 1)
    else range_up_to (size + 1 - start_line) start_line ((start_line + max_lines) % size_mod)

unfoldable pub handle_display_command : Editor → ℕ → ℕ → List ℕ
handle_display_command e start_line max_lines =
    displayed (document_size e.document) start_line max_lines

module _ (callbacks : StringCallbacks) where
  unfoldable pub handle_create_document : Line → Option (List ℕ) → Option Editor
  handle_create_document path file = do
    d ← document_create_from_file callbacks file
    some (record { document = d; filename = path })

  -- The branch of append and write that makes room for the line.
  unfoldable pub ensure_line : Document → ℕ → Option Document
  ensure_line d line_no =
      if ltb (document_size d) line_no then document_insert_line callbacks d line_no [] else some d

  -- for (i = 1; ...) document_insert_line(editor->document, ++line_no, vector_get(v, i)).
  unfoldable pub insert_pieces : ℕ → List Line → Document → Option Document
  insert_pieces line_no [] d = some d
  insert_pieces line_no (t ∷ ts) d = do
    d' ← document_insert_line callbacks d (line_no + 1) t
    insert_pieces (line_no + 1) ts d'

  unfoldable pub handle_insert_command : Editor → Location → Line → Option Editor
  handle_insert_command e loc line = do
    guard (leb 1 loc.line_no)
    d ←
        if ltb (document_size e.document) loc.line_no
        then document_insert_line callbacks e.document loc.line_no line
        else (do
          old ← document_get_line e.document loc.line_no
          guard (leb loc.idx (length old))
          document_set_line callbacks e.document loc.line_no
              (take loc.idx old ++ (line ++ drop loc.idx old)))
    some (record e { document = d })

  -- The first piece goes to the end of the line, the others become new lines behind it.
  unfoldable pub append_pieces : Document → ℕ → List Line → Option Document
  append_pieces d line_no [] = none
  append_pieces d line_no (first ∷ ts) = do
    origin ← document_get_line d line_no
    d' ← document_set_line callbacks d line_no (origin ++ first)
    insert_pieces line_no ts d'

  unfoldable pub handle_append_command : Editor → ℕ → Line → Option Editor
  handle_append_command e line_no line = do
    guard (ltb 0 line_no)
    d ← ensure_line e.document line_no
    d' ← append_pieces d line_no (pieces (unescape line))
    some (record e { document = d' })

  unfoldable pub write_pieces : Document → ℕ → List Line → Option Document
  write_pieces d line_no [] = none
  write_pieces d line_no (first ∷ ts) = do
    d' ← document_set_line callbacks d line_no first
    insert_pieces line_no ts d'

  unfoldable pub handle_write_command : Editor → ℕ → Line → Option Editor
  handle_write_command e line_no line = do
    guard (ltb 0 line_no)
    d ← ensure_line e.document line_no
    d' ← write_pieces d line_no (pieces (unescape_in_place line))
    some (record e { document = d' })

  unfoldable pub handle_delete_command : Editor → Location → ℕ → Option Editor
  handle_delete_command e loc num_chars =
      if ltb (document_size e.document) loc.line_no then some e else (do
        line ← document_get_line e.document loc.line_no
        let stop = (loc.idx + num_chars) % size_mod
        front ← slice_to loc.idx line
        d ←
            document_set_line callbacks e.document loc.line_no
              (if leb (length line) stop then front else front ++ drop stop line)
        some (record e { document = d }))

  unfoldable pub handle_delete_line : Editor → ℕ → Option Editor
  handle_delete_line e line_no =
      if ltb (document_size e.document) line_no
      then some e
      else (do d ← document_delete_line e.document line_no; some (record e { document = d }))

  unfoldable pub handle_merge_line : Editor → ℕ → Option Editor
  handle_merge_line e line_no = do
    guard (ltb line_no (document_size e.document))
    line ← document_get_line e.document line_no
    next ← document_get_line e.document (line_no + 1)
    d ← document_set_line callbacks e.document line_no (line ++ next)
    d' ← document_delete_line d (line_no + 1)
    some (record e { document = d' })

  -- handle_split_line behind its early return.
  unfoldable pub split_off : Editor → Location → Line → Option Editor
  split_off e loc line = do
    d ← document_insert_line callbacks e.document (loc.line_no + 1) (drop loc.idx line)
    front ← slice_to loc.idx line
    d' ← document_set_line callbacks d loc.line_no front
    some (record e { document = d' })

  unfoldable pub handle_split_line : Editor → Location → Option Editor
  handle_split_line e loc = do
    line ← document_get_line e.document loc.line_no
    (if leb (length line) loc.idx then some e else split_off e loc line)

-- if(i > document_size) j = i - document_size.
abbrev pub wrapped : ℕ → ℕ → ℕ
wrapped size i = if ltb size i then i - size else i

-- if(index >= strlen(curr)) index = -1; if(i > loc.line_no) index = -1.
abbrev pub restart : ℕ → ℕ → ℕ → ℕ → ℕ
restart first i n start = if ltb first i then 0 else if ltb n start then 0 else start

-- if(search) return the target, or go on.
abbrev pub found_or : ℕ → ℕ → Option Location → Option ℕ → Option Location
found_or j from rest none = rest
found_or j from rest (some k) = some (record { line_no = j; idx = from + k })

-- The loop of handle_search_command from round `i` on. `start` is the C code's `index + 1`.
unfoldable pub search_loop : Document → Line → ℕ → ℕ → ℕ → ℕ → Option Location
search_loop d needle first zero i start = some (record { line_no = 0; idx = 0 })
search_loop d needle first (suc k) i start = do
  line ← document_get_line d (wrapped (document_size d) i)
  n ← to_int (length line)
  let from = restart first i n start
  let rest = search_loop d needle first k (i + 1) from
  found_or (wrapped (document_size d) i) from rest (find_str needle (drop from line))

unfoldable pub handle_search_command : Editor → Location → Line → Option Location
handle_search_command e loc needle =
    if length needle == 0 then some (record { line_no = 0; idx = 0 }) else (do
      index ← to_int loc.idx
      search_loop e.document needle loc.line_no
          ((loc.line_no + document_size e.document) % size_mod - loc.line_no) loc.line_no
          (index + 1))

unfoldable pub handle_save_command : Bool → Editor → Option (List ℕ) → Option (Option (List ℕ))
handle_save_command opened e file = document_write_to_file opened e.document file
