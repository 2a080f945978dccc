-- ===== src/TextEditor/Examples.antt =====
-- The theorems on text_editor at a concrete document of two lines.
use system_programming.Base.{ℕ, ◌≡◌, ◌⊎◌, refl, List, [], ◌∷◌, true, none, some, arith}
use system_programming.Vector.Defs.{to_int}
use system_programming.Vector.Defs
use system_programming.Vector.Cells.{load}
use system_programming.TextEditor.Strings.{Line, StringCallbacks}
use system_programming.TextEditor.Document.Defs.{Document, document_size, document_get_line}
use system_programming.TextEditor.Document.Lines.{IsDocument, document_get_line-middle}
use system_programming.TextEditor.Document.File.{
  document_write_to_file, document_create_from_file, ArePlain, document_file_round_trip,
}
use system_programming.TextEditor.Editor.Escapes.{backslash, unescape, pieces, onto_first}
use system_programming.TextEditor.Editor.Defs.{
  Editor, Location, find_str, starts_with, search_loop, handle_merge_line, handle_split_line,
  handle_search_command,
}
use system_programming.TextEditor.Editor.Commands.{at_loc}
use system_programming.TextEditor.Editor.RoundTrip.{split-merge}
use system_programming.TextEditor.Editor.Search.{Occurs, nowhere, handle_search_command-Occurs}

-- Callbacks that return their argument.
abbrev plain_callbacks : StringCallbacks
plain_callbacks = record { copy = λ s. s; copies = λ s. refl }

abbrev first_line : Line
first_line = b'a' ∷ b'b' ∷ b'c' ∷ []

abbrev second_line : Line
second_line = b'd' ∷ []

abbrev two_lines : List Line
two_lines = first_line ∷ second_line ∷ []

abbrev two_document : Document
two_document = record {
  vector = record {
    array = some first_line ∷ some second_line ∷ none ∷ none ∷ [];
    size = 2;
    capacity = 4;
    destroyed = [];
  };
}

two-IsDocument : IsDocument two_document two_lines
two-IsDocument = record {
  block = record { spare = none ∷ none ∷ []; filled = refl; counted = refl; bounded = omega arith };
  size = refl;
}

abbrev two_editor : Editor
two_editor = record { document = two_document; filename = b'f' ∷ [] }

two-ArePlain : ArePlain two_lines
two-ArePlain =
    ((λ e. cc, λ e. cc, (λ e. cc, λ e. cc, (λ e. cc, λ e. cc, tt))), ((λ e. cc, λ e. cc, tt), tt))

document_file_round_trip_example :
    (bytes : List ℕ) × (e : Document) × (document_write_to_file true two_document none
      ≡ some (some bytes))
    × (document_create_from_file plain_callbacks (some bytes) ≡ some e)
    × IsDocument e two_lines
document_file_round_trip_example =
    document_file_round_trip plain_callbacks two_document two_lines none two-IsDocument two-ArePlain
      (omega arith)

split-merge_example :
    (e' e'' : Editor) × (handle_split_line plain_callbacks two_editor (at_loc 1 2) ≡ some e')
    × (handle_merge_line plain_callbacks e' 1 ≡ some e'')
    × IsDocument e''.document two_lines
split-merge_example =
    split-merge plain_callbacks two_editor [] (second_line ∷ []) first_line two-IsDocument
      (omega arith) 2 (omega arith) (omega arith)

-- x\ny, with an escape for the newline.
abbrev typed : Line
typed = b'x' ∷ backslash ∷ b'n' ∷ b'y' ∷ []

typed-pieces : pieces (unescape typed) ≡ (b'x' ∷ []) ∷ (b'y' ∷ []) ∷ []
unfolding pieces unescape onto_first
typed-pieces = refl

handle_search_command-Occurs_example :
    (result : Location) × (handle_search_command two_editor (at_loc 1 0) (b'd' ∷ []) ≡ some result)
    × ((result ≡ nowhere) ⊎ Occurs two_document (b'd' ∷ []) result)
handle_search_command-Occurs_example =
    handle_search_command-Occurs plain_callbacks two_document two_lines two-IsDocument (omega arith)
      (omega arith, (omega arith, tt)) (b'f' ∷ []) (at_loc 1 0) (b'd' ∷ []) (λ e. cc) (omega arith)
      (omega arith) (omega arith)

no_z : handle_search_command two_editor (at_loc 1 0) (b'z' ∷ []) ≡ some nowhere
unfolding handle_search_command search_loop document_size document_get_line find_str starts_with
    to_int Defs.get load
no_z = refl

second_there : document_get_line two_document 2 ≡ some second_line
second_there =
    document_get_line-middle plain_callbacks two_document (first_line ∷ []) [] second_line
      two-IsDocument (omega arith)

two_long : document_size two_document ≡ 2
unfolding document_size
two_long = refl
