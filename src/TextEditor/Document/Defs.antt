-- ===== src/TextEditor/Document/Defs.antt =====
-- The struct of text_editor/document.c and its operations on lines.
use system_programming.Base.{
  ℕ, zero, suc, ◌+◌, ◌-◌, ◌%◌, List, [], Option, some, ltb, if◌then◌else◌, ◌>>=◌, ◌>>◌, guard,
}
use system_programming.Vector.Capacity.{size_mod}
use system_programming.Vector.Defs.{Vector, create, insert, put, get, erase, destroy}
use system_programming.TextEditor.Strings.{Line, StringCallbacks}

pub record Document : Type 0 where
  pub vector : Vector Line

-- `line_number - 1` in `size_t`.
abbrev pub index_of : ℕ → ℕ
index_of line_number = (line_number + size_mod - 1) % size_mod

unfoldable pub document_create : Document
document_create = record { vector = create }

unfoldable pub document_destroy : Document → Option (List Line)
document_destroy d = destroy d.vector

unfoldable pub document_size : Document → ℕ
document_size d = d.vector.size

unfoldable pub document_get_line : Document → ℕ → Option Line
document_get_line d line_number = do guard (ltb 0 line_number); get d.vector (index_of line_number)

unfoldable pub document_delete_line : Document → ℕ → Option Document
document_delete_line d line_number = do
  guard (ltb 0 line_number)
  v ← erase d.vector (index_of line_number)
  some (record { vector = v })

module _ (callbacks : StringCallbacks) where
  open callbacks use {copy}

  unfoldable pub document_set_line : Document → ℕ → Line → Option Document
  document_set_line d line_number str = do
    v ← put copy d.vector (index_of line_number) str
    some (record { vector = v })

  -- for (i = from; i < from + rounds; i++) vector_insert(this->vector, i, "").
  unfoldable pub pad : ℕ → ℕ → Vector Line → Option (Vector Line)
  pad zero from v = some v
  pad (suc k) from v = do w ← insert copy v from []; pad k (from + 1) w

  unfoldable pub document_insert_line : Document → ℕ → Line → Option Document
  document_insert_line d line_number str = do
    padded ←
        if ltb d.vector.size line_number
        then pad (line_number - 1 - d.vector.size) d.vector.size d.vector
        else some d.vector
    v ← insert copy padded (index_of line_number) str
    some (record { vector = v })
