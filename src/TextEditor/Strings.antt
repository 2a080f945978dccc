-- ===== src/TextEditor/Strings.antt =====
-- C strings, as lists of bytes without the closing NUL, and the string callbacks of the vector
-- library, which text_editor takes from a header: the copy constructor is documented to return an
-- equal string.
use system_programming.Base.{ℕ, ◌≡◌, List}

abbrev pub Line : Type 0
Line = List ℕ

pub record StringCallbacks : Type 0 where
  pub copy : Line → Line
  pub copies : (s : Line) → copy s ≡ s
