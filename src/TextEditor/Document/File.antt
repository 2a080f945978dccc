-- ===== src/TextEditor/Document/File.antt =====
-- document_write_to_file and document_create_from_file of text_editor/document.c. A file is its
-- bytes, or `none` where there is none; `opened` says whether open(2) succeeds.
use system_programming.Clib.Strings.{newline, split_line}
use system_programming.Base.{
  ℕ, zero, suc, ◌+◌, ◌^◌, ◌<◌, ◌≤◌, ◌≡◌, ◌≢◌, refl, sym, ap, ◌∙◌, subst, List, [], ◌∷◌, ◌++◌,
  c_string, Option, none, some, Bool, true, ◌==◌, if◌then◌else◌, length, length-append, append-nil,
  append_assoc, ◌>>=◌, arith,
}
use system_programming.Vector.Defs.{Vector, get, push_back, to_int, to_int-fits, create}
use system_programming.Vector.Contents.{IsVector, create-IsVector}
use system_programming.Vector.Growth.{push_back-IsVector, get-middle}
use system_programming.TextEditor.Strings.{Line, StringCallbacks}
use system_programming.TextEditor.Document.Defs.{Document, document_create}
use system_programming.TextEditor.Document.Lines.{IsDocument}

-- for (i = from; i < from + rounds; i++) dprintf(fildes, "%s\n", vector_get(this->vector, i)).
unfoldable pub print_from : ℕ → ℕ → Vector Line → List ℕ → Option (List ℕ)
print_from zero from v out = some out
print_from (suc k) from v out = do
  s ← get v from
  print_from k (from + 1) v (out ++ (s ++ newline ∷ []))

-- The file afterwards. When it cannot be opened, the writes fail and nothing is reported.
unfoldable pub document_write_to_file : Bool → Document → Option (List ℕ) → Option (Option (List ℕ))
document_write_to_file opened d file = do
  rounds ← to_int d.vector.size
  out ← print_from rounds 0 d.vector []
  some (if opened then some out else file)

-- if(line[read - 1] == '\n') line[read - 1] = '\0'.
unfoldable pub chomp : List ℕ → List ℕ
chomp [] = []
chomp (c ∷ []) = if c == newline then [] else c ∷ []
chomp (c ∷ d ∷ cs) = c ∷ chomp (d ∷ cs)

module _ (callbacks : StringCallbacks) where
  open callbacks use {copy, copies}

  -- The loop over getline; out of fuel is `none`.
  unfoldable pub read_lines : ℕ → List ℕ → Vector Line → Option (Vector Line)
  read_lines zero bytes v = none
  read_lines (suc fuel) [] v = some v
  read_lines (suc fuel) (c ∷ cs) v = do
    let (line, rest) = split_line (c ∷ cs)
    w ← push_back copy v (c_string (chomp line))
    read_lines fuel rest w

  -- Every round takes a byte at least.
  unfoldable pub document_create_from_file : Option (List ℕ) → Option Document
  document_create_from_file none = some document_create
  document_create_from_file (some bytes) = do
    v ← read_lines (suc (length bytes)) bytes document_create.vector
    some (record { vector = v })

-- A line that a text file can hold: no NUL and no newline.
abbrev pub IsPlain : Line → Type 0
IsPlain [] = Unit {0}
IsPlain (c ∷ cs) = (c ≢ 0) × (c ≢ newline) × IsPlain cs

abbrev pub ArePlain : List Line → Type 0
ArePlain [] = Unit {0}
ArePlain (s ∷ lines) = IsPlain s × ArePlain lines

-- The bytes of a file with these lines.
unfoldable pub file_of : List Line → List ℕ
file_of [] = []
file_of (s ∷ lines) = s ++ newline ∷ file_of lines

split_line-plain :
    (s : Line) (rest : List ℕ)
    → IsPlain s
    → split_line (s ++ newline ∷ rest) ≡ (s ++ newline ∷ [], rest)
unfolding split_line
split_line-plain [] rest p = refl
split_line-plain (c ∷ s) rest p = ground (arith, split_line-plain s rest p.2)

chomp-newline : (s : Line) → chomp (s ++ newline ∷ []) ≡ s
unfolding chomp
chomp-newline [] = refl
chomp-newline (c ∷ []) = refl
chomp-newline (c ∷ d ∷ s) = ap (◌∷◌ c) (chomp-newline (d ∷ s))

c_string-plain : (s : Line) → IsPlain s → c_string s ≡ s
unfolding c_string
c_string-plain [] p = refl
c_string-plain (c ∷ s) p = ground (arith, c_string-plain s p.2)

print_from-file_of :
    (lines pre : List Line) (v : Vector Line) (out : List ℕ)
    → IsVector v (pre ++ lines)
    → print_from (length lines) (length pre) v out ≡ some (out ++ file_of lines)
unfolding print_from file_of
print_from-file_of [] pre v out is = ap some (sym (append-nil out))
print_from-file_of (s ∷ lines) pre v out is =
    let is' = subst (IsVector v) (sym (append_assoc pre (s ∷ []) lines)) is in
    let rest = print_from-file_of lines (pre ++ s ∷ []) v (out ++ (s ++ newline ∷ [])) is' in
    let at : length (pre ++ s ∷ []) ≡ length pre + 1 = length-append pre (s ∷ []) in
    rw (get-middle v pre lines s is, ← at, rest)
      (ap some (
        append_assoc out (s ++ newline ∷ []) (file_of lines)
        ∙ ap (λ t. out ++ t) (append_assoc s (newline ∷ []) (file_of lines))))

file_of-cons : (s : Line) (rest : List ℕ) → (c : ℕ) × (cs : List ℕ) × (s ++ newline ∷ rest ≡ c ∷ cs)
file_of-cons [] rest = (newline, rest, refl)
file_of-cons (c ∷ s) rest = (c, s ++ newline ∷ rest, refl)

length-file_of : (lines : List Line) → length lines ≤ length (file_of lines)
unfolding file_of
length-file_of [] = omega arith
length-file_of (s ∷ lines) =
    omega (arith, length-file_of lines, length-append s (newline ∷ file_of lines))

module _ (callbacks : StringCallbacks) where
  open callbacks use {copy, copies}

  read_lines-cons :
      (fuel : ℕ) (s : Line) (rest : List ℕ) (v : Vector Line)
      → IsPlain s
      → read_lines callbacks (suc fuel) (s ++ newline ∷ rest) v
        ≡ (push_back copy v s >>= λ w. read_lines callbacks fuel rest w)
  unfolding read_lines
  read_lines-cons fuel s rest v p =
      let (c, cs, e) = file_of-cons s rest in
      let split = ap split_line (sym e) ∙ split_line-plain s rest p in
      rw e (rw (split, chomp-newline s, c_string-plain s p))

  -- The reading loop appends the lines of the file.
  read_lines-file_of :
      (fuel : ℕ) (lines done : List Line) (v : Vector Line)
      → ArePlain lines
      → IsVector v done
      → length lines < fuel
      → length done + length lines ≤ 2 ^ 60
      → (w : Vector Line) × (read_lines callbacks fuel (file_of lines) v ≡ some w)
        × IsVector w (done ++ lines)
  unfolding file_of
  read_lines-file_of zero lines done v p is enough small = absurd (omega arith)
  read_lines-file_of (suc fuel) [] done v p is enough small =
      (v, unfold read_lines in refl, subst (IsVector v) (sym (append-nil done)) is)
  read_lines-file_of (suc fuel) (s ∷ lines) done v p is enough small =
      let (u, ran, is', _) = push_back-IsVector copy v done s is (omega arith) in
      let added : IsVector u (done ++ s ∷ []) =
        subst (λ t. IsVector u (done ++ t ∷ [])) (copies s) is' in
      let (w, rest, all) =
        read_lines-file_of fuel lines (done ++ s ∷ []) u p.1 added (omega arith)
          (omega (arith, length-append done (s ∷ []))) in
      (
        w,
        read_lines-cons fuel s (file_of lines) v p.0 ∙ rw ran rest,
        subst (IsVector w) (append_assoc done (s ∷ []) lines) all,
      )

  -- For a document of fewer than 2^31 lines, none of which holds a newline or a NUL byte,
  -- document_write_to_file succeeds on a file that can be opened, and document_create_from_file
  -- reads from what it wrote a document with the same lines.
  pub document_file_round_trip :
      (d : Document) (lines : List Line) (file : Option (List ℕ))
      → IsDocument d lines
      → ArePlain lines
      → length lines < 2 ^ 31
      → (bytes : List ℕ) × (e : Document) × (document_write_to_file true d file ≡ some (some bytes))
        × (document_create_from_file callbacks (some bytes) ≡ some e)
        × IsDocument e lines
  unfolding document_write_to_file document_create_from_file document_create
  document_file_round_trip d lines file is plain small =
      let (w, ran, all) =
        read_lines-file_of (suc (length (file_of lines))) lines [] create plain create-IsVector
          (omega (arith, length-file_of lines)) (omega arith) in
      (
        file_of lines,
        record { vector = w },
        rw (
          to_int-fits d.vector.size (length lines) is.size small,
          print_from-file_of lines [] d.vector [] is,
        ),
        rw ran,
        all,
      )
