-- ===== src/MapReduce/Core/Mapper.antt =====
-- mapreduce/core/mapper.c and the mappers of mapreduce/mappers. A mapper gets the bytes of a line and
-- returns the bytes that it prints.
pub mod Letters
use system_programming.Base.{
  ℕ, zero, suc, ◌≡◌, List, [], ◌∷◌, ◌++◌, map, Bool, true, false, ◌==◌, if◌then◌else◌, Option, none,
  some, length, c_string, ◌>>=◌,
}
use system_programming.Clib.Strings.{newline, split_line, tokens}
use system_programming.Clib.Ctype.{Ctype}
use system_programming.Clib.Decimal.{decimal}

-- The newline at the end of a line, and the carriage return in front of it.
unfoldable pub chomp_return : List ℕ → List ℕ
chomp_return [] = []
chomp_return (c ∷ []) = if c == newline then [] else c ∷ []
chomp_return (c ∷ d ∷ []) = if d == newline then (if c == b'\r' then [] else c ∷ []) else c ∷ d ∷ []
chomp_return (c ∷ d ∷ e ∷ cs) = c ∷ chomp_return (d ∷ e ∷ cs)

-- The loop of run_mapper_on_fds over getline; out of fuel is `none`.
unfoldable pub map_lines : (List ℕ → List ℕ) → ℕ → List ℕ → Option (List ℕ)
map_lines func zero input = none
map_lines func (suc fuel) [] = some []
map_lines func (suc fuel) (c ∷ cs) = do
  let (line, rest) = split_line (c ∷ cs)
  out ← map_lines func fuel rest
  some (func (c_string (chomp_return line)) ++ out)

-- What run_mapper_on_fds writes; every round takes a byte at least.
unfoldable pub run_mapper_on_fds : (List ℕ → List ℕ) → List ℕ → Option (List ℕ)
run_mapper_on_fds func input = map_lines func (suc (length input)) input

-- fprintf(output, "%s: 1\n", key).
unfoldable pub one_pair : List ℕ → List ℕ
one_pair key = key ++ b':' ∷ b' ' ∷ b'1' ∷ newline ∷ []

unfoldable pub one_pairs : List (List ℕ) → List ℕ
one_pairs [] = []
one_pairs (k ∷ ks) = one_pair k ++ one_pairs ks

module _ (ctype : Ctype) where
  open ctype use {is_alpha, to_lower}

  -- `int c = *data++`: the int that a char is, as in Clib/Ctype.
  unfoldable pub asciicount : List ℕ → List ℕ
  asciicount [] = []
  asciicount (c ∷ text) =
      let rest = asciicount text in if is_alpha c then one_pair (to_lower c ∷ []) ++ rest else rest

  unfoldable pub lettercount : List ℕ → List ℕ
  lettercount [] = []
  lettercount (c ∷ text) =
      let rest = lettercount text in
      if is_alpha c
      then one_pair (b'l' ∷ b'e' ∷ b't' ∷ b't' ∷ b'e' ∷ b'r' ∷ b's' ∷ []) ++ rest
      else rest

-- replace_chars of wordcount.c.
unfoldable pub replace_chars : List ℕ → List ℕ
replace_chars [] = []
replace_chars (c ∷ str) =
    (if c == b':' then b';' else if c == newline then b' ' else c) ∷ replace_chars str

-- The mapper of wordcount.c.
unfoldable pub wordcount : List ℕ → List ℕ
wordcount text = one_pairs (tokens b' ' [] (replace_chars text))

-- while ((newline = strchr(data_copy, '\n')) != NULL) *newline = ' '.
unfoldable pub blank_newlines : List ℕ → List ℕ
blank_newlines [] = []
blank_newlines (c ∷ text) = (if c == newline then b' ' else c) ∷ blank_newlines text

-- The mapper of wordlengths.c.
unfoldable pub wordlengths : List ℕ → List ℕ
wordlengths text =
    one_pairs (map (λ datum. decimal (length datum)) (tokens b' ' [] (blank_newlines text)))
