-- ===== src/Vector/Sstring.antt =====
-- vector/sstring.c: strings with their length. C strings are lists of bytes without the NUL; an
-- offset behind the string is a fault.
pub mod Substitute
use system_programming.Clib.Strings.{keep_token, tokens, has_prefix, one_more, strstr}
use system_programming.Base.{
  ℕ, zero, suc, ◌+◌, ◌-◌, ◌%◌, ◌^◌, ◌<◌, ◌≤◌, ◌≡◌, ◌≢◌, refl, sym, ap, ◌∙◌, ◌⊎◌, inl, inr, Bool,
  true, false, Bool-cases, leb, ◌==◌, ◌&&◌, if◌then◌else◌, List, [], ◌∷◌, ◌++◌, Option,
  Option-cases, none, some, length, length-append, length-take, length-drop, take, drop,
  take-append-drop, take-append, drop-append, append_assoc, some_inj, guard, ◌>>=◌, ◌>>◌, arith,
}
use system_programming.Vector.Capacity.{size_mod}
use system_programming.Vector.Defs.{to_int, to_int-fits}

pub record Sstring : Type 0 where
  pub source : List ℕ
  pub len : ℕ

unfoldable pub cstr_to_sstring : List ℕ → Sstring
cstr_to_sstring input = record { source = input; len = length input }

unfoldable pub sstring_to_cstr : Sstring → List ℕ
sstring_to_cstr s = s.source

-- The string afterwards and its length as an `int`, for an addition that is another object.
unfoldable pub sstring_append : Sstring → Sstring → Option (Sstring × ℕ)
sstring_append s addition = do
  let n = (s.len + addition.len) % size_mod
  result ← to_int n
  some (record { source = s.source ++ addition.source; len = n }, result)

-- The elements of the vector that sstring_split returns.
unfoldable pub sstring_split : Sstring → ℕ → List (List ℕ)
sstring_split s delimiter = tokens delimiter [] s.source

-- sstring_substitute behind its call of strstr; `at` is the offset of the target.
unfoldable pub replace_at : Sstring → List ℕ → List ℕ → ℕ → Option Sstring
replace_at s target substitution at = do
  part1 ← to_int at
  part2 ← to_int (length s.source - at - length target)
  some (record {
    source = take part1 s.source ++ (substitution ++ drop (at + length target) s.source);
    len = (s.len + size_mod - length target + length substitution) % size_mod;
  })

-- 0 and the changed string, or -1, which is `none` inside.
unfoldable pub replace_found : Sstring → List ℕ → List ℕ → ℕ → Option ℕ → Option (Option Sstring)
replace_found s target substitution offset none = some none
replace_found s target substitution offset (some k) = do
  t ← replace_at s target substitution (offset + k)
  some (some t)

unfoldable pub sstring_substitute : Sstring → ℕ → List ℕ → List ℕ → Option (Option Sstring)
sstring_substitute s offset target substitution = do
  guard (leb offset (length s.source))
  replace_found s target substitution offset (strstr target (drop offset s.source))

-- sstring_slice, for 0 <= start <= end within the string.
unfoldable pub sstring_slice : Sstring → ℕ → ℕ → Option (List ℕ)
sstring_slice s start stop = do
  guard (leb start stop && leb stop (length s.source))
  some (take (stop - start) (drop start s.source))
