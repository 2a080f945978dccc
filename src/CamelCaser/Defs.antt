-- ===== src/CamelCaser/Defs.antt =====
-- camel_caser of extreme_edge_cases/camelCaser.c on a string that is not NULL. The classes of
-- characters of ctype.h are parameters, on bytes. A buffer is the bytes before its NUL.
use system_programming.Clib.Ctype.{Ctype}
use system_programming.Clib.Ints.{int_bound}
use system_programming.Base.{
  ℕ, zero, suc, ◌+◌, ◌-◌, ltb, ◌&&◌, if◌then◌else◌, List, [], ◌∷◌, ◌++◌, Option, none, some, length,
  get_elem?, set, take, drop, ◌>>=◌,
}

-- result[i][j].
unfoldable pub byte_at : List ℕ → ℕ → ℕ
byte_at s j = elim (get_elem? s j) [ none ↦ 0 | some c ↦ c ]

module _ (ctype : Ctype) where
  open ctype use {is_alpha, is_digit, is_space, is_punct, to_lower, to_upper}

  -- The loop over the input: `cur` is the sentence so far, from temp1 to temp2. What follows the
  -- last mark is left out.
  unfoldable pub sentences : List ℕ → List ℕ → List (List ℕ)
  sentences cur [] = []
  sentences cur (c ∷ cs) =
      let cut = sentences [] cs in
      let longer = sentences (cur ++ c ∷ []) cs in if is_punct c then cur ∷ cut else longer

  -- if(isalpha(result[i][j])), with the letter behind a digit.
  unfoldable pub fix_letter : ℕ → List ℕ → List ℕ
  fix_letter j s =
      let c = byte_at s j in
      if is_alpha c
      then (if ltb 0 j && is_digit (byte_at s (j - 1))
          then set s j (to_upper (to_lower c))
          else set s j (to_lower c))
      else s

  -- A round of the inner loop: the memmove, and the letter that comes up.
  unfoldable pub drop_space : ℕ → List ℕ → List ℕ
  drop_space j s =
      let t = take j s ++ drop (suc j) s in
      if is_alpha (byte_at t j) then set t j (to_upper (byte_at t j)) else t

  -- while(isspace(result[i][j])); `none` when the fuel runs out.
  unfoldable pub drop_spaces : ℕ → ℕ → List ℕ → Option (List ℕ)
  drop_spaces zero j s = none
  drop_spaces (suc k) j s =
      let rest = drop_spaces k j (drop_space j s) in if is_space (byte_at s j) then rest else some s

  -- for(j = ...; j < strlen(result[i]); j++).
  unfoldable pub camel_loop : ℕ → ℕ → List ℕ → Option (List ℕ)
  camel_loop zero j s = none
  camel_loop (suc k) j s =
      let rest = drop_spaces (suc (length s)) j (fix_letter j s) >>= camel_loop k (j + 1) in
      if ltb j (length s) then rest else some s

  -- if(isalpha(result[i][0])).
  unfoldable pub lower_first : List ℕ → List ℕ
  lower_first [] = []
  lower_first (c ∷ cs) = (if is_alpha c then to_lower c else c) ∷ cs

  -- The body of the loop over the sentences.
  unfoldable pub camel : List ℕ → Option (List ℕ)
  camel s = do t ← camel_loop (suc (length s)) 0 s; some (lower_first t)

  unfoldable pub camel_all : List (List ℕ) → Option (List (List ℕ))
  camel_all [] = some []
  camel_all (s ∷ ss) = do t ← camel s; ts ← camel_all ss; some (t ∷ ts)

  -- `while (strcount < (int)strlen(input_str))`, and the loop over the sentences. No sentence is longer
  -- than the part of the input that the first loop goes through, so it is shorter than 2^31, and `(int)`
  -- keeps its length.
  unfoldable pub camel_caser : List ℕ → Option (List (List ℕ))
  camel_caser input = camel_all (sentences [] (take (int_bound (length input)) input))
