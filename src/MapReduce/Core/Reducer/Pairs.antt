-- ===== src/MapReduce/Core/Reducer/Pairs.antt =====
-- run_reducer_on of mapreduce/core/reducer.c on lines that hold a key and a value.
use system_programming.Base.{
  ℕ, suc, ◌+◌, ◌≡◌, ◌≢◌, refl, sym, ap, ◌∙◌, List, [], ◌∷◌, ◌++◌, append_assoc, false, ◌==◌, Option,
  some, length, length-append, c_string, set, drop, ◌>>=◌, arith,
}
use system_programming.Clib.Strings.{newline, split_line, strstr, has_prefix}
use system_programming.MapReduce.Core.Datastore.{Datastore}
use system_programming.MapReduce.Core.Reducer.{
  separator, cut_line, split_key_value, reduce_pair, reduce_lines,
}

-- No byte is NUL or a newline.
abbrev pub IsText : List ℕ → Type 0
IsText [] = Unit {0}
IsText (c ∷ cs) = (c ≢ 0) × (c ≢ newline) × IsText cs

-- Nor a colon.
abbrev pub IsKey : List ℕ → Type 0
IsKey [] = Unit {0}
IsKey (c ∷ cs) = (c ≢ 0) × (c ≢ newline) × (c ≢ b':') × IsKey cs

abbrev pub pair_line : List ℕ → List ℕ → List ℕ
pair_line key value = key ++ (separator ++ (value ++ newline ∷ []))

find_separator :
    (key r : List ℕ) → IsKey key → strstr separator (key ++ (separator ++ r)) ≡ some (length key)
unfolding strstr has_prefix
find_separator [] r k = refl
find_separator (c ∷ key) r k =
    let other : (b':' == c) ≡ false = ground arith in rw (other, find_separator key r k.3)

find_newline : (s : List ℕ) → IsText s → strstr (newline ∷ []) (s ++ newline ∷ []) ≡ some (length s)
unfolding strstr has_prefix
find_newline [] k = refl
find_newline (c ∷ s) k =
    let other : (newline == c) ≡ false = ground arith in rw (other, find_newline s k.2)

IsText-append : (s t : List ℕ) → IsText s → IsText t → IsText (s ++ t)
IsText-append [] t h k = k
IsText-append (c ∷ s) t h k = (h.0, h.1, IsText-append s t h.2 k)

IsKey-IsText : (s : List ℕ) → IsKey s → IsText s
IsKey-IsText [] h = tt
IsKey-IsText (c ∷ s) h = (h.0, h.1, IsKey-IsText s h.3)

set_in : (s t : List ℕ) (m v : ℕ) → set (s ++ t) (length s + m) v ≡ s ++ set t m v
set_in [] t m v = let e : 0 + m ≡ m = omega arith in rw e
set_in (c ∷ s) t m v =
    let e : suc (length s) + m ≡ suc (length s + m) = omega arith in
    rw e (ap (◌∷◌ c) (set_in s t m v))

c_string-end : (s t : List ℕ) → IsText s → c_string (s ++ 0 ∷ t) ≡ s
unfolding c_string
c_string-end [] t h = refl
c_string-end (c ∷ s) t h =
    let plain : (c == 0) ≡ false = ground arith in rw plain (ap (◌∷◌ c) (c_string-end s t h.2))

c_string-IsText : (s : List ℕ) → IsText s → c_string (s ++ newline ∷ []) ≡ s ++ newline ∷ []
unfolding c_string
c_string-IsText [] h = refl
c_string-IsText (c ∷ s) h =
    let plain : (c == 0) ≡ false = ground arith in rw plain (ap (◌∷◌ c) (c_string-IsText s h.2))

front-IsText :
    (key value : List ℕ) → IsKey key → IsText value → IsText (key ++ (separator ++ value))
front-IsText key value k v =
    IsText-append key (separator ++ value) (IsKey-IsText key k)
      ((λ e. cc), (λ e. cc), ((λ e. cc), (λ e. cc), v))

line_front :
    (key value : List ℕ) → pair_line key value ≡ (key ++ (separator ++ value)) ++ newline ∷ []
line_front key value = sym (append_assoc key (separator ++ value) (newline ∷ []))

drop_in : (s t : List ℕ) (m : ℕ) → drop (length s + m) (s ++ t) ≡ drop m t
drop_in [] t m = let e : 0 + m ≡ m = omega arith in rw e
drop_in (c ∷ s) t m =
    let e : suc (length s) + m ≡ suc (length s + m) = omega arith in rw e (drop_in s t m)

set_here : (s t : List ℕ) (c v : ℕ) → set (s ++ c ∷ t) (length s) v ≡ s ++ v ∷ t
set_here [] t c v = refl
set_here (x ∷ s) t c v = ap (◌∷◌ x) (set_here s t c v)

-- Both bytes of the line set to NUL.
set_both :
    (key value : List ℕ)
    → set (set (pair_line key value) (length key) 0) (length (key ++ (separator ++ value))) 0
      ≡ key ++ 0 ∷ b' ' ∷ (value ++ 0 ∷ [])
set_both key value =
    let l = key ++ 0 ∷ b' ' ∷ (value ++ newline ∷ []) in
    let place : length (key ++ (separator ++ value)) ≡ length key + suc (suc (length value)) =
      length-append key (separator ++ value) in
    ap (λ t. set t (length (key ++ (separator ++ value))) 0)
      (set_here key (b' ' ∷ (value ++ newline ∷ [])) b':' 0)
    ∙ ap (λ i. set l i 0) place
    ∙ set_in key (0 ∷ b' ' ∷ (value ++ newline ∷ [])) (suc (suc (length value))) 0
    ∙ ap (λ t. key ++ 0 ∷ b' ' ∷ t) (set_here value [] newline 0)

cut_line-pair :
    (key value : List ℕ)
    → IsKey key
    → IsText value
    → cut_line
        (pair_line key value)
        (some (length key))
        (some (length (key ++ (separator ++ value))))
      ≡ some (key, value)
unfolding cut_line
cut_line-pair key value k v =
    let tail = drop_in key (0 ∷ b' ' ∷ (value ++ 0 ∷ [])) 2 in
    rw (
      set_both key value,
      c_string-end key (b' ' ∷ (value ++ 0 ∷ [])) (IsKey-IsText key k),
      tail,
      c_string-end value [] v,
    )

-- A line with a key and a value is cut into them.
pub split_key_value-pair :
    (key value : List ℕ)
    → IsKey key
    → IsText value
    → split_key_value (pair_line key value) ≡ some (key, value)
unfolding split_key_value
split_key_value-pair key value k v =
    let end =
      ap (strstr (newline ∷ [])) (line_front key value)
      ∙ find_newline (key ++ (separator ++ value)) (front-IsText key value k v) in
    rw (find_separator key (value ++ newline ∷ []) k, end) (cut_line-pair key value k v)

split_line-pair :
    (s rest : List ℕ) → IsText s → split_line (s ++ newline ∷ rest) ≡ (s ++ newline ∷ [], rest)
unfolding split_line
split_line-pair [] rest p = refl
split_line-pair (c ∷ s) rest p = ground (arith, split_line-pair s rest p.2)

first_line :
    (func : List ℕ → List ℕ → Option (List ℕ)) (fuel : ℕ) (s rest : List ℕ) (ds : Datastore)
    → IsText s
    → reduce_lines func (suc fuel) (s ++ newline ∷ rest) ds
      ≡ (reduce_pair func ds (split_key_value (s ++ newline ∷ [])) >>= reduce_lines func fuel rest)
unfolding reduce_lines
first_line func fuel [] rest ds t = unfold split_line c_string in refl
first_line func fuel (c ∷ s) rest ds t =
    rw (split_line-pair (c ∷ s) rest t, c_string-IsText (c ∷ s) t)

-- The loop on such a line.
pub reduce_lines-pair :
    (func : List ℕ → List ℕ → Option (List ℕ)) (fuel : ℕ) (key value rest : List ℕ) (ds : Datastore)
    → IsKey key
    → IsText value
    → reduce_lines func (suc fuel) (pair_line key value ++ rest) ds
      ≡ (reduce_pair func ds (some (key, value)) >>= reduce_lines func fuel rest)
reduce_lines-pair func fuel key value rest ds k v =
    let front = key ++ (separator ++ value) in
    let text = front-IsText key value k v in
    let whole : pair_line key value ++ rest ≡ front ++ newline ∷ rest =
      ap (λ t. t ++ rest) (line_front key value) ∙ append_assoc front (newline ∷ []) rest in
    ap (λ t. reduce_lines func (suc fuel) t ds) whole
    ∙ first_line func fuel front rest ds text
    ∙ ap (λ t. reduce_pair func ds t >>= reduce_lines func fuel rest)
        (ap split_key_value (sym (line_front key value)) ∙ split_key_value-pair key value k v)
