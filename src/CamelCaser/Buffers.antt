-- ===== src/CamelCaser/Buffers.antt =====
-- A buffer at the index behind a prefix of it.
use system_programming.Base.{
  ℕ, suc, ◌≡◌, ◌≢◌, refl, ap, true, false, List, [], ◌∷◌, ◌++◌, length, set, take, drop,
}
use system_programming.CamelCaser.Defs.{byte_at}

pub true-false : true ≢ false
true-false e = cc

-- The last byte, or NUL.
unfoldable pub last_of : List ℕ → ℕ
last_of [] = 0
last_of (x ∷ []) = x
last_of (x ∷ y ∷ p) = last_of (y ∷ p)

pub last_of-snoc : (p : List ℕ) (c : ℕ) → last_of (p ++ c ∷ []) ≡ c
unfolding last_of
last_of-snoc [] c = refl
last_of-snoc (x ∷ []) c = refl
last_of-snoc (x ∷ y ∷ p) c = last_of-snoc (y ∷ p) c

pub at_middle : (pre : List ℕ) (c : ℕ) (post : List ℕ) → byte_at (pre ++ c ∷ post) (length pre) ≡ c
unfolding byte_at
at_middle [] c post = refl
at_middle (x ∷ pre) c post = at_middle pre c post

pub at_end : (pre : List ℕ) → byte_at (pre ++ []) (length pre) ≡ 0
unfolding byte_at
at_end [] = refl
at_end (x ∷ pre) = at_end pre

pub set_middle :
    (pre : List ℕ) (c v : ℕ) (post : List ℕ)
    → set (pre ++ c ∷ post) (length pre) v ≡ pre ++ v ∷ post
set_middle [] c v post = refl
set_middle (x ∷ pre) c v post = ap (◌∷◌ x) (set_middle pre c v post)

pub cut_middle :
    (pre : List ℕ) (c : ℕ) (post : List ℕ)
    → take (length pre) (pre ++ c ∷ post) ++ drop (suc (length pre)) (pre ++ c ∷ post) ≡ pre ++ post
cut_middle [] c post = refl
cut_middle (x ∷ pre) c post = ap (◌∷◌ x) (cut_middle pre c post)

pub byte_last : (x : ℕ) (p post : List ℕ) → byte_at ((x ∷ p) ++ post) (length p) ≡ last_of (x ∷ p)
unfolding byte_at last_of
byte_last x [] post = refl
byte_last x (y ∷ p) post = byte_last y p post
