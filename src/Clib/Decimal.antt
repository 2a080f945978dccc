-- ===== src/Clib/Decimal.antt =====
-- Decimal numbers: "%d" of printf(3) and atoi(3), on numbers that are not negative.
use system_programming.Base.{
  ℕ, zero, suc, ◌+◌, ◌-◌, ◌*◌, ◌/◌, ◌%◌, ◌<◌, ◌≡◌, refl, ap, ◌∙◌, List, [], ◌∷◌, ◌++◌, Bool, true,
  ltb, leb, ◌==◌, ◌&&◌, ◌||◌, if◌then◌else◌, Bool-cases, inl, inr, ltb→lt, ltb→ge, Option, none,
  some, arith,
}

-- The digits of `n`, with enough rounds.
unfoldable pub digits : ℕ → ℕ → List ℕ
digits zero n = []
digits (suc k) n =
    let front = digits k (n / 10) in
    if ltb n 10 then (b'0' + n) ∷ [] else front ++ (b'0' + n % 10) ∷ []

-- Every round divides by 10.
unfoldable pub decimal : ℕ → List ℕ
decimal n = digits (suc n) n

unfoldable pub is_digit_byte : ℕ → Bool
is_digit_byte c = leb b'0' c && leb c b'9'

-- The digits at the front of the string.
unfoldable pub scan : ℕ → List ℕ → ℕ
scan acc [] = acc
scan acc (c ∷ cs) =
    let rest = scan (acc * 10 + (c - b'0')) cs in if is_digit_byte c then rest else acc

-- atoi(3); `none` for a string that starts with white space or a sign.
unfoldable pub atoi : List ℕ → Option ℕ
atoi [] = some 0
atoi (c ∷ cs) =
    if c == b'-' || c == b'+' || c == b' ' || leb 9 c && leb c 13
    then none
    else some (scan 0 (c ∷ cs))

-- All bytes are digits.
abbrev pub Digits : List ℕ → Type 0
Digits [] = Unit {0}
Digits (c ∷ cs) = (is_digit_byte c ≡ true) × Digits cs

Digits-append : (s t : List ℕ) → Digits s → Digits t → Digits (s ++ t)
Digits-append [] t h k = k
Digits-append (c ∷ s) t h k = (h.0, Digits-append s t h.1 k)

digit_lem : (n : ℕ) → n < 10 → is_digit_byte (b'0' + n) ≡ true
unfolding is_digit_byte
digit_lem n h = ground arith

digits-Digits : (k n : ℕ) → Digits (digits k n)
unfolding digits
digits-Digits zero n = tt
digits-Digits (suc k) n = elim (Bool-cases (ltb n 10)) [
  | inl small ↦ rw small (digit_lem n (ltb→lt n 10 small), tt)
  | inr large ↦ rw large (
      Digits-append (digits k (n / 10)) _ (digits-Digits k (n / 10))
        (digit_lem (n % 10) (omega arith), tt))
]

scan-append : (s t : List ℕ) (acc : ℕ) → Digits s → scan acc (s ++ t) ≡ scan (scan acc s) t
unfolding scan
scan-append [] t acc h = refl
scan-append (c ∷ s) t acc h = rw h.0 (scan-append s t (acc * 10 + (c - b'0')) h.1)

scan-digit : (acc n : ℕ) → n < 10 → scan acc ((b'0' + n) ∷ []) ≡ acc * 10 + n
unfolding scan
scan-digit acc n h = rw (digit_lem n h) (omega arith)

scan-digits : (k n : ℕ) → n < k → scan 0 (digits k n) ≡ n
unfolding digits
scan-digits zero n h = absurd (omega arith)
scan-digits (suc k) n h = elim (Bool-cases (ltb n 10)) [
  | inl small ↦ rw small (scan-digit 0 n (ltb→lt n 10 small) ∙ omega arith)
  | inr large ↦ rw large (
      let big = ltb→ge n 10 large in
      scan-append (digits k (n / 10)) ((b'0' + n % 10) ∷ []) 0 (digits-Digits k (n / 10))
      ∙ ap (λ a. scan a ((b'0' + n % 10) ∷ [])) (scan-digits k (n / 10) (omega arith))
      ∙ scan-digit (n / 10) (n % 10) (omega arith)
      ∙ omega arith)
]

atoi-scan : (s : List ℕ) → Digits s → atoi s ≡ some (scan 0 s)
unfolding atoi is_digit_byte
atoi-scan [] h = unfold scan in refl
atoi-scan (c ∷ s) h = ground arith

-- What "%d" prints, atoi reads back.
pub atoi-decimal : (n : ℕ) → atoi (decimal n) ≡ some n
unfolding decimal
atoi-decimal n =
    atoi-scan (digits (suc n) n) (digits-Digits (suc n) n)
    ∙ ap some (scan-digits (suc n) n (omega arith))

pub decimal-Digits : (n : ℕ) → Digits (decimal n)
unfolding decimal
decimal-Digits n = digits-Digits (suc n) n
