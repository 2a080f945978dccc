-- ===== src/Clib/Ctype.antt =====
-- The functions of ctype.h on the values that the programs give them. A program stores a byte in a char,
-- which is signed, and passes it on as an int: `is_alpha c` is what isalpha gives for the int that the
-- char with the byte `c` is, a negative one from 128 on, where the C standard leaves isalpha open.
-- `to_lower c` is the byte of the char that the result of tolower is stored in.
use system_programming.Base.{ℕ, ◌≡◌, Bool, true, false}

pub record Ctype : Type 0 where
  pub is_alpha : ℕ → Bool
  pub is_digit : ℕ → Bool
  pub is_space : ℕ → Bool
  pub is_punct : ℕ → Bool
  pub to_lower : ℕ → ℕ
  pub to_upper : ℕ → ℕ
  -- NUL is no letter, digit or space, and a letter is no space in either case.
  pub alpha_nul : is_alpha 0 ≡ false
  pub digit_nul : is_digit 0 ≡ false
  pub space_nul : is_space 0 ≡ false
  pub space_alpha : (c : ℕ) → is_alpha c ≡ true → is_space c ≡ false
  pub space_lower : (c : ℕ) → is_alpha c ≡ true → is_space (to_lower c) ≡ false
  pub space_upper : (c : ℕ) → is_alpha c ≡ true → is_space (to_upper c) ≡ false
  pub upper_lower : (c : ℕ) → is_alpha c ≡ true → is_alpha (to_lower c) ≡ true
  -- No letter separates keys, values or lines.
  pub alpha_colon : is_alpha b':' ≡ false
  pub alpha_newline : is_alpha b'\n' ≡ false
  pub alpha_return : is_alpha b'\r' ≡ false
