-- ===== src/Clib/Ascii.antt =====
-- The classes of characters of ctype.h in ASCII, with the full stop for punctuation.
use system_programming.Base.{
  ℕ, ◌+◌, ◌-◌, ◌≡◌, refl, Bool, true, false, ◌&&◌, ◌||◌, ◌==◌, if◌then◌else◌, leb, arith,
}
use system_programming.Clib.Ctype.{Ctype}

abbrev pub within : ℕ → ℕ → ℕ → Bool
within low high c = leb low c && leb c high

abbrev pub ascii_alpha : ℕ → Bool
ascii_alpha c = within 65 90 c || within 97 122 c

abbrev pub ascii_lower : ℕ → ℕ
ascii_lower c = if within 65 90 c then c + 32 else c

abbrev pub ascii_upper : ℕ → ℕ
ascii_upper c = if within 97 122 c then c - 32 else c

abbrev pub ascii_space : ℕ → Bool
ascii_space c = c == 32 || within 9 13 c

pub space-alpha : (c : ℕ) → ascii_alpha c ≡ true → ascii_space c ≡ false
space-alpha c h = ground arith

pub space-lower : (c : ℕ) → ascii_alpha c ≡ true → ascii_space (ascii_lower c) ≡ false
space-lower c h = ground arith

pub space-upper : (c : ℕ) → ascii_alpha c ≡ true → ascii_space (ascii_upper c) ≡ false
space-upper c h = ground arith

pub alpha-lower : (c : ℕ) → ascii_alpha c ≡ true → ascii_alpha (ascii_lower c) ≡ true
alpha-lower c h = ground arith

abbrev pub ascii : Ctype
ascii = record {
  is_alpha = ascii_alpha;
  is_digit = within 48 57;
  is_space = ascii_space;
  is_punct = λ c. c == b'.';
  to_lower = ascii_lower;
  to_upper = ascii_upper;
  alpha_nul = refl;
  digit_nul = refl;
  space_nul = refl;
  space_alpha = space-alpha;
  space_lower = space-lower;
  space_upper = space-upper;
  upper_lower = alpha-lower;
  alpha_colon = refl;
  alpha_newline = refl;
  alpha_return = refl;
}
