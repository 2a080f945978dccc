-- ===== src/Clib.antt =====
-- What the programs call of the C library.
pub mod Bits
pub mod Strings
pub mod Ctype
pub mod Decimal
pub mod Ints
pub mod Ascii
