-- ===== src/CamelCaser/Examples.antt =====
-- The theorems on camelCaser.c in ASCII.
use system_programming.Base.{ℕ, ◌≡◌, List, [], ◌∷◌, map, some, arith}
use system_programming.Clib.Ascii.{ascii}
use system_programming.CamelCaser.Defs.{sentences, camel_caser}
use system_programming.CamelCaser.OnePass.{camel_of}
use system_programming.CamelCaser.Exact.{camel_caser-camel_of}

-- "Ab  c." and a rest.
abbrev some_input : List ℕ
some_input = b'A' ∷ b'b' ∷ b' ' ∷ b' ' ∷ b'c' ∷ b'.' ∷ b'd' ∷ []

camel_caser-camel_of_example :
    camel_caser ascii some_input ≡ some (map (camel_of ascii) (sentences ascii [] some_input))
camel_caser-camel_of_example = camel_caser-camel_of ascii some_input (omega arith)
