-- ===== src/MiniValgrind/Leaks.antt =====
-- mini_valgrind/mini_valgrind.c over a history of calls: which blocks are linked, and what the counters
-- say of them.
use system_programming.Base.{ℕ, ◌+◌, ◌%◌, List, [], ◌∷◌, Option, none, some}
use system_programming.MiniValgrind.Defs.{MiniValgrind, size_mod}
use system_programming.MiniValgrind.Chain.{Block, Chain, size_at}
use system_programming.MiniValgrind.Ledger.{frees, callocs, mallocs, Call, live_after}

-- invalid_addresses, by whether the block was found.
abbrev pub missed : Option ℕ → ℕ → ℕ
missed none n = (n + 1) % size_mod
missed (some size) n = n

abbrev pub invalid_after : Call → List Block → ℕ → ℕ
invalid_after (mallocs got fresh size filename instruction) bs n = n
invalid_after (callocs got fresh m size filename instruction) bs n = n
invalid_after (frees none) bs n = n
invalid_after (frees (some p)) bs n = missed (size_at p bs) n

abbrev pub invalid : List Call → List Block → ℕ → ℕ
invalid [] bs n = n
invalid (c ∷ cs) bs n = invalid cs (live_after c bs) (invalid_after c bs n)
