-- ===== src/MiniValgrind/Examples.antt =====
-- The theorems on mini_valgrind/mini_valgrind.c at concrete calls.
use system_programming.Base.{ℕ, suc, ◌≡◌, ◌≢◌, refl, List, [], ◌∷◌, none, some, arith}
use system_programming.MiniValgrind.Defs.{MetaData, MiniValgrind, mini_malloc, mini_realloc}
use system_programming.MiniValgrind.Ledger.{Call, mallocs, callocs, frees}
use system_programming.MiniValgrind.Moved.{mini_realloc-moved}

-- Two blocks, the first of which is freed twice.
abbrev history : List Call
history =
    mallocs (some 100) none 10 [] 1
    ∷ callocs (some 200) (some 7) 3 4 [] 2
    ∷ frees (some 100)
    ∷ frees (some 100)
    ∷ []

abbrev one_block : MetaData
one_block = record { request_size = 8; filename = []; instruction = 0; next = none }

abbrev one : MiniValgrind
one = record {
  heap = λ p. some one_block;
  head = some 100;
  total_memory_requested = 8;
  total_memory_freed = 0;
  invalid_addresses = 0;
}

mini_realloc-moved_example :
    (w : MiniValgrind) × (mini_realloc 1 one (some 100) (some 300) none 16 [] 0
      ≡ some (w, some 300))
    × ((a n : ℕ) → a ≢ 100 → mini_malloc w (some a) none (suc n) [] 0 ≡ none)
mini_realloc-moved_example =
    mini_realloc-moved 0 one 100 300 16 none [] 0 one_block refl refl (omega arith) (omega arith)
      (omega arith) (λ e. omega arith)
