-- ===== src/MiniValgrind/Moved.antt =====
-- mini_realloc of mini_valgrind/mini_valgrind.c, when realloc moves the block.
use system_programming.Base.{
  ◌^◌, ℕ, suc, ◌<◌, ◌≡◌, ◌≢◌, refl, sym, ◌∙◌, List, true, false, leb, ◌==◌, Option, none, some,
  arith,
}
use system_programming.MiniValgrind.Defs.{
  MetaData, MiniValgrind, set_cell, link_behind, add_block, mini_malloc, resize_block, realloc_loop,
  mini_realloc,
}
use system_programming.MiniValgrind.Chain.{set_cell-same, set_cell-other}

not_zero : (n : ℕ) → (suc n == 0) ≡ false
not_zero n = ground arith

fits : (n : ℕ) → n < 2 ^ 31 → leb (2 ^ 31) n ≡ false
fits n h = ground arith

realloc_loop-first :
    (k : ℕ) (v : MiniValgrind) (p q size : ℕ) (filename : List ℕ) (instruction : ℕ)
    (first : Option ℕ) (block : MetaData)
    → first ≡ some p
    → v.heap p ≡ some block
    → size < 2 ^ 31
    → block.request_size < 2 ^ 31
    → realloc_loop (suc k) v p (some q) size filename instruction first
      ≡ some (resize_block v p q block size filename instruction, some q)
unfolding realloc_loop
realloc_loop-first k v p q size filename instruction first block here cell small was =
    let same : (p == p) ≡ true = ground arith in
    rw (here, cell, same, fits size small, fits block.request_size was) refl

link_behind-freed :
    (v : MiniValgrind) (p a : ℕ) (block : MetaData) (first : Option ℕ)
    → first ≡ some p
    → a ≢ p
    → v.heap p ≡ none
    → link_behind v a block first ≡ none
link_behind-freed v p a block first here other gone =
    let missing : set_cell v.heap a (some block) p ≡ none =
      set_cell-other v.heap a p _ (λ e. other (sym e)) ∙ gone in
    rw (here, missing) refl

-- When realloc moves the first block, of a size below 2^31 as is the new one, mini_realloc
-- succeeds, and the next mini_malloc of a positive size, for which malloc finds memory elsewhere
-- than at the block that realloc has freed, then accesses that block.
pub mini_realloc-moved :
    (k : ℕ) (v : MiniValgrind) (p q size : ℕ) (fresh : Option ℕ) (filename : List ℕ)
    (instruction : ℕ) (block : MetaData)
    → v.head ≡ some p
    → v.heap p ≡ some block
    → 0 < size
    → size < 2 ^ 31
    → block.request_size < 2 ^ 31
    → q ≢ p
    → (w : MiniValgrind) × (mini_realloc (suc k) v (some p) (some q) fresh size filename instruction
        ≡ some (w, some q))
      × ((a n : ℕ) → a ≢ p → mini_malloc w (some a) fresh (suc n) filename instruction ≡ none)
unfolding mini_realloc mini_malloc add_block resize_block
mini_realloc-moved k v p q size fresh filename instruction block here cell some_bytes small was
      moved =
    let w = resize_block v p q block size filename instruction in
    let positive : (size == 0) ≡ false = ground arith in
    let ran =
      realloc_loop-first k v p q size filename instruction v.head block here cell small was in
    let gone : w.heap p ≡ none =
      set_cell-other (set_cell v.heap p none) q p _ (λ e. moved (sym e))
      ∙ set_cell-same v.heap p none in
    (
      w,
      rw positive ran,
      λ a n other. rw (not_zero n, link_behind-freed w p a _ w.head here other gone) refl,
    )
