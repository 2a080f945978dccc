-- ===== src/Allocator/Reuse.antt =====
-- malloc of malloc/alloc.c from the list of free blocks.
use system_programming.Base.{
  subst, some_inj, ℕ, suc, ◌+◌, ◌*◌, ◌≤◌, ◌<◌, ◌≡◌, refl, sym, ap, ◌∙◌, List, ◌∷◌, true, false, leb,
  ◌==◌, le→leb, Option, some, none, arith,
}
use system_programming.Allocator.Defs.{
  take_block, Metadata, Blocks, Allocator, set_block, change, removefree, split, first_fit, malloc,
}
use system_programming.Allocator.FreeList.{
  FreeChain, IsFreeList, removefree_first, FreeChain-set_block, set_block-same,
}

first_fit_first :
    (k : ℕ) (h : Blocks) (first : Option ℕ) (p size : ℕ) (m : Metadata)
    → first ≡ some p
    → h p ≡ some m
    → size ≤ m.size
    → first_fit (suc k) h first size ≡ some (some p)
unfolding first_fit
first_fit_first k h first p size m here there fits =
    let large : leb size m.size ≡ true = le→leb _ _ fits in rw (here, there, large) refl

change_lem :
    (a : Allocator) (p : ℕ) (m : Metadata) (f : Metadata → Metadata)
    → a.blocks p ≡ some m
    → change a p f ≡ some (record a { blocks = set_block a.blocks p (f m) })
unfolding change
change_lem a p m f there = rw there refl

-- A block of the size, which is not split.
take_block_lem :
    (meta : ℕ) (a a1 : Allocator) (sbrk : Option ℕ) (p size : ℕ) (m : Metadata)
    → removefree a p ≡ some a1
    → a1.blocks p ≡ some m
    → m.size ≤ size + 3 * meta
    → take_block meta a sbrk (some p) size
      ≡ some (
        record a1 { blocks = set_block a1.blocks p (record m { free = false; size = size }) },
        some m.ptr,
      )
unfolding split
take_block_lem meta a a1 sbrk p size m ran block exact =
    let whole : leb m.size (size + 3 * meta) ≡ true = le→leb _ _ exact in
    let new : Metadata = record m { free = false; size = size } in
    rw
      (
        ran,
        block,
        whole,
        change_lem a1 p m (λ b. record b { free = false; size = size }) block,
        set_block-same a1.blocks p new,
      )
      refl

-- In an allocator whose free blocks are a list of different blocks linked in both directions,
-- malloc of a size above 0 that the first of them has, by at most the size of 3 blocks of metadata
-- more, returns this block and leaves the others as the list. The size in the block becomes the
-- size asked for.
pub malloc-IsFreeList :
    (k meta : ℕ) (a : Allocator) (sbrk : Option ℕ) (size p : ℕ) (m : Metadata) (ps : List ℕ)
    → IsFreeList a (p ∷ ps)
    → a.blocks p ≡ some m
    → 0 < size
    → size ≤ m.size
    → m.size ≤ size + 3 * meta
    → (a' : Allocator) × (malloc (suc k) meta a sbrk size ≡ some (a', some m.ptr))
      × IsFreeList a' ps
      × (a'.blocks p
          ≡ some (record m { freeprev = none; freenext = none; free = false; size = size }))
unfolding malloc
malloc-IsFreeList k meta a sbrk size p m ps ((here, m1, cell, back, rest), (fresh, distinct)) there
      some_bytes fits exact =
    let same = some_inj (sym cell ∙ there) in
    let (a1, ran, (chain, others), block, tail) =
      removefree_first a p m ps here there (ap (λ b. b.freeprev) (sym same) ∙ back)
        (subst (λ b. FreeChain a.blocks (some p) b.freenext ps) same rest) fresh distinct in
    let asked : (size == 0) ≡ false = ground arith in
    let found = first_fit_first k a.blocks a.freehead p size m here there fits in
    let new : Metadata = record m { freeprev = none; freenext = none; free = false; size = size } in
    (
      record a1 { blocks = set_block a1.blocks p new },
      rw (asked, found)
          (take_block_lem meta a a1 sbrk p size (record m { freeprev = none; freenext = none }) ran
            block exact),
      (FreeChain-set_block a1.blocks none a1.freehead ps p new fresh chain, others),
      set_block-same a1.blocks p new,
    )
