-- ===== src/Allocator/Examples.antt =====
-- Three blocks for the theorems on malloc/alloc.c.
use system_programming.Base.{
  ℕ, ◌≡◌, refl, [], ◌∷◌, true, false, ◌==◌, if◌then◌else◌, Option, none, some, arith,
}
use system_programming.Allocator.Defs.{Metadata, Allocator, removefree, malloc}
use system_programming.Allocator.FreeList.{IsFreeList, removefree-IsFreeList}
use system_programming.Allocator.Reuse.{malloc-IsFreeList}

abbrev block_of : ℕ → Option ℕ → Option ℕ → Metadata
block_of p freeprev freenext = record {
  next = none;
  prev = none;
  freenext = freenext;
  freeprev = freeprev;
  ptr = p;
  size = 100;
  free = true;
}

-- The blocks at 1000 and 3000 are free, the one at 2000 is in use.
abbrev two_free : Allocator
two_free = record {
  blocks = λ p.
      if p == 1000
      then some (block_of 1056 none (some 3000))
      else if p == 3000
      then some (block_of 3056 (some 1000) none)
      else if p == 2000
      then some (block_of 2056 none none)
      else none;
  tail = some 3000;
  freehead = some 1000;
}

two_free-IsFreeList : IsFreeList two_free (1000 ∷ 3000 ∷ [])
two_free-IsFreeList = (
  (
    refl,
    block_of 1056 none (some 3000),
    refl,
    refl,
    (refl, block_of 3056 (some 1000) none, refl, refl, refl),
  ),
  ((λ e. omega arith, tt), (tt, tt)),
)

removefree-IsFreeList_example :
    (a : Allocator) × (removefree two_free 3000 ≡ some a) × IsFreeList a (1000 ∷ [])
removefree-IsFreeList_example =
    removefree-IsFreeList two_free (1000 ∷ []) 3000 [] two_free-IsFreeList

malloc-IsFreeList_example :
    (a : Allocator) × (malloc 1 56 two_free none 40 ≡ some (a, some 1056))
    × IsFreeList a (3000 ∷ [])
    × (a.blocks 1000 ≡ some (record (block_of 1056 none none) { free = false; size = 40 }))
malloc-IsFreeList_example =
    malloc-IsFreeList 0 56 two_free none 40 1000 (block_of 1056 none (some 3000)) (3000 ∷ [])
      two_free-IsFreeList refl (omega arith) (omega arith) (omega arith)
