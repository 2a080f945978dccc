-- ===== src/Allocator/FreeList.antt =====
-- The doubly linked list of free blocks of malloc/alloc.c as a list of addresses.
use system_programming.Base.{
  ℕ, ◌≡◌, ◌≢◌, refl, sym, ap, ◌∙◌, subst, List, [], ◌∷◌, ◌++◌, true, false, ◌==◌, if◌then◌else◌,
  Option, none, some, ◌>>=◌, arith,
}
use system_programming.Allocator.Defs.{
  Metadata, Blocks, Allocator, set_block, change, change_if, is_at, insertfree, removefree,
}

-- From `first` on, these blocks are linked in both directions, to NULL; `before` is in front of them.
abbrev pub FreeChain : Blocks → Option ℕ → Option ℕ → List ℕ → Type 0
FreeChain h before first [] = first ≡ none
FreeChain h before first (p ∷ ps) =
    (first ≡ some p)
    × (m : Metadata) × (h p ≡ some m)
    × (m.freeprev ≡ before)
    × FreeChain h (some p) m.freenext ps

abbrev pub Fresh : ℕ → List ℕ → Type 0
Fresh p [] = Unit {0}
Fresh p (q ∷ qs) = (q ≢ p) × Fresh p qs

abbrev pub Distinct : List ℕ → Type 0
Distinct [] = Unit {0}
Distinct (p ∷ ps) = Fresh p ps × Distinct ps

pub set_block-same : (h : Blocks) (p : ℕ) (m : Metadata) → set_block h p m p ≡ some m
unfolding set_block
set_block-same h p m = let same : (p == p) ≡ true = ground arith in rw same refl

set_block-other : (h : Blocks) (p q : ℕ) (m : Metadata) → q ≢ p → set_block h p m q ≡ h q
unfolding set_block
set_block-other h p q m ne = let other : (q == p) ≡ false = ground arith in rw other refl

-- A block that is not in the chain does not matter.
pub FreeChain-set_block :
    (h : Blocks) (before first : Option ℕ) (ps : List ℕ) (p : ℕ) (m : Metadata)
    → Fresh p ps
    → FreeChain h before first ps
    → FreeChain (set_block h p m) before first ps
FreeChain-set_block h before first [] p m fresh chain = chain
FreeChain-set_block h before first (q ∷ qs) p m (ne, fresh) (here, c, cell, back, rest) = (
  here,
  c,
  set_block-other h p q m ne ∙ cell,
  back,
  FreeChain-set_block h (some q) c.freenext qs p m fresh rest,
)

-- The list of free blocks.
abbrev pub IsFreeList : Allocator → List ℕ → Type 0
IsFreeList a ps = FreeChain a.blocks none a.freehead ps × Distinct ps

-- insertfree puts a block that is not free to the front of the list.
insertfree_lem :
    (h : Blocks) (tail first : Option ℕ) (p : ℕ) (m : Metadata) (ps : List ℕ)
    → h p ≡ some m
    → Fresh p ps
    → FreeChain h none first ps
    → Distinct ps
    → (h' : Blocks) × (insertfree (record { blocks = h; tail = tail; freehead = first }) p
        ≡ some (record { blocks = h'; tail = tail; freehead = some p }))
      × FreeChain h' none (some p) (p ∷ ps)
unfolding insertfree change
insertfree_lem h tail first p m [] there fresh chain distinct =
    let new : Metadata = record m { freeprev = none; freenext = first } in
    (set_block h p new, rw (there, chain) refl, (refl, new, set_block-same h p new, refl, chain))
insertfree_lem h tail first p m (q ∷ qs) there (ne, fresh) (here, c, cell, back, rest) distinct =
    let new : Metadata = record m { freeprev = none; freenext = some q } in
    let moved : Metadata = record c { freeprev = some p } in
    let h1 = set_block h p new in
    (
      set_block h1 q moved,
      rw (there, here, set_block-other h p q new ne, cell) refl,
      (
        refl,
        new,
        set_block-other h1 q p moved (λ e. ne (sym e)) ∙ set_block-same h p new,
        refl,
        (
          refl,
          moved,
          set_block-same h1 q moved,
          refl,
          FreeChain-set_block h1 (some q) c.freenext qs q moved distinct.0
              (FreeChain-set_block h (some q) c.freenext qs p new fresh rest),
        ),
      ),
    )

-- insertfree of a block that is not in the list of free blocks puts it at its front.
insertfree-IsFreeList :
    (a : Allocator) (p : ℕ) (m : Metadata) (ps : List ℕ)
    → a.blocks p ≡ some m
    → Fresh p ps
    → IsFreeList a ps
    → (a' : Allocator) × (insertfree a p ≡ some a') × IsFreeList a' (p ∷ ps)
insertfree-IsFreeList a p m ps there fresh (chain, distinct) =
    let (h, e, linked) =
      insertfree_lem a.blocks a.tail a.freehead p m ps there fresh chain distinct in
    (record a { blocks = h; freehead = some p }, e, (linked, (fresh, distinct)))

-- Step two of removefree: the block behind `p` gets the one before as its predecessor.
relink :
    (h : Blocks) (tail head : Option ℕ) (p : ℕ) (m : Metadata) (next before : Option ℕ)
    (ys : List ℕ)
    → FreeChain h (some p) next ys
    → Fresh p ys
    → Distinct ys
    → (h' : Blocks) × (change_if
          (record { blocks = set_block h p m; tail = tail; freehead = head })
          next
          (λ b. record b { freeprev = before })
        ≡ some (record { blocks = h'; tail = tail; freehead = head }))
      × FreeChain h' before next ys
      × ((q : ℕ) → q ≢ p → Fresh q ys → h' q ≡ h q)
      × (h' p ≡ some m)
unfolding change
relink h tail head p m next before [] chain fresh distinct = (
  set_block h p m,
  rw chain refl,
  chain,
  λ q ne away. set_block-other h p q m ne,
  set_block-same h p m,
)
relink h tail head p m next before (y ∷ ys) (here, c, cell, back, rest) (ne, fresh)
      (apart, distinct) =
    let h1 = set_block h p m in
    let moved : Metadata = record c { freeprev = before } in
    (
      set_block h1 y moved,
      rw (here, set_block-other h p y m ne, cell) refl,
      (
        here,
        moved,
        set_block-same h1 y moved,
        refl,
        FreeChain-set_block h1 (some y) c.freenext ys y moved apart
            (FreeChain-set_block h (some y) c.freenext ys p m fresh rest),
      ),
      λ q other away.
          set_block-other h1 y q moved (λ e. away.0 (sym e)) ∙ set_block-other h p q m other,
      set_block-other h1 y p moved (λ e. ne (sym e)) ∙ set_block-same h p m,
    )

abbrev last : ℕ → List ℕ → ℕ
last x [] = x
last x (y ∷ xs) = last y xs

Fresh-last : (q x : ℕ) (xs zs : List ℕ) → Fresh q ((x ∷ xs) ++ zs) → last x xs ≢ q
Fresh-last q x [] zs fresh = fresh.0
Fresh-last q x (y ∷ xs) zs fresh = Fresh-last q y xs zs fresh.1

Fresh-middle :
    (q p : ℕ) (xs ys : List ℕ) → Fresh q (xs ++ p ∷ ys) → (q ≢ p) × Fresh q ys × Fresh q (xs ++ ys)
Fresh-middle q p [] ys fresh = ((λ e. fresh.0 (sym e)), fresh.1, fresh.1)
Fresh-middle q p (x ∷ xs) ys fresh =
    let (ne, away, both) = Fresh-middle q p xs ys fresh.1 in (ne, away, (fresh.0, both))

-- What stands in the chain in front of `p`, at `p` and behind it.
at_middle :
    (h : Blocks) (before first : Option ℕ) (x : ℕ) (xs : List ℕ) (p : ℕ) (ys : List ℕ)
    → FreeChain h before first ((x ∷ xs) ++ p ∷ ys)
    → (m : Metadata) × (h p ≡ some m)
      × (m.freeprev ≡ some (last x xs))
      × FreeChain h (some p) m.freenext ys
at_middle h before first x [] p ys (here, b, cell, back, (here', m, cell', back', rest)) =
    (m, cell', back', rest)
at_middle h before first x (y ∷ xs) p ys (here, b, cell, back, rest) =
    at_middle h (some x) b.freenext y xs p ys rest

-- Step three: the block in front of `p` gets the one behind as its successor.
bypass :
    (h h' : Blocks) (before first : Option ℕ) (x : ℕ) (xs : List ℕ) (p : ℕ) (next : Option ℕ)
    (ys : List ℕ)
    → FreeChain h before first ((x ∷ xs) ++ p ∷ ys)
    → Distinct ((x ∷ xs) ++ p ∷ ys)
    → FreeChain h' (some (last x xs)) next ys
    → ((q : ℕ) → q ≢ p → Fresh q ys → h' q ≡ h q)
    → (b : Metadata) × (h' (last x xs) ≡ some b)
      × FreeChain
          (set_block h' (last x xs) (record b { freenext = next }))
          before
          first
          ((x ∷ xs) ++ ys)
bypass h h' before first x [] p next ys (here, b, cell, back, rest) (fresh, distinct) behind same =
    let (ne, away, both) = Fresh-middle x p [] ys fresh in
    let new : Metadata = record b { freenext = next } in
    (
      b,
      same x ne away ∙ cell,
      (
        here,
        new,
        set_block-same h' x new,
        back,
        FreeChain-set_block h' (some x) next ys x new away behind,
      ),
    )
bypass h h' before first x (y ∷ xs) p next ys (here, b, cell, back, rest) (fresh, distinct) behind
      same =
    let (ne, away, both) = Fresh-middle x p (y ∷ xs) ys fresh in
    let other = Fresh-last x y xs (p ∷ ys) fresh in
    let (c, cell_c, chain) =
      bypass h h' (some x) b.freenext y xs p next ys rest distinct behind same in
    (
      c,
      cell_c,
      (
        here,
        b,
        set_block-other h' (last y xs) x (record c { freenext = next }) (λ e. other (sym e))
            ∙ same x ne away
            ∙ cell,
        back,
        chain,
      ),
    )

Distinct-middle : (p : ℕ) (xs ys : List ℕ) → Distinct (xs ++ p ∷ ys) → Distinct (xs ++ ys)
Distinct-middle p [] ys distinct = distinct.1
Distinct-middle p (x ∷ xs) ys (fresh, distinct) =
    let (ne, away, both) = Fresh-middle x p xs ys fresh in (both, Distinct-middle p xs ys distinct)

Distinct-behind : (p : ℕ) (xs ys : List ℕ) → Distinct (xs ++ p ∷ ys) → Fresh p ys × Distinct ys
Distinct-behind p [] ys distinct = distinct
Distinct-behind p (x ∷ xs) ys distinct = Distinct-behind p xs ys distinct.1

-- The steps of removefree one after the other.
removefree_lem :
    (h h' h'' : Blocks) (tail first : Option ℕ) (p : ℕ) (m : Metadata) (head : Option ℕ)
    → h p ≡ some m
    → change_if
        (record {
          blocks = set_block h p (record m { freeprev = none; freenext = none });
          tail = tail;
          freehead = first;
        })
        m.freenext
        (λ b. record b { freeprev = m.freeprev })
      ≡ some (record { blocks = h'; tail = tail; freehead = first })
    → change_if
        (record { blocks = h'; tail = tail; freehead = first })
        m.freeprev
        (λ b. record b { freenext = m.freenext })
      ≡ some (record { blocks = h''; tail = tail; freehead = first })
    → (if is_at first p then m.freenext else first) ≡ head
    → removefree (record { blocks = h; tail = tail; freehead = first }) p
      ≡ some (record { blocks = h''; tail = tail; freehead = head })
unfolding removefree change
removefree_lem h h' h'' tail first p m head cell second third top =
    let close : Allocator → Option Allocator =
      λ a. some (record a { freehead = if is_at a.freehead p then m.freenext else a.freehead }) in
    rw cell (
      ap
        (λ o. o >>= λ a. change_if a m.freeprev (λ b. record b { freenext = m.freenext }) >>= close)
        second
      ∙ ap (λ o. o >>= close) third
      ∙ ap (λ f. some (record { blocks = h''; tail = tail; freehead = f })) top)

change_if-none :
    (a : Allocator) (o : Option ℕ) (f : Metadata → Metadata) → o ≡ none → change_if a o f ≡ some a
change_if-none a none f e = refl
change_if-none a (some p) f e = absurd cc

change_if-some :
    (h : Blocks) (tail first o : Option ℕ) (r : ℕ) (b : Metadata) (f : Metadata → Metadata)
    → o ≡ some r
    → h r ≡ some b
    → change_if (record { blocks = h; tail = tail; freehead = first }) o f
      ≡ some (record { blocks = set_block h r (f b); tail = tail; freehead = first })
unfolding change
change_if-some h tail first o r b f e cell = rw (e, cell) refl

-- The first block of the list.
pub removefree_first :
    (a : Allocator) (p : ℕ) (m : Metadata) (ys : List ℕ)
    → a.freehead ≡ some p
    → a.blocks p ≡ some m
    → m.freeprev ≡ none
    → FreeChain a.blocks (some p) m.freenext ys
    → Fresh p ys
    → Distinct ys
    → (a' : Allocator) × (removefree a p ≡ some a')
      × IsFreeList a' ys
      × (a'.blocks p ≡ some (record m { freeprev = none; freenext = none }))
      × (a'.tail ≡ a.tail)
removefree_first a p m ys here cell back rest fresh distinct =
    let (h, second, chain, same, block) =
      relink a.blocks a.tail a.freehead p (record m { freeprev = none; freenext = none }) m.freenext
        m.freeprev ys rest fresh distinct in
    let at_p : (p == p) ≡ true = ground arith in
    let top : (if is_at a.freehead p then m.freenext else a.freehead) ≡ m.freenext =
      ap (λ f. if is_at f p then m.freenext else f) here
      ∙ ap (λ t. if t then m.freenext else some p) at_p in
    (
      record a { blocks = h; freehead = m.freenext },
      removefree_lem a.blocks h h a.tail a.freehead p m m.freenext cell second
          (change_if-none _ m.freeprev _ back) top,
      (subst (λ b. FreeChain h b m.freenext ys) back chain, distinct),
      block,
      refl,
    )

-- In an allocator whose free blocks are a list of different blocks linked in both directions,
-- removefree takes a block out of the list, wherever it stands in it, and leaves the others linked
-- in both directions and in their order.
pub removefree-IsFreeList :
    (a : Allocator) (xs : List ℕ) (p : ℕ) (ys : List ℕ)
    → IsFreeList a (xs ++ p ∷ ys)
    → (a' : Allocator) × (removefree a p ≡ some a') × IsFreeList a' (xs ++ ys)
removefree-IsFreeList a [] p ys ((here, m, cell, back, rest), (fresh, distinct)) =
    let (a1, ran, free, block, sized) =
      removefree_first a p m ys here cell back rest fresh distinct in
    (a1, ran, free)
removefree-IsFreeList a (x ∷ xs) p ys (chain, distinct) =
    let (m, cell, back, rest) = at_middle a.blocks none a.freehead x xs p ys chain in
    let (fresh, apart) = Distinct-behind p (x ∷ xs) ys distinct in
    let (h, second, behind, same, at_p) =
      relink a.blocks a.tail a.freehead p (record m { freeprev = none; freenext = none }) m.freenext
        m.freeprev ys rest fresh apart in
    let (b, cell_b, whole) =
      bypass a.blocks h none a.freehead x xs p m.freenext ys chain distinct
        (subst (λ o. FreeChain h o m.freenext ys) back behind) same in
    let (ne, away, both) = Fresh-middle x p xs ys distinct.0 in
    let not_p : (x == p) ≡ false = ground arith in
    let top : (if is_at a.freehead p then m.freenext else a.freehead) ≡ a.freehead =
      ap (λ f. if is_at f p then m.freenext else f) chain.0
      ∙ ap (λ t. if t then m.freenext else some x) not_p
      ∙ sym chain.0 in
    (
      record a { blocks = set_block h (last x xs) (record b { freenext = m.freenext }) },
      removefree_lem a.blocks h _ a.tail a.freehead p m a.freehead cell second
          (change_if-some h a.tail a.freehead m.freeprev (last x xs) b
            (λ b. record b { freenext = m.freenext }) back cell_b)
          top,
      (whole, Distinct-middle p (x ∷ xs) ys distinct),
    )
