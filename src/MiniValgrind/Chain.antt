-- ===== src/MiniValgrind/Chain.antt =====
-- The linked blocks of mini_valgrind/mini_valgrind.c as a list of addresses and sizes.
use system_programming.Base.{
  subst, ℕ, zero, suc, ◌+◌, ◌%◌, ◌<◌, ◌≡◌, ◌≢◌, refl, sym, ap, ◌∙◌, List, [], ◌∷◌, length, true,
  false, Bool-cases, inl, inr, ◌==◌, if◌then◌else◌, Option, none, some, arith,
}
use system_programming.MiniValgrind.Defs.{
  free_from, MetaData, Heap, set_cell, MiniValgrind, size_mod, link_behind, unlink, not_found,
  free_loop, free_head, mini_free,
}

pub record Block : Type 0 where
  pub address : ℕ
  pub size : ℕ

-- From `first` on, these blocks are linked, to NULL.
abbrev pub Chain : Heap → Option ℕ → List Block → Type 0
Chain h first [] = first ≡ none
Chain h first (b ∷ bs) =
    (first ≡ some b.address)
    × (m : MetaData) × (h b.address ≡ some m)
    × (m.request_size ≡ b.size)
    × Chain h m.next bs

-- The address is that of no block.
abbrev pub Avoids : ℕ → List Block → Type 0
Avoids p [] = Unit {0}
Avoids p (b ∷ bs) = (b.address ≢ p) × Avoids p bs

abbrev pub Distinct : List Block → Type 0
Distinct [] = Unit {0}
Distinct (b ∷ bs) = Avoids b.address bs × Distinct bs

pub set_cell-same : (h : Heap) (p : ℕ) (c : Option MetaData) → set_cell h p c p ≡ c
unfolding set_cell
set_cell-same h p c = let same : (p == p) ≡ true = ground arith in rw same refl

pub set_cell-other : (h : Heap) (p q : ℕ) (c : Option MetaData) → q ≢ p → set_cell h p c q ≡ h q
unfolding set_cell
set_cell-other h p q c ne = let other : (q == p) ≡ false = ground arith in rw other refl

-- A cell that is not in the chain does not matter.
Chain-set_cell :
    (h : Heap) (first : Option ℕ) (bs : List Block) (p : ℕ) (c : Option MetaData)
    → Avoids p bs
    → Chain h first bs
    → Chain (set_cell h p c) first bs
Chain-set_cell h first [] p c away chain = chain
Chain-set_cell h first (b ∷ bs) p c away chain =
    let (here, m, cell, size, rest) = chain in
    (
      here,
      m,
      set_cell-other h p b.address c away.0 ∙ cell,
      size,
      Chain-set_cell h m.next bs p c away.1 rest,
    )

-- What the link in fresh memory must be for a block that becomes the head: NULL. Behind a head it may
-- be anything.
abbrev pub LinkIsFine : Option ℕ → List Block → Type 0
LinkIsFine fresh [] = fresh ≡ none
LinkIsFine fresh (b ∷ bs) = Unit {0}

-- A new block behind the head, or as the head with the `next` NULL.
abbrev pub insert_block : Block → List Block → List Block
insert_block n [] = n ∷ []
insert_block n (b ∷ bs) = b ∷ n ∷ bs

pub link_behind-Chain :
    (v : MiniValgrind) (p : ℕ) (block : MetaData) (bs : List Block)
    → Chain v.heap v.head bs
    → Distinct bs
    → Avoids p bs
    → LinkIsFine block.next bs
    → (h : Heap) × (first : Option ℕ) × (link_behind v p block v.head
        ≡ some (record v { heap = h; head = first }))
      × Chain h first (insert_block (record { address = p; size = block.request_size }) bs)
link_behind-Chain v p block [] chain one_each away fresh =
    rw chain (_, _, refl, (refl, block, set_cell-same v.heap p (some block), refl, fresh))
link_behind-Chain v p block (b ∷ bs) chain one_each away fresh =
    let (here, m, cell, size, rest) = chain in
    let h0 = set_cell v.heap p (some block) in
    let h = set_cell h0 b.address (some (record m { next = some p })) in
    let cell0 : h0 b.address ≡ some m = set_cell-other v.heap p b.address _ away.0 ∙ cell in
    rw (here, cell0)
      (
        _,
        _,
        refl,
        (
          refl,
          _,
          set_cell-other h p b.address _ away.0 ∙ set_cell-same h0 b.address _,
          size,
          (
            refl,
            _,
            set_cell-same h p _,
            refl,
            Chain-set_cell h m.next bs p _ away.1 (
                Chain-set_cell h0 m.next bs b.address _ one_each.0
                  (Chain-set_cell v.heap m.next bs p _ away.1 rest)),
          ),
        ),
      )

-- The blocks without the one at the address, and its size.
abbrev pub remove : ℕ → List Block → List Block
remove p [] = []
remove p (b ∷ bs) = if b.address == p then bs else b ∷ remove p bs

abbrev pub size_at : ℕ → List Block → Option ℕ
size_at p [] = none
size_at p (b ∷ bs) = if b.address == p then some b.size else size_at p bs

-- The counters after mini_free, by the size of the block that was found.
abbrev pub counted : MiniValgrind → Heap → Option ℕ → Option ℕ → MiniValgrind
counted v h first none = not_found (record v { heap = h; head = first })
counted v h first (some n) = record v {
  heap = h;
  head = first;
  total_memory_freed = (v.total_memory_freed + n) % size_mod;
}

-- The loop of mini_free from a block on that is not the one to free.
free_loop-Chain :
    (k : ℕ) (v : MiniValgrind) (p : ℕ) (b : Block) (bs : List Block)
    → Chain v.heap (some b.address) (b ∷ bs)
    → Distinct (b ∷ bs)
    → b.address ≢ p
    → length bs < k
    → (h : Heap) × (free_loop k v p (some b.address) ≡ some (counted v h v.head (size_at p bs)))
      × Chain h (some b.address) (b ∷ remove p bs)
      × ((a : ℕ) → Avoids a (b ∷ bs) → h a ≡ v.heap a)
unfolding free_loop unlink
free_loop-Chain zero v p b bs chain one_each ne enough = absurd (omega arith)
free_loop-Chain (suc k) v p b [] chain one_each ne enough =
    let (here, m, cell, size, rest) = chain in
    (v.heap, rw (cell, rest) (by_fuel k), chain, λ a away. refl)
  where
    by_fuel : (k : ℕ) → free_loop k v p none ≡ some (not_found v)
    by_fuel zero = refl
    by_fuel (suc k) = refl
free_loop-Chain (suc k) v p b (q ∷ qs) chain one_each ne enough =
    let (here, m, cell, size, rest) = chain in
    let (there, n, cell', size', rest') = rest in
    elim (Bool-cases (q.address == p)) [
      | inl same ↦
          let e : q.address ≡ p = ground arith in
          let h = set_cell v.heap b.address (some (record m { next = n.next })) in
          let cell_p : v.heap p ≡ some n = ap v.heap (sym e) ∙ cell' in
          (
            set_cell h p none,
            rw (cell, there, same, cell_p, size') refl,
            rw same (
              refl,
              _,
              set_cell-other h p b.address none ne ∙ set_cell-same v.heap b.address _,
              size,
              Chain-set_cell h n.next qs p none (subst (λ a. Avoids a qs) e one_each.1.0)
                  (Chain-set_cell v.heap n.next qs b.address _ one_each.0.1 rest'),
            ),
            λ a away.
                set_cell-other h p a none (λ x. away.1.0 (e ∙ sym x))
                ∙ set_cell-other v.heap b.address a _ (λ x. away.0 (sym x)),
          )
      | inr other ↦
          let differs : q.address ≢ p = λ e. ground arith in
          let (h, ran, keeps, frame) =
            free_loop-Chain k v p q qs (refl, n, cell', size', rest') one_each.1 differs
              (omega arith) in
          (
            h,
            rw (cell, there, other) ran,
            rw other (
              refl,
              m,
              frame b.address one_each.0 ∙ cell,
              size,
              (there, keeps.1, keeps.2, keeps.3, keeps.4),
            ),
            λ a away. frame a away.1,
          )
    ]

free_from-Chain :
    (k : ℕ) (v : MiniValgrind) (p : ℕ) (first : Option ℕ) (bs : List Block)
    → first ≡ v.head
    → Chain v.heap first bs
    → Distinct bs
    → length bs < k
    → (h : Heap) × (rest : Option ℕ) × (free_from k v p first
        ≡ some (counted v h rest (size_at p bs)))
      × Chain h rest (remove p bs)
unfolding free_from free_head free_loop
free_from-Chain zero v p first bs at_head chain one_each enough = absurd (omega arith)
free_from-Chain (suc k) v p first [] at_head chain one_each enough =
    (v.heap, v.head, rw chain refl, sym at_head ∙ chain)
free_from-Chain (suc k) v p first (b ∷ bs) at_head chain one_each enough =
    let (here, m, cell, size, rest) = chain in
    elim (Bool-cases (b.address == p)) [
      | inl same ↦
          let e : b.address ≡ p = ground arith in
          let cell_p : v.heap p ≡ some m = ap v.heap (sym e) ∙ cell in
          (
            set_cell v.heap p none,
            m.next,
            rw (here, same, cell_p, size) refl,
            rw same (
                Chain-set_cell v.heap m.next bs p none (subst (λ a. Avoids a bs) e one_each.0)
                  rest),
          )
      | inr other ↦
          let differs : b.address ≢ p = λ e. ground arith in
          let (h, ran, keeps, frame) =
            free_loop-Chain (suc k) v p b bs (refl, m, cell, size, rest) one_each differs
              (omega arith) in
          (
            h,
            v.head,
            rw (here, other) ran,
            rw other (subst (λ f. Chain h f (b ∷ remove p bs)) (sym here ∙ at_head) keeps),
          )
    ]

-- mini_free of any address, with more fuel than there are blocks.
pub mini_free-Chain :
    (k : ℕ) (v : MiniValgrind) (p : ℕ) (bs : List Block)
    → Chain v.heap v.head bs
    → Distinct bs
    → length bs < k
    → (h : Heap) × (first : Option ℕ) × (mini_free k v (some p)
        ≡ some (counted v h first (size_at p bs)))
      × Chain h first (remove p bs)
unfolding mini_free
mini_free-Chain k v p bs chain one_each enough =
    free_from-Chain k v p v.head bs refl chain one_each enough
