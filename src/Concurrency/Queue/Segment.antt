-- ===== src/Concurrency/Queue/Segment.antt =====
-- The linked nodes of the queue as a list: from the head to the tail the addresses increase, since
-- malloc takes the next one.
use system_programming.Base.{
  ℕ, zero, suc, ◌<◌, ◌≤◌, ◌≡◌, ◌≢◌, refl, sym, ap, ◌∙◌, List, [], ◌∷◌, ◌++◌, Option, none, some,
  some_inj, length, length-append, set, arith,
}
use system_programming.Concurrency.Queue.Defs.{Node, Heap, node_at}

module _ {ℓ} {A : Type ℓ} where
  -- The nodes from the first address to the last hold these items.
  pub data Segment (h : Heap A) : ℕ → ℕ → List A → Type ℓ where
    one :
        {t : ℕ} (a : A)
        → node_at h t ≡ some (record { item = a; next = none })
        → Segment h t t (a ∷ [])
    more :
        {p q t : ℕ} {xs : List A} (a : A)
        → node_at h p ≡ some (record { item = a; next = some q })
        → p < q
        → Segment h q t xs
        → Segment h p t (a ∷ xs)

  pub node_at-set_other :
      (h : Heap A) (p q : ℕ) (c : Option (Node A)) → p ≢ q → node_at (set h q c) p ≡ node_at h p
  unfolding node_at
  node_at-set_other [] p q c ne = refl
  node_at-set_other (x ∷ h) zero zero c ne = absurd (ne refl)
  node_at-set_other (x ∷ h) zero (suc q) c ne = refl
  node_at-set_other (x ∷ h) (suc p) zero c ne = refl
  node_at-set_other (x ∷ h) (suc p) (suc q) c ne = node_at-set_other h p q c (λ e. ne (ap suc e))

  pub node_at-set_same :
      (h : Heap A) (p : ℕ) (c : Option (Node A)) → p < length h → node_at (set h p c) p ≡ c
  unfolding node_at
  node_at-set_same [] p c k = absurd (omega arith)
  node_at-set_same (x ∷ h) zero c k = refl
  node_at-set_same (x ∷ h) (suc p) c k = node_at-set_same h p c (omega arith)

  pub node_at-inside : (h : Heap A) (p : ℕ) (node : Node A) → node_at h p ≡ some node → p < length h
  unfolding node_at
  node_at-inside [] p node e = cc
  node_at-inside (x ∷ h) zero node e = omega arith
  node_at-inside (x ∷ h) (suc p) node e = omega (arith, node_at-inside h p node e)

  pub node_at-front :
      (h : Heap A) (c : Option (Node A)) (p : ℕ)
      → p < length h
      → node_at (h ++ c ∷ []) p ≡ node_at h p
  unfolding node_at
  node_at-front [] c p k = absurd (omega arith)
  node_at-front (x ∷ h) c zero k = refl
  node_at-front (x ∷ h) c (suc p) k = node_at-front h c p (omega arith)

  pub node_at-new : (h : Heap A) (c : Option (Node A)) → node_at (h ++ c ∷ []) (length h) ≡ c
  unfolding node_at
  node_at-new [] c = refl
  node_at-new (x ∷ h) c = node_at-new h c

  pub first-le-last : {h : Heap A} {p t : ℕ} {xs : List A} → Segment h p t xs → p ≤ t
  first-le-last (one a e) = omega arith
  first-le-last (more a e less s) = omega (arith, first-le-last s)

  pub tail_inside : {h : Heap A} {p t : ℕ} {xs : List A} → Segment h p t xs → t < length h
  tail_inside {h} {p} (one a e) = node_at-inside h p _ e
  tail_inside (more a e less s) = tail_inside s

  -- The last node has no successor.
  pub last_node :
      {h : Heap A} {p t : ℕ} {xs : List A}
      → Segment h p t xs
      → (a : A) × (node_at h t ≡ some (record { item = a; next = none }))
  last_node (one a e) = (a, e)
  last_node (more a e less s) = last_node s

  -- Freeing a node in front of the segment.
  pub Segment-free :
      {h : Heap A} {p t : ℕ} {xs : List A} (r : ℕ)
      → r < p
      → Segment h p t xs
      → Segment (set h r none) p t xs
  Segment-free {h} {p} r k (one a e) =
      one a (node_at-set_other h p r none (λ q. absurd (omega arith)) ∙ e)
  Segment-free {h} {p} r k (more a e less s) =
      more a (node_at-set_other h p r none (λ q. absurd (omega arith)) ∙ e) less
        (Segment-free r (omega arith) s)

  -- Appending a node behind the tail.
  pub Segment-append :
      {h : Heap A} {p t : ℕ} {xs : List A} (a last : A)
      → Segment h p t xs
      → node_at h t ≡ some (record { item = last; next = none })
      → Segment
          (set
            (h ++ some (record { item = a; next = none }) ∷ [])
            t
            (some (record { item = last; next = some (length h) })))
          p
          (length h)
          (xs ++ a ∷ [])
  Segment-append {h} {p} a last (one b e) end =
      let new : Node A = record { item = a; next = none } in
      let h' = h ++ some new ∷ [] in
      let inside = node_at-inside h p _ e in
      let same : last ≡ b = ap (λ (n : Node A). n.item) (some_inj (sym end ∙ e)) in
      more b
        (node_at-set_same h' p _ (omega (arith, length-append h (some new ∷ [])))
          ∙ ap (λ (x : A). some (record { item = x; next = some (length h) })) same)
        inside
        (one a (
          node_at-set_other h' (length h) p _ (λ q. absurd (omega arith))
          ∙ node_at-new h (some new)))
  Segment-append {h} {p} {t} a last (more b e less s) end =
      let new : Node A = record { item = a; next = none } in
      let h' = h ++ some new ∷ [] in
      let far = first-le-last s in
      more b
        (node_at-set_other h' p t _ (λ q. absurd (omega arith))
          ∙ node_at-front h (some new) p (node_at-inside h p _ e)
          ∙ e)
        less (Segment-append a last s end)

  pub some_items : {h : Heap A} {p t : ℕ} {xs : List A} → Segment h p t xs → 0 < length xs
  some_items (one a e) = omega arith
  some_items (more a e less s) = omega arith
