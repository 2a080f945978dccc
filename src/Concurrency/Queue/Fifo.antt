-- ===== src/Concurrency/Queue/Fifo.antt =====
-- queue_push and queue_pull of critical_concurrency/queue.c in every interleaving: first in, first
-- out, and no lost wakeup.
use system_programming.Base.{
  ℕ, ◌+◌, ◌-◌, ◌<◌, ◌≡◌, ◌≢◌, refl, sym, ap, ◌∙◌, subst, ◌⊎◌, inl, inr, true, false, Bool-cases,
  ltb, lt→ltb, ◌==◌, ◌&&◌, List, [], ◌∷◌, ◌++◌, Option, none, some, length, length-append, set,
  arith,
}
use system_programming.Concurrency.Queue.Defs.{Queue, node_at, wake_all, link, push_node, pull_node}
use system_programming.Concurrency.Queue.Segment.{
  Segment, one, more, Segment-free, Segment-append, last_node, node_at-front, node_at-new,
  tail_inside, some_items,
}

true-false : true ≢ false
true-false e = cc

equal_nat : (a b : ℕ) → a ≡ b → (a == b) ≡ true
equal_nat a b h = ground arith

unequal_nat : (a b : ℕ) → a ≢ b → (a == b) ≡ false
unequal_nat a b h = ground arith

not_just_full : (m n : ℕ) → (ltb 0 m && (n - 1) == (m - 1)) ≡ false → 0 < m → 0 < n → n - 1 + 1 ≢ m
not_just_full m n h some_max some_in e =
    let same : ((n - 1) == (m - 1)) ≡ true = equal_nat (n - 1) (m - 1) (omega arith) in
    absurd (true-false (sym (rw (lt→ltb 0 m some_max, same)) ∙ h))

module _ {ℓ} {A : Type ℓ} where
  -- The queue holds the items `xs`.
  pub data Linked (s : Queue A) (xs : List A) : Type ℓ where
    nothing : s.head ≡ none → xs ≡ [] → s.size ≡ 0 → Linked s xs
    linked :
        (p t : ℕ)
        → s.head ≡ some p
        → s.tail ≡ some t
        → Segment s.heap p t xs
        → 0 < s.size
        → s.size ≡ length xs
        → Linked s xs

  -- What queue_push does when it need not wait.
  pub record Pushes (a : A) (s : Queue A) (xs : List A) (u : Queue A) : Type ℓ where
    pub items : Linked u (xs ++ a ∷ [])
    pub size : u.size ≡ s.size + 1
    pub pushed : u.pushed ≡ s.pushed ++ a ∷ []
    pub pulled : u.pulled ≡ s.pulled
    pub same_max : u.max_size ≡ s.max_size
    pub sleepers :
        ((s.size ≡ 0) × (u.asleep_pulls ≡ 0) × (u.asleep_pushes ≡ 0))
        ⊎ ((0 < s.size) × (u.asleep_pulls ≡ s.asleep_pulls) × (u.asleep_pushes ≡ s.asleep_pushes))

  pub push_node-Pushes :
      (a : A) (s : Queue A) (xs : List A)
      → Linked s xs
      → (u : Queue A) × (push_node a s ≡ some u) × Pushes a s xs u
  unfolding push_node link wake_all
  push_node-Pushes a s xs (nothing no_head e empty) =
      let first = equal_nat s.size 0 empty in
      let broadcast = equal_nat (s.size + 1) 1 (omega arith) in
      rw (first, broadcast)
        (
          _,
          refl,
          record {
            items =
                linked (length s.heap) (length s.heap) refl refl
                  (subst (Segment _ (length s.heap) (length s.heap)) (ap (λ l. l ++ a ∷ []) (sym e))
                    (one a (node_at-new s.heap (some (record { item = a; next = none })))))
                  (omega arith) (omega (arith, ap length e, length-append xs (a ∷ [])));
            size = refl;
            pushed = refl;
            pulled = refl;
            same_max = refl;
            sleepers = inl (empty, refl, refl);
          },
        )
  push_node-Pushes a s xs (linked p t is_head is_tail seg some_in size) =
      let (last, end) = last_node seg in
      let first = unequal_nat s.size 0 (λ q. absurd (omega arith)) in
      let quiet = unequal_nat (s.size + 1) 1 (λ q. absurd (omega arith)) in
      let found =
        node_at-front s.heap (some (record { item = a; next = none })) t (tail_inside seg) ∙ end in
      rw (first, is_tail, found, quiet)
        (
          _,
          refl,
          record {
            items =
                linked p (length s.heap) is_head refl (Segment-append a last seg end) (omega arith)
                  (omega (arith, length-append xs (a ∷ [])));
            size = refl;
            pushed = refl;
            pulled = refl;
            same_max = refl;
            sleepers = inr (some_in, refl, refl);
          },
        )

  -- What queue_pull does when it need not wait.
  pub record Pulls (a : A) (s : Queue A) (xs : List A) (u : Queue A) : Type ℓ where
    pub items : Linked u xs
    pub size : u.size + 1 ≡ s.size
    pub pushed : u.pushed ≡ s.pushed
    pub pulled : u.pulled ≡ s.pulled ++ a ∷ []
    pub same_max : u.max_size ≡ s.max_size
    pub sleepers :
        ((u.asleep_pulls ≡ 0) × (u.asleep_pushes ≡ 0))
        ⊎ ((0 < s.max_size → u.size + 1 ≢ s.max_size)
            × (u.asleep_pulls ≡ s.asleep_pulls)
            × (u.asleep_pushes ≡ s.asleep_pushes))

  -- The queue when the head node `p`, with the given successor, is unlinked.
  abbrev unlinked : Queue A → ℕ → A → Option ℕ → Queue A
  unlinked s p a after = record s {
    heap = set s.heap p none;
    head = after;
    tail = elim after [ none ↦ none | some q ↦ s.tail ];
    size = s.size - 1;
    pulled = s.pulled ++ a ∷ [];
  }

  Linked-wake_all : {s : Queue A} {xs : List A} → Linked s xs → Linked (wake_all s) xs
  unfolding wake_all
  Linked-wake_all (nothing h e z) = nothing h e z
  Linked-wake_all (linked p t h k seg z n) = linked p t h k seg z n

  Pulls-wake :
      (a : A) (s : Queue A) (xs : List A) (p : ℕ) (after : Option ℕ)
      → 0 < s.size
      → Linked (unlinked s p a after) xs
      → s.head ≡ some p
      → node_at s.heap p ≡ some (record { item = a; next = after })
      → (u : Queue A) × (pull_node s ≡ some u) × Pulls a s xs u
  unfolding pull_node wake_all
  Pulls-wake a s xs p after some_in left is_head node =
      elim (Bool-cases (ltb 0 s.max_size && s.size - 1 == s.max_size - 1)) [
        | inl full ↦
            rw (is_head, node, full)
              (
                _,
                refl,
                record {
                  items = Linked-wake_all left;
                  size = omega arith;
                  pushed = refl;
                  pulled = refl;
                  same_max = refl;
                  sleepers = inl (refl, refl);
                },
              )
        | inr not_full ↦
            rw (is_head, node, not_full)
              (
                _,
                refl,
                record {
                  items = left;
                  size = omega arith;
                  pushed = refl;
                  pulled = refl;
                  same_max = refl;
                  sleepers =
                      inr
                        ((λ h e. not_just_full s.max_size s.size not_full h some_in e), refl, refl);
                },
              )
      ]

  pub pull_node-Pulls :
      (a : A) (s : Queue A) (xs : List A)
      → Linked s (a ∷ xs)
      → (u : Queue A) × (pull_node s ≡ some u) × Pulls a s xs u
  pull_node-Pulls a s xs (nothing h e z) = cc
  pull_node-Pulls a s xs (linked p t h k (one b e) z n) =
      Pulls-wake a s [] p none z (nothing refl refl (omega arith)) h e
  pull_node-Pulls a s xs (linked p t h k (more {q = q} b e less seg) z n) =
      Pulls-wake a s xs p (some q) z
        (linked q t refl k (Segment-free p less seg) (omega (arith, some_items seg)) (omega arith))
        h e
