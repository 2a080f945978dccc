-- ===== src/Concurrency/Queue/Waiting.antt =====
-- Every interleaving of queue_push and queue_pull of critical_concurrency/queue.c.
use system_programming.Base.{
  ℕ, zero, suc, ◌+◌, ◌-◌, ◌<◌, ◌≤◌, ◌≡◌, ◌≢◌, refl, sym, ap, ◌∙◌, subst, ◌⊎◌, inl, inr, true, false,
  Bool-cases, ltb, ◌==◌, ◌&&◌, List, [], ◌∷◌, ◌++◌, append_assoc, Option, some, some_inj, arith,
}
use system_programming.Concurrency.Queue.Defs.{
  Queue, queue_create, push_node, queue_push, pull_node, queue_pull, Step, call_push, call_pull,
  resume_push, resume_pull, spurious_push, spurious_pull, Reach, here, next_step,
}
use system_programming.Concurrency.Queue.Fifo.{
  Linked, nothing, linked, push_node-Pushes, pull_node-Pulls,
}

is_full : (m n : ℕ) → (ltb 0 m && n == m) ≡ true → (0 < m) × (n ≡ m)
is_full m n h = ground arith

has_room : (m n : ℕ) → (ltb 0 m && n == m) ≡ false → 0 < m → n ≢ m
has_room m n h k e = ground arith

zero_or : (n : ℕ) → (n ≡ 0) ⊎ (0 < n)
zero_or zero = inl refl
zero_or (suc n) = inr (omega arith)

module _ {ℓ} {A : Type ℓ} where
  -- The queue holds what was pushed and not yet pulled, in order; it is not too full; and threads
  -- that sleep have a reason to.
  pub record Inv (max : ℕ) (s : Queue A) : Type ℓ where
    pub items : List A
    pub holds : Linked s items
    pub fifo : s.pulled ++ items ≡ s.pushed
    pub same_max : s.max_size ≡ max
    pub within : 0 < max → s.size ≤ max
    pub pull_waits : 0 < s.asleep_pulls → s.size ≡ 0
    pub push_waits : 0 < s.asleep_pushes → (0 < max) × (s.size ≡ max)

  -- An operation that succeeds and keeps the invariant.
  abbrev Keeps : ℕ → Option (Queue A) → Type ℓ
  Keeps max r = (u : Queue A) × (r ≡ some u) × Inv max u

  push_node-Keeps :
      (a : A) (max : ℕ) (s : Queue A)
      → Inv max s
      → (0 < max → s.size ≢ max)
      → Keeps max (push_node a s)
  push_node-Keeps a max s v room =
      let (u, ran, p) = push_node-Pushes a s v.items v.holds in
      (
        u,
        ran,
        record {
          items = v.items ++ a ∷ [];
          holds = p.items;
          fifo =
              rw (p.pulled, p.pushed)
                (sym (append_assoc s.pulled v.items (a ∷ [])) ∙ ap (λ l. l ++ a ∷ []) v.fifo);
          same_max = p.same_max ∙ v.same_max;
          within = λ h. omega (arith, p.size, v.within h, room h);
          pull_waits = λ h. elim p.sleepers [
            | inl (_, none_asleep, _) ↦ absurd (omega arith)
            | inr (some_in, same, _) ↦ absurd (omega (arith, v.pull_waits (omega arith)))
          ];
          push_waits = λ h. elim p.sleepers [
            | inl (_, _, none_asleep) ↦ absurd (omega arith)
            | inr (some_in, _, same) ↦
                let (bounded, full) = v.push_waits (omega arith) in absurd (room bounded full)
          ];
        },
      )

  pull_node-Keeps : (max : ℕ) (s : Queue A) → Inv max s → s.size ≢ 0 → Keeps max (pull_node s)
  pull_node-Keeps max s v some_in = keep v.items v.holds v.fifo
    where
      keep :
          (items : List A) → Linked s items → s.pulled ++ items ≡ s.pushed → Keeps max (pull_node s)
      keep [] (nothing _ _ z) f = absurd (some_in z)
      keep [] (linked p t _ _ seg z n) f = absurd (omega arith)
      keep (a ∷ items) l f =
          let (u, ran, p) = pull_node-Pulls a s items l in
          (
            u,
            ran,
            record {
              items = items;
              holds = p.items;
              fifo = rw (p.pulled, p.pushed) (append_assoc s.pulled (a ∷ []) items ∙ f);
              same_max = p.same_max ∙ v.same_max;
              within = λ h. omega (arith, p.size, v.within h);
              pull_waits = λ h. elim p.sleepers [
                | inl (none_asleep, _) ↦ absurd (omega arith)
                | inr (_, same, _) ↦ absurd (some_in (v.pull_waits (omega arith)))
              ];
              push_waits = λ h. elim p.sleepers [
                | inl (_, none_asleep) ↦ absurd (omega arith)
                | inr (not_just_full, _, same) ↦
                    let (bounded, full) = v.push_waits (omega arith) in
                    absurd
                      (not_just_full (omega (arith, v.same_max)) (p.size ∙ full ∙ sym v.same_max))
              ];
            },
          )

  -- The queue with other counts of waiting threads.
  abbrev park : ℕ → ℕ → ℕ → ℕ → Queue A → Queue A
  park a b c d s = record s {
    asleep_pushes = a;
    asleep_pulls = b;
    awake_pushes = c;
    awake_pulls = d;
  }

  Linked-park : (a b c d : ℕ) {s : Queue A} {xs : List A} → Linked s xs → Linked (park a b c d s) xs
  Linked-park a b c d (nothing h e z) = nothing h e z
  Linked-park a b c d (linked p t h k seg z n) = linked p t h k seg z n

  Inv-park :
      (max a b c d : ℕ) (s : Queue A)
      → Inv max s
      → (0 < b → s.size ≡ 0)
      → (0 < a → (0 < max) × (s.size ≡ max))
      → Inv max (park a b c d s)
  Inv-park max a b c d s v why_pull why_push = record {
    items = v.items;
    holds = Linked-park a b c d v.holds;
    fifo = v.fifo;
    same_max = v.same_max;
    within = v.within;
    pull_waits = why_pull;
    push_waits = why_push;
  }

  -- A call of queue_push succeeds and keeps the invariant.
  pub queue_push-Keeps : (a : A) (max : ℕ) (s : Queue A) → Inv max s → Keeps max (queue_push a s)
  unfolding queue_push
  queue_push-Keeps a max s v = elim (Bool-cases (ltb 0 s.max_size && s.size == s.max_size)) [
    | inl full ↦
        let (bounded, at_max) = is_full s.max_size s.size full in
        rw full (
          _,
          refl,
          Inv-park max (s.asleep_pushes + 1) s.asleep_pulls s.awake_pushes s.awake_pulls s v
              v.pull_waits (λ h. (omega (arith, v.same_max), at_max ∙ v.same_max)),
        )
    | inr room ↦ rw room (
        push_node-Keeps a max s v
          (λ h e. has_room s.max_size s.size room (omega (arith, v.same_max)) (e ∙ sym v.same_max)))
  ]

  -- A call of queue_pull succeeds and keeps the invariant.
  pub queue_pull-Keeps : (max : ℕ) (s : Queue A) → Inv max s → Keeps max (queue_pull s)
  unfolding queue_pull
  queue_pull-Keeps max s v = elim (Bool-cases (s.size == 0)) [
    | inl empty ↦ rw empty (
      _,
      refl,
      Inv-park max s.asleep_pushes (s.asleep_pulls + 1) s.awake_pushes s.awake_pulls s v
          (λ h. ground arith) v.push_waits,
    )
    | inr more ↦ rw more (pull_node-Keeps max s v (λ e. ground arith))
  ]

  ran-Inv : (max : ℕ) (r : Option (Queue A)) (t : Queue A) → Keeps max r → r ≡ some t → Inv max t
  ran-Inv max r t (u, ran, v) e = subst (Inv max) (some_inj (sym ran ∙ e)) v

  Step-Inv : (max : ℕ) {s t : Queue A} → Step s t → Inv max s → Inv max t
  Step-Inv max {s} {t} (call_push a e) v = ran-Inv max _ t (queue_push-Keeps a max s v) e
  Step-Inv max {s} {t} (call_pull e) v = ran-Inv max _ t (queue_pull-Keeps max s v) e
  Step-Inv max {s} {t} (resume_push a h e) v =
      ran-Inv max _ t
        (queue_push-Keeps a max _ (
          Inv-park max s.asleep_pushes s.asleep_pulls (s.awake_pushes - 1) s.awake_pulls s v
            v.pull_waits v.push_waits))
        e
  Step-Inv max {s} {t} (resume_pull h e) v =
      ran-Inv max _ t
        (queue_pull-Keeps max _ (
          Inv-park max s.asleep_pushes s.asleep_pulls s.awake_pushes (s.awake_pulls - 1) s v
            v.pull_waits v.push_waits))
        e
  Step-Inv max {s} {t} (spurious_push h) v =
      Inv-park max (s.asleep_pushes - 1) s.asleep_pulls (s.awake_pushes + 1) s.awake_pulls s v
        v.pull_waits (λ k. v.push_waits h)
  Step-Inv max {s} {t} (spurious_pull h) v =
      Inv-park max s.asleep_pushes (s.asleep_pulls - 1) s.awake_pushes (s.awake_pulls + 1) s v
        (λ k. v.pull_waits h) v.push_waits

  queue_create-Inv : (max : ℕ) → Inv max (queue_create max)
  unfolding queue_create
  queue_create-Inv max = record {
    items = [];
    holds = nothing refl refl refl;
    fifo = refl;
    same_max = refl;
    within = λ h. omega arith;
    pull_waits = λ h. refl;
    push_waits = λ h. absurd (omega arith);
  }

  pub Reach-Inv : (max : ℕ) {s : Queue A} → Reach (queue_create max) s → Inv max s
  Reach-Inv max here = queue_create-Inv max
  Reach-Inv max (next_step r st) = Step-Inv max st (Reach-Inv max r)

  -- In every state that queue_push and queue_pull calls reach from an empty queue, queue_push and
  -- queue_pull run without access to NULL or to a freed node.
  queue_runs :
      (max : ℕ) (s : Queue A) (a : A)
      → Reach (queue_create max) s
      → ((t : Queue A) × (queue_push a s ≡ some t)) × ((t : Queue A) × (queue_pull s ≡ some t))
  queue_runs max s a r =
      let v = Reach-Inv max r in
      let (t, pushed, _) = queue_push-Keeps a max s v in
      let (u, pulled, _) = queue_pull-Keeps max s v in ((t, pushed), (u, pulled))

  -- After every interleaving of queue_push and queue_pull calls, wakeups and spurious wakeups from
  -- an empty queue, the linked nodes hold a list of items, size many, such that what was pulled, in
  -- order, and then these items are what was pushed, in order; and the size is at most the maximum,
  -- or there is none.
  pub queue_fifo :
      (max : ℕ) (s : Queue A)
      → Reach (queue_create max) s
      → (items : List A) × Linked s items
        × (s.pulled ++ items ≡ s.pushed)
        × ((max ≡ 0) ⊎ (s.size ≤ max))
  queue_fifo max s r =
      let v = Reach-Inv max r in
      (
        v.items,
        v.holds,
        v.fifo,
        elim (zero_or max) [ inl unbounded ↦ inl unbounded | inr bounded ↦ inr (v.within bounded) ],
      )

  -- After every interleaving of queue_push and queue_pull calls, wakeups and spurious wakeups from
  -- an empty queue, a thread sleeps in queue_pull only while the queue is empty, and one sleeps in
  -- queue_push only while there is a maximum and the size is at it.
  pub queue_no_lost_wakeup :
      (max : ℕ) (s : Queue A)
      → Reach (queue_create max) s
      → ((s.asleep_pulls ≡ 0) ⊎ (s.size ≡ 0))
        × ((s.asleep_pushes ≡ 0) ⊎ ((0 < max) × (s.size ≡ max)))
  queue_no_lost_wakeup max s r =
      let v = Reach-Inv max r in
      (
        elim (zero_or s.asleep_pulls) [ inl z ↦ inl z | inr h ↦ inr (v.pull_waits h) ],
        elim (zero_or s.asleep_pushes) [ inl z ↦ inl z | inr h ↦ inr (v.push_waits h) ],
      )
