-- ===== src/Concurrency/Queue/Defs.antt =====
-- The structs of critical_concurrency/queue.c and its operations. Nodes live in a heap, a list of
-- cells indexed by address: malloc takes the next address, and a freed cell is `none`. Access to a
-- freed cell or NULL is a fault, `none`.
use system_programming.Base.{
  ℕ, ◌+◌, ◌-◌, ◌≡◌, ◌<◌, ltb, ◌==◌, ◌&&◌, if◌then◌else◌, List, [], ◌∷◌, ◌++◌, Option, none, some,
  length, get_elem?, set, ◌>>=◌,
}

pub record Node {ℓ} (A : Type ℓ) : Type ℓ where
  pub item : A
  pub next : Option ℕ

abbrev pub Heap {ℓ} : Type ℓ → Type ℓ
Heap A = List (Option (Node A))

pub record Queue {ℓ} (A : Type ℓ) : Type ℓ where
  pub heap : Heap A
  pub head : Option ℕ
  pub tail : Option ℕ
  pub size : ℕ
  -- 0 stands for every value that is not positive: no maximum.
  pub max_size : ℕ
  -- Threads in pthread_cond_wait, of queue_push and of queue_pull, and those that were woken.
  pub asleep_pushes : ℕ
  pub asleep_pulls : ℕ
  pub awake_pushes : ℕ
  pub awake_pulls : ℕ
  -- What was pushed, and what was pulled, in order.
  pub pushed : List A
  pub pulled : List A

module _ {ℓ} {A : Type ℓ} where
  unfoldable pub queue_create : ℕ → Queue A
  queue_create max_size = record {
    heap = [];
    head = none;
    tail = none;
    size = 0;
    max_size = max_size;
    asleep_pushes = 0;
    asleep_pulls = 0;
    awake_pushes = 0;
    awake_pulls = 0;
    pushed = [];
    pulled = [];
  }

  -- *p.
  unfoldable pub node_at : Heap A → ℕ → Option (Node A)
  node_at h p = elim (get_elem? h p) [ none ↦ none | some cell ↦ cell ]

  -- pthread_cond_broadcast.
  unfoldable pub wake_all : Queue A → Queue A
  wake_all s = record s {
    asleep_pushes = 0;
    asleep_pulls = 0;
    awake_pushes = s.awake_pushes + s.asleep_pushes;
    awake_pulls = s.awake_pulls + s.asleep_pulls;
  }

  -- if(this->size != 0) ... else ..., with the new node `node` at the address `p`.
  unfoldable pub link : Node A → Queue A → Option (Queue A)
  link node s =
      let p = length s.heap in
      let h = s.heap ++ some node ∷ [] in
      if s.size == 0 then some (record s { heap = h; head = some p; tail = some p }) else (do
        t ← s.tail
        last ← node_at h t
        some (record s { heap = set h t (some (record last { next = some p })); tail = some p }))

  -- queue_push behind its wait.
  unfoldable pub push_node : A → Queue A → Option (Queue A)
  push_node a s = do
    u ← link (record { item = a; next = none }) s
    let v = record u { size = u.size + 1; pushed = u.pushed ++ a ∷ [] }
    some (if v.size == 1 then wake_all v else v)

  -- queue_push from its test on.
  unfoldable pub queue_push : A → Queue A → Option (Queue A)
  queue_push a s =
      if ltb 0 s.max_size && s.size == s.max_size
      then some (record s { asleep_pushes = s.asleep_pushes + 1 })
      else push_node a s

  -- queue_pull behind its wait.
  unfoldable pub pull_node : Queue A → Option (Queue A)
  pull_node s = do
    p ← s.head
    node ← node_at s.heap p
    let u = record s {
      heap = set s.heap p none;
      head = node.next;
      tail = elim node.next [ none ↦ none | some q ↦ s.tail ];
      size = s.size - 1;
      pulled = s.pulled ++ node.item ∷ [];
    }
    some (if ltb 0 u.max_size && u.size == u.max_size - 1 then wake_all u else u)

  -- queue_pull from its test on. The result is the last of `pulled`.
  unfoldable pub queue_pull : Queue A → Option (Queue A)
  queue_pull s =
      if s.size == 0 then some (record s { asleep_pulls = s.asleep_pulls + 1 }) else pull_node s

  -- A thread that starts a call, and a woken one, by a broadcast or without a reason, that takes the
  -- mutex and tests again.
  pub data Step (s : Queue A) : Queue A → Type ℓ where
    call_push : {t : Queue A} (a : A) → queue_push a s ≡ some t → Step s t
    call_pull : {t : Queue A} → queue_pull s ≡ some t → Step s t
    resume_push :
        {t : Queue A} (a : A)
        → 0 < s.awake_pushes
        → queue_push a (record s { awake_pushes = s.awake_pushes - 1 }) ≡ some t
        → Step s t
    resume_pull :
        {t : Queue A}
        → 0 < s.awake_pulls
        → queue_pull (record s { awake_pulls = s.awake_pulls - 1 }) ≡ some t
        → Step s t
    spurious_push :
        0 < s.asleep_pushes
        → Step s
            (record s { asleep_pushes = s.asleep_pushes - 1; awake_pushes = s.awake_pushes + 1 })
    spurious_pull :
        0 < s.asleep_pulls
        → Step s (record s { asleep_pulls = s.asleep_pulls - 1; awake_pulls = s.awake_pulls + 1 })

  pub data Reach (s : Queue A) : Queue A → Type ℓ where
    here : Reach s s
    next_step : {t u : Queue A} → Reach s t → Step t u → Reach s u
