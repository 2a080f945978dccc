-- ===== src/Concurrency/Barrier.antt =====
-- critical_concurrency/barrier.c: a reusable barrier. A thread that calls barrier_wait is first at
-- the gate (the first loop) and then inside (the second loop); every exit broadcasts, so that all
-- sleeping threads test again, and the state only counts the threads at each loop.
-- The struct is declared in a header outside the repository; its `count` is taken to be `unsigned
-- int`, as the parameter it is set from, and `times_used` not to overflow.
use system_programming.Base.{
  ℕ, ◌+◌, ◌-◌, ◌*◌, ◌^◌, ◌%◌, ◌<◌, ◌≤◌, ◌≡◌, refl, ◌⊎◌, inl, inr, ltb, ◌==◌, if◌then◌else◌, Option,
  Option-cases, none, some, arith,
}

pub record Barrier : Type 0 where
  pub count : ℕ
  pub n_threads : ℕ
  pub times_used : ℕ
  -- Threads in the first and in the second loop, and calls that have returned.
  pub gate : ℕ
  pub inside : ℕ
  pub left : ℕ

unfoldable pub barrier_init : ℕ → Barrier
barrier_init num_threads = record {
  count = num_threads;
  n_threads = num_threads;
  times_used = 0;
  gate = 0;
  inside = 0;
  left = 0;
}

abbrev pub uint_mod : ℕ
uint_mod = 2 ^ 32

-- Decrementing an `unsigned int`.
abbrev pub one_less : ℕ → ℕ
one_less n = (n + uint_mod - 1) % uint_mod

-- A thread calls barrier_wait and takes the mutex.
unfoldable pub arrive : Barrier → Barrier
arrive b = record b { gate = b.gate + 1 }

-- `while(count > n_threads)` ends for a thread at the gate, up to the second loop or the exit;
-- `none` when it has to wait.
unfoldable pub pass : Barrier → Option Barrier
pass b =
    if ltb b.n_threads b.count
    then none
    else if one_less b.count == 0
    then some (record b {
      gate = b.gate - 1;
      count = one_less (2 * b.n_threads % uint_mod);
      times_used = b.times_used + 1;
      left = b.left + 1;
    })
    else some (record b { gate = b.gate - 1; count = one_less b.count; inside = b.inside + 1 })

-- `while(count < n_threads)` ends for a thread inside, up to the exit.
unfoldable pub leave : Barrier → Option Barrier
leave b =
    if ltb b.count b.n_threads
    then none
    else some (record b { inside = b.inside - 1; count = one_less b.count; left = b.left + 1 })

pub data Step (b : Barrier) : Barrier → Type 0 where
  arrives : Step b (arrive b)
  passes : {c : Barrier} → 0 < b.gate → pass b ≡ some c → Step b c
  leaves : {c : Barrier} → 0 < b.inside → leave b ≡ some c → Step b c

pub data Reach (b : Barrier) : Barrier → Type 0 where
  here : Reach b b
  next : {c d : Barrier} → Reach b c → Step c d → Reach b d

-- Either the round fills up, or it is complete and its threads drain out.
abbrev pub Phase : ℕ → Barrier → Type 0
Phase n b =
    ((b.count + b.inside ≡ n) × (0 < b.count) × (b.left ≡ n * b.times_used))
    ⊎ ((b.count ≡ n + b.inside)
        × (0 < b.inside)
        × (b.inside < n)
        × (b.left + b.inside ≡ n * b.times_used))

pub record Inv (n : ℕ) (b : Barrier) : Type 0 where
  pub same_n : b.n_threads ≡ n
  pub positive : 0 < n
  pub small : 2 * n < uint_mod
  pub phase : Phase n b

next_round : (n k : ℕ) → n * (k + 1) ≡ n * k + n
next_round n k = omega arith

pass-Inv : (n : ℕ) (b c : Barrier) → Inv n b → pass b ≡ some c → Inv n c
unfolding pass
pass-Inv n b c v e = ground (arith, next_round n b.times_used)

leave-Inv : (n : ℕ) (b c : Barrier) → Inv n b → 0 < b.inside → leave b ≡ some c → Inv n c
unfolding leave
leave-Inv n b c v h e = ground arith

Step-Inv : (n : ℕ) {b c : Barrier} → Step b c → Inv n b → Inv n c
unfolding arrive
Step-Inv n arrives v = record {
  same_n = v.same_n;
  positive = v.positive;
  small = v.small;
  phase = v.phase;
}
Step-Inv n {b} {c} (passes h e) v = pass-Inv n b c v e
Step-Inv n {b} {c} (leaves h e) v = leave-Inv n b c v h e

pub Reach-Inv : (n : ℕ) {b c : Barrier} → Inv n b → Reach b c → Inv n c
Reach-Inv n v here = v
Reach-Inv n v (next r st) = Step-Inv n st (Reach-Inv n v r)

pub barrier_init-Inv : (n : ℕ) → 0 < n → 2 * n < uint_mod → Inv n (barrier_init n)
unfolding barrier_init
barrier_init-Inv n h k = record {
  same_n = refl;
  positive = h;
  small = k;
  phase = inl (omega arith, h, omega arith);
}

-- For 0 < n < 2^31 threads, in every interleaving of barrier_wait calls, a call returns only in a
-- round that n threads have entered: no more calls have returned than n * rounds, and the calls
-- that returned and those inside are together at least n * rounds and below n * rounds + n, where
-- rounds counts the completed rounds.
pub barrier_rounds :
    (n : ℕ) {b : Barrier}
    → 0 < n
    → 2 * n < uint_mod
    → Reach (barrier_init n) b
    → (b.left ≤ n * b.times_used)
      × (n * b.times_used ≤ b.left + b.inside)
      × (b.left + b.inside < n * b.times_used + n)
barrier_rounds n h small r = ground (arith, Reach-Inv n (barrier_init-Inv n h small) r)

pass_open : (b : Barrier) → b.count ≤ b.n_threads → (c : Barrier) × (pass b ≡ some c)
unfolding pass
pass_open b h = elim (Option-cases (pass b)) [
  | inl blocked ↦ absurd (ground arith)
  | inr (c, e) ↦ (c, e)
]

progress :
    (n : ℕ) (b : Barrier)
    → Inv n b
    → (c : Barrier) × ((pass b ≡ some c) ⊎ ((0 < b.inside) × (leave b ≡ some c)))
progress n b v = elim v.phase [
  | inl (sum, some_left, _) ↦ let (c, e) = pass_open b (omega (arith, v.same_n)) in (c, inl e)
  | inr (sum, some_inside, few, _) ↦ (
    record b { inside = b.inside - 1; count = one_less b.count; left = b.left + 1 },
    inr (some_inside, unfold leave in ground arith),
  )
]

-- For 0 < n < 2^31 threads, in every state that calls of barrier_wait reach with a thread at the
-- gate, a thread at the gate can pass or one inside can leave.
barrier_progress :
    (n : ℕ) {b : Barrier}
    → 0 < n
    → 2 * n < uint_mod
    → Reach (barrier_init n) b
    → 0 < b.gate
    → (c : Barrier) × ((pass b ≡ some c) ⊎ ((0 < b.inside) × (leave b ≡ some c)))
barrier_progress n {b} h small r waiting = progress n b (Reach-Inv n (barrier_init-Inv n h small) r)
