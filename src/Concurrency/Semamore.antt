-- ===== src/Concurrency/Semamore.antt =====
-- critical_concurrency/semamore.c: a counting semaphore with a maximum. Threads are anonymous: the
-- state counts those that sleep in pthread_cond_wait and those that were woken and have yet to take
-- the mutex and test again. The value starts at 0 or above.
use system_programming.Base.{
  ℕ, zero, suc, ◌+◌, ◌-◌, ◌<◌, ◌≤◌, ◌≡◌, ◌∙◌, refl, Bool-cases, inl, inr, ltb, ◌==◌, if◌then◌else◌,
  arith,
}

pub data Op : Type 0 where
  waits posts : Op

pub record Semamore : Type 0 where
  pub value : ℕ
  pub max_val : ℕ
  -- Sleeping in semm_wait and in semm_post.
  pub asleep_waits : ℕ
  pub asleep_posts : ℕ
  -- Woken in semm_wait and in semm_post.
  pub awake_waits : ℕ
  pub awake_posts : ℕ
  -- How many calls of each have completed.
  pub taken : ℕ
  pub posted : ℕ

unfoldable pub semm_init : ℕ → ℕ → Semamore
semm_init value max_val = record {
  value = value;
  max_val = max_val;
  asleep_waits = 0;
  asleep_posts = 0;
  awake_waits = 0;
  awake_posts = 0;
  taken = 0;
  posted = 0;
}

unfoldable pub sleep : Op → Semamore → Semamore
sleep waits s = record s { asleep_waits = s.asleep_waits + 1 }
sleep posts s = record s { asleep_posts = s.asleep_posts + 1 }

unfoldable pub wake : Op → Semamore → Semamore
wake waits s = record s { asleep_waits = s.asleep_waits - 1; awake_waits = s.awake_waits + 1 }
wake posts s = record s { asleep_posts = s.asleep_posts - 1; awake_posts = s.awake_posts + 1 }

-- pthread_cond_signal wakes one sleeper, if there is one: of the kind that is `preferred`, or else
-- of the other.
unfoldable pub signal : Op → Semamore → Semamore
signal waits s =
    if ltb 0 s.asleep_waits then wake waits s else if ltb 0 s.asleep_posts then wake posts s else s
signal posts s =
    if ltb 0 s.asleep_posts then wake posts s else if ltb 0 s.asleep_waits then wake waits s else s

-- semm_wait from its test on.
unfoldable pub semm_wait : Semamore → Semamore
semm_wait s =
    if s.value == 0 then sleep waits s else record s { value = s.value - 1; taken = s.taken + 1 }

-- semm_post from its test on.
unfoldable pub semm_post : Op → Semamore → Semamore
semm_post preferred s =
    if s.value == s.max_val
    then sleep posts s
    else signal preferred (record s { value = s.value + 1; posted = s.posted + 1 })

-- A thread that starts a call, a woken one that takes the mutex again, and a wakeup without a
-- signal, which pthreads allow.
pub data Step (s : Semamore) : Semamore → Type 0 where
  call_wait : Step s (semm_wait s)
  call_post : (preferred : Op) → Step s (semm_post preferred s)
  resume_wait :
      0 < s.awake_waits → Step s (semm_wait (record s { awake_waits = s.awake_waits - 1 }))
  resume_post :
      (preferred : Op)
      → 0 < s.awake_posts
      → Step s (semm_post preferred (record s { awake_posts = s.awake_posts - 1 }))
  spurious_wait : 0 < s.asleep_waits → Step s (wake waits s)
  spurious_post : 0 < s.asleep_posts → Step s (wake posts s)

pub data Reach (s : Semamore) : Semamore → Type 0 where
  here : Reach s s
  next : {t u : Semamore} → Reach s t → Step t u → Reach s u

-- The value stays within the maximum, and is the start plus the posts less the waits.
pub record Inv (start max : ℕ) (s : Semamore) : Type 0 where
  pub same_max : s.max_val ≡ max
  pub within : s.value ≤ max
  pub ledger : s.value + s.taken ≡ start + s.posted

signal-Inv :
    (preferred : Op) (start max : ℕ) (s : Semamore)
    → Inv start max s
    → Inv start max (signal preferred s)
unfolding signal wake
signal-Inv waits start max s v = ground arith
signal-Inv posts start max s v = ground arith

semm_wait-Inv : (start max : ℕ) (s : Semamore) → Inv start max s → Inv start max (semm_wait s)
unfolding semm_wait sleep
semm_wait-Inv start max s v = ground arith

semm_post-Inv :
    (preferred : Op) (start max : ℕ) (s : Semamore)
    → Inv start max s
    → Inv start max (semm_post preferred s)
unfolding semm_post sleep
semm_post-Inv preferred start max s v = elim (Bool-cases (s.value == s.max_val)) [
  | inl full ↦ rw full (record { same_max = v.same_max; within = v.within; ledger = v.ledger })
  | inr room ↦ rw room (
      signal-Inv preferred start max (record s { value = s.value + 1; posted = s.posted + 1 })
        (record { same_max = v.same_max; within = ground arith; ledger = omega arith }))
]

Step-Inv : (start max : ℕ) {s t : Semamore} → Step s t → Inv start max s → Inv start max t
unfolding wake
Step-Inv start max {s} call_wait v = semm_wait-Inv start max s v
Step-Inv start max {s} (call_post preferred) v = semm_post-Inv preferred start max s v
Step-Inv start max {s} (resume_wait h) v =
    semm_wait-Inv start max _
      (record { same_max = v.same_max; within = v.within; ledger = v.ledger })
Step-Inv start max {s} (resume_post preferred h) v =
    semm_post-Inv preferred start max _
      (record { same_max = v.same_max; within = v.within; ledger = v.ledger })
Step-Inv start max (spurious_wait h) v = record {
  same_max = v.same_max;
  within = v.within;
  ledger = v.ledger;
}
Step-Inv start max (spurious_post h) v = record {
  same_max = v.same_max;
  within = v.within;
  ledger = v.ledger;
}

Reach-Inv : (start max : ℕ) {s t : Semamore} → Inv start max s → Reach s t → Inv start max t
Reach-Inv start max v here = v
Reach-Inv start max v (next r st) = Step-Inv start max st (Reach-Inv start max v r)

-- When the start value is at most the maximum, then after any interleaving of calls, wakeups and
-- spurious wakeups the value is at most the maximum, and is the start value plus the completed
-- posts less the completed waits.
pub semm_init-Inv :
    (start max : ℕ) {s : Semamore} → start ≤ max → Reach (semm_init start max) s → Inv start max s
unfolding semm_init
semm_init-Inv start max h r =
    Reach-Inv start max (record { same_max = refl; within = h; ledger = refl }) r

-- No call of semm_wait wakes a thread that sleeps in semm_post: it changes neither count.
semm_wait-keeps_posters :
    (s : Semamore)
    → ((semm_wait s).asleep_posts ≡ s.asleep_posts) × ((semm_wait s).awake_posts ≡ s.awake_posts)
unfolding semm_wait sleep
semm_wait-keeps_posters s = ground arith

unfoldable pub semm_waits : ℕ → Semamore → Semamore
semm_waits zero s = s
semm_waits (suc k) s = semm_waits k (semm_wait s)

semm_waits-Reach : (k : ℕ) {s t : Semamore} → Reach s t → Reach s (semm_waits k t)
unfolding semm_waits
semm_waits-Reach zero r = r
semm_waits-Reach (suc k) r = semm_waits-Reach k (next r call_wait)

semm_waits-keep :
    (k : ℕ) (s : Semamore)
    → k ≤ s.value
    → ((semm_waits k s).asleep_posts ≡ s.asleep_posts)
      × ((semm_waits k s).awake_posts ≡ s.awake_posts)
      × ((semm_waits k s).value ≡ s.value - k)
unfolding semm_waits
semm_waits-keep zero s h = (refl, refl, omega arith)
semm_waits-keep (suc k) s h =
    let pass : (semm_wait s).value ≡ s.value - 1 = unfold semm_wait in ground arith in
    let (same, same', left) = semm_waits-keep k (semm_wait s) (omega (arith, pass)) in
    let (kept, kept') = semm_wait-keeps_posters s in
    (same ∙ kept, same' ∙ kept', omega (arith, left, pass))

-- For every k up to the maximum, a state is reachable in which k waits have passed since a thread
-- that called semm_post on the full semaphore went to sleep, the value is below the maximum by k,
-- and the thread still sleeps, with no thread awake to post.
pub semm_post_lost_wakeup :
    (max k : ℕ)
    → k ≤ max
    → (s : Semamore) × Reach (semm_init max max) s
      × (s.asleep_posts ≡ 1)
      × (s.awake_posts ≡ 0)
      × (s.value ≡ max - k)
unfolding semm_init
semm_post_lost_wakeup max k h =
    let full = semm_init max max in
    let blocked = semm_post waits full in
    let slept : blocked ≡ sleep posts full = unfold semm_post in ground arith in
    let (same, same', left) = semm_waits-keep k blocked (unfold sleep in rw slept h) in
    (
      semm_waits k blocked,
      semm_waits-Reach k (next here (call_post waits)),
      same ∙ (unfold sleep in rw slept),
      same' ∙ (unfold sleep in rw slept),
      left ∙ (unfold sleep in rw slept),
    )
