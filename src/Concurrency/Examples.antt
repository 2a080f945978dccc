-- ===== src/Concurrency/Examples.antt =====
-- The theorems on critical_concurrency at concrete runs.
use system_programming.Base.{
  ℕ, List, [], ◌∷◌, ◌++◌, none, c_string, ◌+◌, ◌-◌, ◌*◌, ◌<◌, ◌≤◌, ◌≡◌, ◌⊎◌, refl, some, arith,
}
use system_programming.Concurrency.Barrier.{
  Barrier, barrier_init, arrive, pass, leave, arrives, passes, barrier_rounds,
}
use system_programming.Concurrency.Semamore.{
  Semamore, waits, semm_init, semm_wait, semm_post, call_wait, call_post, semm_init-Inv,
  semm_post_lost_wakeup,
}
use system_programming.Concurrency.Queue.Defs.{
  Queue, queue_create, queue_push, queue_pull, push_node, link, wake_all, Reach, here, next_step,
  call_push, call_pull,
}
use system_programming.Concurrency.Queue.Fifo.{Linked}
use system_programming.Concurrency.Queue.Waiting.{queue_fifo, queue_no_lost_wakeup}
use system_programming.Concurrency.Rendezvous.{
  Rendezvous, Quote, begin, decoded, post_a, post_b, print_b, decode_a, rendezvous_lem,
  PrintsDecoded, GoesOn,
}
use system_programming.Concurrency.Barrier
use system_programming.Concurrency.Rendezvous
use system_programming.Concurrency.Semamore

-- Two threads: both arrive, and the first passes.
abbrev one_inside : Barrier
one_inside = record { count = 1; n_threads = 2; times_used = 0; gate = 1; inside = 1; left = 0 }

first_passes : pass (arrive (arrive (barrier_init 2))) ≡ some one_inside
unfolding pass arrive barrier_init
first_passes = refl

some_at_gate : 0 < (arrive (arrive (barrier_init 2))).gate
unfolding arrive barrier_init
some_at_gate = omega arith

one_inside-Reach : Barrier.Reach (barrier_init 2) one_inside
one_inside-Reach =
    Barrier.next (Barrier.next (Barrier.next Barrier.here arrives) arrives)
      (passes some_at_gate first_passes)

barrier_rounds_example :
    (one_inside.left ≤ 2 * one_inside.times_used)
    × (2 * one_inside.times_used ≤ one_inside.left + one_inside.inside)
    × (one_inside.left + one_inside.inside < 2 * one_inside.times_used + 2)
barrier_rounds_example = barrier_rounds 2 (omega arith) (omega arith) one_inside-Reach

semm_init-Inv_example : Semamore.Inv 1 2 (semm_post waits (semm_wait (semm_init 1 2)))
semm_init-Inv_example =
    semm_init-Inv 1 2 (omega arith)
      (Semamore.next (Semamore.next Semamore.here call_wait) (call_post waits))

semm_post_lost_wakeup_example :
    (s : Semamore) × Semamore.Reach (semm_init 3 3) s
    × (s.asleep_posts ≡ 1)
    × (s.awake_posts ≡ 0)
    × (s.value ≡ 3 - 2)
semm_post_lost_wakeup_example = semm_post_lost_wakeup 3 2 (omega arith)

-- A puller waits on an empty queue, then 7 is pushed.
abbrev after_push : Queue ℕ
after_push = record {
  heap = some (record { item = 7; next = none }) ∷ [];
  head = some 0;
  tail = some 0;
  size = 1;
  max_size = 2;
  asleep_pushes = 0;
  asleep_pulls = 0;
  awake_pushes = 0;
  awake_pulls = 1;
  pushed = 7 ∷ [];
  pulled = [];
}

abbrev puller_waits : Queue ℕ
puller_waits = record {
  heap = [];
  head = none;
  tail = none;
  size = 0;
  max_size = 2;
  asleep_pushes = 0;
  asleep_pulls = 1;
  awake_pushes = 0;
  awake_pulls = 0;
  pushed = [];
  pulled = [];
}

first_pull : queue_pull (queue_create 2) ≡ some puller_waits
unfolding queue_pull queue_create
first_pull = refl

first_push : queue_push 7 puller_waits ≡ some after_push
unfolding queue_push push_node link wake_all
first_push = refl

after_push-Reach : Reach (queue_create 2) after_push
after_push-Reach = next_step (next_step here (call_pull first_pull)) (call_push 7 first_push)

queue_fifo_example :
    (items : List ℕ) × Linked after_push items
    × (after_push.pulled ++ items ≡ after_push.pushed)
    × ((◌≡◌ {A = ℕ} 2 0) ⊎ (after_push.size ≤ 2))
queue_fifo_example = queue_fifo 2 after_push after_push-Reach

queue_no_lost_wakeup_example :
    ((after_push.asleep_pulls ≡ 0) ⊎ (after_push.size ≡ 0))
    × ((after_push.asleep_pushes ≡ 0) ⊎ ((0 < 2) × (after_push.size ≡ 2)))
queue_no_lost_wakeup_example = queue_no_lost_wakeup 2 after_push after_push-Reach

-- A quote of one byte and an empty one: the first thread decodes and posts, the second posts, and the
-- first prints.
abbrev one_printed : Rendezvous
one_printed = record {
  quote_a = record { before = 73 ∷ []; left = [] };
  quote_b = record { before = []; left = [] };
  s1 = 1;
  s2 = 0;
  first = Rendezvous.ended;
  second = Rendezvous.waits;
  printed_a = none;
  printed_b = some [];
}

one_printed-Reach : Rendezvous.Reach (74 ∷ []) [] one_printed
unfolding begin decoded c_string
one_printed-Reach =
    Rendezvous.goes_on
      (Rendezvous.goes_on
        (Rendezvous.goes_on (Rendezvous.goes_on Rendezvous.begins (decode_a 74 [] refl refl))
          (post_a refl refl))
        (post_b refl refl))
      (print_b 0 refl refl)

rendezvous_lem_example :
    PrintsDecoded (74 ∷ []) one_printed.printed_a
    × PrintsDecoded [] one_printed.printed_b
    × GoesOn one_printed
rendezvous_lem_example = rendezvous_lem (74 ∷ []) [] one_printed one_printed-Reach
