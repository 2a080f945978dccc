-- ===== src/Scheduler/Quantum.antt =====
-- scheduler_quantum_expired of savvy_scheduler/libscheduler.c: which job runs next.
use system_programming.Base.{
  ◌≡◌, ◌≢◌, refl, subst, ◌∙◌, List, [], ◌∷◌, Bool, true, false, if◌then◌else◌, Option, none, some,
}
use system_programming.Scheduler.Comparers.{
  Doubles, Scheme, above, IsOrder, JobInfo, comparer, comparer-IsOrder,
}
use system_programming.Scheduler.Defs.{
  PriQueue, Scheduler, is_preemptive, dispatch, next_of, next_job, evict, requeue, keep_job,
  scheduler_quantum_expired,
}
use mathlib.Core.List.{Mem, Perm}
use mathlib.Core.List.Perm

module _ (num : Doubles) (queues : PriQueue (JobInfo num)) where
  open num use {Double}
  open queues use {Queue, poll, contents, order}

  -- The queue is in the order of the scheme.
  abbrev pub IsValid : Scheduler num queues → Type 0
  IsValid s = order s.pqueue ≡ comparer num s.pqueue_scheme

  pub order-IsOrder : (s : Scheduler num queues) → IsValid s → IsOrder (order s.pqueue)
  order-IsOrder s valid = rw valid (comparer-IsOrder num s.pqueue_scheme)

  -- Of the jobs `waiting`, one that the scheme puts first is dispatched and the others stay; none
  -- runs only where none waited.
  abbrev pub Picks :
      Double → Scheme → List (JobInfo num) → Scheduler num queues → Option (JobInfo num) → Type 0
  Picks time scheme waiting t none = waiting ≡ []
  Picks time scheme waiting t (some j) =
      (k : JobInfo num) × (j ≡ dispatch num queues time k)
      × Perm waiting (k ∷ contents t.pqueue)
      × ((m : JobInfo num) → Mem m waiting → comparer num scheme k m ≢ above)

  abbrev pub Answers :
      Bool
      → Scheduler num queues
      → Option (JobInfo num)
      → Double
      → Scheduler num queues × Option (JobInfo num)
      → Type 0
  Answers true s none time r = Picks time s.pqueue_scheme (contents s.pqueue) r.0 r.1
  Answers true s (some j) time r =
      Picks time s.pqueue_scheme (evict num queues time j ∷ contents s.pqueue) r.0 r.1
  Answers false s none time r = Picks time s.pqueue_scheme (contents s.pqueue) r.0 r.1
  Answers false s (some j) time r = r ≡ (s, some j)

  pub next_job-Picks :
      (s : Scheduler num queues) (time : Double)
      → IsValid s
      → let r = next_job num queues s time in
        Picks time s.pqueue_scheme (contents s.pqueue) r.0 r.1
        × IsValid r.0
        × (r.0.pqueue_scheme ≡ s.pqueue_scheme)
  unfolding next_job
  next_job-Picks s time valid = by_poll (poll s.pqueue) refl
    where
      ordered : IsOrder (order s.pqueue)
      ordered = order-IsOrder s valid

      by_poll :
          (p : Option (JobInfo num × Queue))
          → poll s.pqueue ≡ p
          → let r = next_of num queues s time p in
            Picks time s.pqueue_scheme (contents s.pqueue) r.0 r.1
            × IsValid r.0
            × (r.0.pqueue_scheme ≡ s.pqueue_scheme)
      by_poll none e = (queues.poll_none s.pqueue ordered e, valid, refl)
      by_poll (some r) e = (
        (
          r.0,
          refl,
          queues.poll_removes s.pqueue r.0 r.1 ordered e,
          subst (λ cmp. (m : JobInfo num) → Mem m (contents s.pqueue) → cmp r.0 m ≢ above) valid
              (queues.poll_least s.pqueue r.0 r.1 ordered e),
        ),
        queues.order_poll s.pqueue r.0 r.1 e ∙ valid,
        refl,
      )

  pub requeue_waiting :
      (s : Scheduler num queues) (time : Double) (j : JobInfo num)
      → IsValid s
      → Perm
          (evict num queues time j ∷ contents s.pqueue)
          (contents (requeue num queues s time (some j)).pqueue)
  requeue_waiting s time j valid =
      Perm.symm (queues.offer_adds (evict num queues time j) s.pqueue (order-IsOrder s valid))

  -- The jobs can be listed in any order.
  Picks-Perm :
      (time : Double) (scheme : Scheme) {l r : List (JobInfo num)} (t : Scheduler num queues)
      (o : Option (JobInfo num))
      → Perm l r
      → Picks time scheme r t o
      → Picks time scheme l t o
  Picks-Perm time scheme {l} t none p e = Perm.eq-nil (subst (λ x. Perm l x) e p)
  Picks-Perm time scheme t (some j) p picks =
      (picks.0, picks.1, Perm.trans p picks.2, λ m here. picks.3 m ((Perm.mem_iff p).0 here))

  -- On a scheduler whose queue is in the order of its scheme: with a preemptive scheme, or when no
  -- job ran, scheduler_quantum_expired dispatches a job that the comparer puts after no other, of
  -- the waiting jobs and the evicted one with the time that it used added, leaves the others in the
  -- queue, and returns none only when there was none; with another scheme a job that runs is
  -- returned, and nothing changes.
  pub scheduler_quantum_expired-Answers :
      (s : Scheduler num queues) (job_evicted : Option (JobInfo num)) (time : Double)
      → IsValid s
      → Answers
          (is_preemptive num queues s.pqueue_scheme)
          s
          job_evicted
          time
          (scheduler_quantum_expired num queues s job_evicted time)
  unfolding scheduler_quantum_expired
  scheduler_quantum_expired-Answers s job_evicted time valid =
      by_scheme (is_preemptive num queues s.pqueue_scheme) job_evicted
    where
      by_scheme :
          (b : Bool) (o : Option (JobInfo num))
          → Answers b s o time (
              if b
              then next_job num queues (requeue num queues s time o) time
              else keep_job num queues s time o)
      by_scheme true none = (next_job-Picks s time valid).0
      by_scheme true (some j) =
          let t = requeue num queues s time (some j) in
          let ordered : IsValid t = queues.order_offer (evict num queues time j) s.pqueue ∙ valid in
          let r = next_job num queues t time in
          Picks-Perm time s.pqueue_scheme r.0 r.1 (requeue_waiting s time j valid)
            (next_job-Picks t time ordered).0
      by_scheme false none = (next_job-Picks s time valid).0
      by_scheme false (some j) = refl
