-- ===== src/Scheduler/Runs.antt =====
-- savvy_scheduler/libscheduler.c over the calls of a simulation: every job is waiting, running or
-- done, and what print_stats prints.
use system_programming.Base.{
  ℕ, ◌≡◌, refl, ◌∙◌, List, [], ◌∷◌, ◌++◌, Bool, true, false, if◌then◌else◌, Option, none, some, map,
}
use system_programming.Scheduler.Comparers.{Doubles, Scheme, JobInfo, comparer}
use system_programming.Scheduler.Defs.{
  PriQueue, Scheduler, scheduler_start_up, scheduler_new_job, is_preemptive, dispatch, next_of,
  next_job, evict, requeue, keep_job, scheduler_quantum_expired, finish, scheduler_job_finished,
}
use system_programming.Scheduler.Quantum.{IsValid, order-IsOrder, requeue_waiting}
use mathlib.Core.List.{Perm, perm_middle}
use mathlib.Core.List.Perm

module _ (num : Doubles) (queues : PriQueue (JobInfo num)) where
  open num use {Double, zero_double, plus, minus, divide}
  open queues use {Queue, poll, contents, order}

  -- The calls that a simulation makes. The job that runs is passed to the last two.
  pub data Call : Type 0 where
    arrives : ℕ → Double → ℕ → Double → Call
    expires : Double → Call
    ends : Double → Call

  pub record Simulation : Type 0 where
    pub scheduler : Scheduler num queues
    pub running : Option (JobInfo num)
    -- The jobs that are done, the last one first.
    pub finished : List (JobInfo num)

  abbrev pub ended : Simulation → Double → Option (JobInfo num) → Simulation
  ended m time none = m
  ended m time (some j) = record {
    scheduler = scheduler_job_finished num queues m.scheduler j time;
    running = none;
    finished = finish num queues time j ∷ m.finished;
  }

  unfoldable pub step : Simulation → Call → Simulation
  step m (arrives id time priority runtime) = record m {
    scheduler = scheduler_new_job num queues m.scheduler id time priority runtime;
  }
  step m (expires time) =
      let r = scheduler_quantum_expired num queues m.scheduler m.running time in
      record m { scheduler = r.0; running = r.1 }
  step m (ends time) = ended m time m.running

  -- The calls, the last one first.
  unfoldable pub simulate : Scheme → List Call → Simulation
  simulate s [] = record {
    scheduler = scheduler_start_up num queues s;
    running = none;
    finished = [];
  }
  simulate s (c ∷ cs) = step (simulate s cs) c

  abbrev pub ids : List (JobInfo num) → List ℕ
  ids js = map (λ j. j.id) js

  abbrev pub id_of : Option (JobInfo num) → List ℕ
  id_of none = []
  id_of (some j) = j.id ∷ []

  -- The job numbers that wait or run, and those of all jobs.
  abbrev pub live : Scheduler num queues → Option (JobInfo num) → List ℕ
  live s o = id_of o ++ ids (contents s.pqueue)

  abbrev pub everyone : Simulation → List ℕ
  everyone m = live m.scheduler m.running ++ ids m.finished

  -- The job numbers of scheduler_new_job, the last one first.
  abbrev pub submitted_by : Call → List ℕ
  submitted_by (arrives id time priority runtime) = id ∷ []
  submitted_by (expires time) = []
  submitted_by (ends time) = []

  abbrev pub submitted : List Call → List ℕ
  submitted [] = []
  submitted (c ∷ cs) = submitted_by c ++ submitted cs

  next_job-live :
      (s : Scheduler num queues) (time : Double)
      → IsValid num queues s
      → let r = next_job num queues s time in
        Perm (live r.0 r.1) (ids (contents s.pqueue)) × IsValid num queues r.0
  unfolding next_job dispatch
  next_job-live s time valid = by_poll (poll s.pqueue) refl
    where
      by_poll :
          (p : Option (JobInfo num × Queue))
          → poll s.pqueue ≡ p
          → let r = next_of num queues s time p in
            Perm (live r.0 r.1) (ids (contents s.pqueue)) × IsValid num queues r.0
      by_poll none e = (Perm.rfl, valid)
      by_poll (some r) e = (
        Perm.symm (
            Perm.map (λ j. j.id)
              (queues.poll_removes s.pqueue r.0 r.1 (order-IsOrder num queues s valid) e)),
        queues.order_poll s.pqueue r.0 r.1 e ∙ valid,
      )

  requeue-live :
      (s : Scheduler num queues) (o : Option (JobInfo num)) (time : Double)
      → IsValid num queues s
      → Perm (ids (contents (requeue num queues s time o).pqueue)) (live s o)
        × IsValid num queues (requeue num queues s time o)
  unfolding evict
  requeue-live s none time valid = (Perm.rfl, valid)
  requeue-live s (some j) time valid = (
    Perm.symm (Perm.map (λ j. j.id) (requeue_waiting num queues s time j valid)),
    queues.order_offer (evict num queues time j) s.pqueue ∙ valid,
  )

  keep_job-live :
      (s : Scheduler num queues) (o : Option (JobInfo num)) (time : Double)
      → IsValid num queues s
      → let r = keep_job num queues s time o in
        Perm (live r.0 r.1) (live s o) × IsValid num queues r.0
  keep_job-live s none time valid = next_job-live s time valid
  keep_job-live s (some j) time valid = (Perm.rfl, valid)

  scheduler_quantum_expired-live :
      (s : Scheduler num queues) (o : Option (JobInfo num)) (time : Double)
      → IsValid num queues s
      → let r = scheduler_quantum_expired num queues s o time in
        Perm (live r.0 r.1) (live s o) × IsValid num queues r.0
  unfolding scheduler_quantum_expired
  scheduler_quantum_expired-live s o time valid =
      by_scheme (is_preemptive num queues s.pqueue_scheme)
    where
      by_scheme :
          (b : Bool)
          → let r =
              if b
              then next_job num queues (requeue num queues s time o) time
              else keep_job num queues s time o in
            Perm (live r.0 r.1) (live s o) × IsValid num queues r.0
      by_scheme true =
          let back = requeue-live s o time valid in
          let next = next_job-live (requeue num queues s time o) time back.1 in
          (Perm.trans next.0 back.0, next.1)
      by_scheme false = keep_job-live s o time valid

  new_job-live :
      (s : Scheduler num queues) (o : Option (JobInfo num)) (id : ℕ) (time : Double) (priority : ℕ)
      (runtime : Double)
      → IsValid num queues s
      → let t = scheduler_new_job num queues s id time priority runtime in
        Perm (live t o) (id ∷ live s o) × IsValid num queues t
  unfolding scheduler_new_job
  new_job-live s o id time priority runtime valid =
      let added =
        Perm.map (λ j. j.id) (queues.offer_adds _ s.pqueue (order-IsOrder num queues s valid)) in
      (
        Perm.trans (Perm.append_left (id_of o) added)
            (perm_middle (id_of o) (ids (contents s.pqueue))),
        queues.order_offer _ s.pqueue ∙ valid,
      )

  ended-Perm :
      (m : Simulation) (time : Double) (o : Option (JobInfo num))
      → m.running ≡ o
      → IsValid num queues m.scheduler
      → Perm (everyone (ended m time o)) (everyone m)
        × IsValid num queues (ended m time o).scheduler
  unfolding scheduler_job_finished finish
  ended-Perm m time none e valid = (Perm.rfl, valid)
  ended-Perm m time (some j) e valid =
      (rw e (perm_middle (ids (contents (m.scheduler).pqueue)) (ids m.finished)), valid)

  step-Perm :
      (m : Simulation) (c : Call)
      → IsValid num queues m.scheduler
      → Perm (everyone (step m c)) (submitted_by c ++ everyone m)
        × IsValid num queues (step m c).scheduler
  unfolding step
  step-Perm m (arrives id time priority runtime) valid =
      let new = new_job-live m.scheduler m.running id time priority runtime valid in
      (Perm.append_right (ids m.finished) new.0, new.1)
  step-Perm m (expires time) valid =
      let kept = scheduler_quantum_expired-live m.scheduler m.running time valid in
      (Perm.append_right (ids m.finished) kept.0, kept.1)
  step-Perm m (ends time) valid = ended-Perm m time m.running refl valid

  -- For every scheme and every sequence of new jobs, expired quanta and finished jobs, in which the
  -- job that the scheduler returned last is the one that runs: the numbers of the jobs that run,
  -- wait or are finished are those that were submitted, none lost and none twice; and the queue is
  -- in the order of the scheme.
  pub simulate-Perm :
      (s : Scheme) (calls : List Call)
      → let m = simulate s calls in
        Perm (everyone m) (submitted calls) × IsValid num queues m.scheduler
  unfolding simulate scheduler_start_up
  simulate-Perm s [] =
      (rw (queues.contents_init (comparer num s)) Perm.rfl, queues.order_init (comparer num s))
  simulate-Perm s (c ∷ cs) =
      let before = simulate-Perm s cs in
      let now = step-Perm (simulate s cs) c before.1 in
      (Perm.trans now.0 (Perm.append_left (submitted_by c) before.0), now.1)
