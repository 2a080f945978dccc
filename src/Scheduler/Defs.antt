-- ===== src/Scheduler/Defs.antt =====
-- savvy_scheduler/libscheduler.c. The queue of libpriqueue.h is a parameter; malloc succeeds. Its
-- global variables are the record Scheduler, and a job is what its metadata holds.
use system_programming.Base.{
  true, false, ℕ, suc, ◌≡◌, ◌≢◌, List, [], ◌∷◌, Bool, if◌then◌else◌, Option, none, some,
}
use system_programming.Scheduler.Comparers.{
  Doubles, Scheme, fcfs, pri, ppri, psrtf, rr, sjf, Sign, above, IsOrder, JobInfo, comparer,
}
use mathlib.Core.List.{Mem, Perm}

pub record PriQueue (Job : Type 0) : Type 1 where
  pub Queue : Type 0
  pub init : (Job → Job → Sign) → Queue
  pub offer : Job → Queue → Queue
  pub poll : Queue → Option (Job × Queue)
  -- The elements and the comparer of a queue.
  pub contents : Queue → List Job
  pub order : Queue → Job → Job → Sign
  pub contents_init : (cmp : Job → Job → Sign) → contents (init cmp) ≡ []
  pub order_init : (cmp : Job → Job → Sign) → order (init cmp) ≡ cmp
  pub order_offer : (j : Job) (q : Queue) → order (offer j q) ≡ order q
  pub order_poll : (q : Queue) (j : Job) (r : Queue) → poll q ≡ some (j, r) → order r ≡ order q
  -- For a comparer that is an order, poll removes a least element, or there is none.
  pub offer_adds :
      (j : Job) (q : Queue) → IsOrder (order q) → Perm (contents (offer j q)) (j ∷ contents q)
  pub poll_none : (q : Queue) → IsOrder (order q) → poll q ≡ none → contents q ≡ []
  pub poll_removes :
      (q : Queue) (j : Job) (r : Queue)
      → IsOrder (order q)
      → poll q ≡ some (j, r)
      → Perm (contents q) (j ∷ contents r)
  pub poll_least :
      (q : Queue) (j : Job) (r : Queue)
      → IsOrder (order q)
      → poll q ≡ some (j, r)
      → (k : Job) → Mem k (contents q)
      → order q j k ≢ above

module _ (num : Doubles) (queues : PriQueue (JobInfo num)) where
  open num use {Double, zero_double, plus, minus, divide, is_zero}
  open queues use {Queue, init, offer, poll}

  pub record Scheduler : Type 0 where
    pub pqueue : Queue
    pub pqueue_scheme : Scheme
    pub job_count : ℕ
    pub total_wait_time : Double
    pub total_turnaround_time : Double
    pub total_response_time : Double

  unfoldable pub scheduler_start_up : Scheme → Scheduler
  scheduler_start_up s = record {
    pqueue = init (comparer num s);
    pqueue_scheme = s;
    job_count = 0;
    total_wait_time = zero_double;
    total_turnaround_time = zero_double;
    total_response_time = zero_double;
  }

  unfoldable pub scheduler_new_job : Scheduler → ℕ → Double → ℕ → Double → Scheduler
  scheduler_new_job s job_number time priority running_time =
      let newjob : JobInfo num = record {
        id = job_number;
        priority = priority;
        runtime = running_time;
        arrival_time = time;
        start_time = zero_double;
        end_time = zero_double;
        rr_time = zero_double;
        used_time = zero_double;
      } in
      record s { pqueue = offer newjob s.pqueue }

  -- case PPRI, case PSRTF and case RR; the others are the default.
  abbrev pub is_preemptive : Scheme → Bool
  is_preemptive fcfs = false
  is_preemptive pri = false
  is_preemptive ppri = true
  is_preemptive psrtf = true
  is_preemptive rr = true
  is_preemptive sjf = false

  -- The times of the job that runs next.
  unfoldable pub dispatch : Double → JobInfo num → JobInfo num
  dispatch time j = record j {
    start_time = if is_zero j.used_time then time else j.start_time;
    rr_time = time;
  }

  -- priqueue_poll, and the job that runs next.
  abbrev pub next_of :
      Scheduler → Double → Option (JobInfo num × Queue) → Scheduler × Option (JobInfo num)
  next_of s time none = (s, none)
  next_of s time (some r) = (record s { pqueue = r.1 }, some (dispatch time r.0))

  unfoldable pub next_job : Scheduler → Double → Scheduler × Option (JobInfo num)
  next_job s time = next_of s time (poll s.pqueue)

  -- What an evicted job has used.
  unfoldable pub evict : Double → JobInfo num → JobInfo num
  evict time j = record j { used_time = plus j.used_time (minus time j.rr_time) }

  abbrev pub requeue : Scheduler → Double → Option (JobInfo num) → Scheduler
  requeue s time none = s
  requeue s time (some j) = record s { pqueue = offer (evict time j) s.pqueue }

  abbrev pub keep_job : Scheduler → Double → Option (JobInfo num) → Scheduler × Option (JobInfo num)
  keep_job s time none = next_job s time
  keep_job s time (some j) = (s, some j)

  unfoldable pub scheduler_quantum_expired :
      Scheduler → Option (JobInfo num) → Double → Scheduler × Option (JobInfo num)
  scheduler_quantum_expired s job_evicted time =
      if is_preemptive s.pqueue_scheme
      then next_job (requeue s time job_evicted) time
      else keep_job s time job_evicted

  -- The metadata of a job that is done, as it is when it is freed.
  unfoldable pub finish : Double → JobInfo num → JobInfo num
  finish time j = record j { end_time = time; used_time = plus j.used_time (minus time j.rr_time) }

  unfoldable pub scheduler_job_finished : Scheduler → JobInfo num → Double → Scheduler
  scheduler_job_finished s job_done time =
      let info = finish time job_done in
      record s {
        total_response_time = plus s.total_response_time (minus info.start_time info.arrival_time);
        total_turnaround_time =
            plus s.total_turnaround_time (minus info.end_time info.arrival_time);
        total_wait_time =
            plus s.total_wait_time (minus (minus info.end_time info.arrival_time) info.runtime);
        job_count = suc s.job_count;
      }

  unfoldable pub scheduler_average_waiting_time : Scheduler → Double
  scheduler_average_waiting_time s = divide s.total_wait_time s.job_count

  unfoldable pub scheduler_average_turnaround_time : Scheduler → Double
  scheduler_average_turnaround_time s = divide s.total_turnaround_time s.job_count

  unfoldable pub scheduler_average_response_time : Scheduler → Double
  scheduler_average_response_time s = divide s.total_response_time s.job_count

  -- The turnaround, waiting and response time that print_stats prints.
  unfoldable pub print_stats : Scheduler → Double × Double × Double
  print_stats s = (
    scheduler_average_turnaround_time s,
    scheduler_average_waiting_time s,
    scheduler_average_response_time s,
  )
