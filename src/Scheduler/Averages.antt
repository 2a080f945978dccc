-- ===== src/Scheduler/Averages.antt =====
-- print_stats of savvy_scheduler/libscheduler.c after the calls of a simulation.
use system_programming.Base.{
  ℕ, suc, ◌≡◌, refl, ap, ◌∙◌, List, [], ◌∷◌, length, Bool, true, false, if◌then◌else◌, Option, none,
  some,
}
use system_programming.Scheduler.Comparers.{Doubles, Scheme, JobInfo}
use system_programming.Scheduler.Defs.{
  scheduler_average_response_time, scheduler_average_waiting_time,
  scheduler_average_turnaround_time, PriQueue, Scheduler, scheduler_start_up, scheduler_new_job,
  is_preemptive, next_of, next_job, requeue, keep_job, scheduler_quantum_expired, finish,
  scheduler_job_finished, print_stats,
}
use system_programming.Scheduler.Runs.{
  Call, Simulation, ended, step, simulate, arrives, expires, ends,
}

module _ (num : Doubles) (queues : PriQueue (JobInfo num)) where
  open num use {Double, zero_double, plus, minus, divide}
  open queues use {Queue, poll, contents, order}

  -- The sum of a time over the jobs, first job first.
  abbrev pub sum_of : (JobInfo num → Double) → List (JobInfo num) → Double
  sum_of f [] = zero_double
  sum_of f (j ∷ js) = plus (sum_of f js) (f j)

  abbrev pub turnaround : JobInfo num → Double
  turnaround j = minus j.end_time j.arrival_time

  abbrev pub waiting : JobInfo num → Double
  waiting j = minus (turnaround j) j.runtime

  abbrev pub response : JobInfo num → Double
  response j = minus j.start_time j.arrival_time

  -- The counters of the scheduler, and what they have to be for the jobs that are done.
  abbrev pub totals : Scheduler num queues → ℕ × Double × Double × Double
  totals s = (s.job_count, s.total_turnaround_time, s.total_wait_time, s.total_response_time)

  abbrev pub sums : List (JobInfo num) → ℕ × Double × Double × Double
  sums js = (length js, sum_of turnaround js, sum_of waiting js, sum_of response js)

  next_of-totals :
      (s : Scheduler num queues) (time : Double) (p : Option (JobInfo num × Queue))
      → totals (next_of num queues s time p).0 ≡ totals s
  next_of-totals s time none = refl
  next_of-totals s time (some r) = refl

  requeue-totals :
      (s : Scheduler num queues) (time : Double) (o : Option (JobInfo num))
      → totals (requeue num queues s time o) ≡ totals s
  requeue-totals s time none = refl
  requeue-totals s time (some j) = refl

  scheduler_quantum_expired-totals :
      (s : Scheduler num queues) (o : Option (JobInfo num)) (time : Double)
      → totals (scheduler_quantum_expired num queues s o time).0 ≡ totals s
  unfolding scheduler_quantum_expired next_job
  scheduler_quantum_expired-totals s o time = by_scheme (is_preemptive num queues s.pqueue_scheme) o
    where
      by_scheme :
          (b : Bool) (o : Option (JobInfo num))
          → totals
              (if b
                then next_job num queues (requeue num queues s time o) time
                else keep_job num queues s time o).0
            ≡ totals s
      by_scheme true o = next_of-totals _ time _ ∙ requeue-totals s time o
      by_scheme false none = next_of-totals s time _
      by_scheme false (some j) = refl

  ended-totals :
      (m : Simulation num queues) (time : Double) (o : Option (JobInfo num))
      → totals m.scheduler ≡ sums m.finished
      → totals (ended num queues m time o).scheduler ≡ sums (ended num queues m time o).finished
  unfolding scheduler_job_finished
  ended-totals m time none e = e
  ended-totals m time (some j) e =
      let done_job = finish num queues time j in
      ap
        (λ t. (
          suc t.0,
          plus t.1 (turnaround done_job),
          plus t.2 (waiting done_job),
          plus t.3 (response done_job),
        ))
        e

  simulate-totals :
      (s : Scheme) (calls : List (Call num queues))
      → totals (simulate num queues s calls).scheduler ≡ sums (simulate num queues s calls).finished
  unfolding simulate scheduler_start_up step scheduler_new_job
  simulate-totals s [] = refl
  simulate-totals s (arrives id time priority runtime ∷ cs) = simulate-totals s cs
  simulate-totals s (expires time ∷ cs) =
      scheduler_quantum_expired-totals (simulate num queues s cs).scheduler
        (simulate num queues s cs).running time
      ∙ simulate-totals s cs
  simulate-totals s (ends time ∷ cs) =
      ended-totals (simulate num queues s cs) time (simulate num queues s cs).running
        (simulate-totals s cs)

  -- For every scheme and every sequence of new jobs, expired quanta and finished jobs, the times
  -- that print_stats prints are the sums, over the finished jobs in the order in which they
  -- finished, of end less arrival, of that less the running time, and of start less arrival, each
  -- divided by the number of finished jobs.
  pub simulate-print_stats :
      (s : Scheme) (calls : List (Call num queues))
      → let m = simulate num queues s calls in
        let count = length m.finished in
        print_stats num queues m.scheduler ≡ (
          divide (sum_of turnaround m.finished) count,
          divide (sum_of waiting m.finished) count,
          divide (sum_of response m.finished) count,
        )
  unfolding print_stats scheduler_average_turnaround_time scheduler_average_waiting_time
      scheduler_average_response_time
  simulate-print_stats s calls =
      ap (λ t. (divide t.1 t.0, divide t.2 t.0, divide t.3 t.0)) (simulate-totals s calls)
