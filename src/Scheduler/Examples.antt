-- ===== src/Scheduler/Examples.antt =====
-- savvy_scheduler/libscheduler.c on two jobs, the shorter of which comes second.
use system_programming.Base.{true, ◌≡◌, refl, List, [], ◌∷◌, some}
use system_programming.Scheduler.Comparers.{
  comparer_psrtf, psrtf, IsOrder, JobInfo, comparer, comparer_psrtf, first_of, break_tie,
  comparer_fcfs, comparer-IsOrder,
}
use system_programming.Scheduler.Defs.{
  finish, scheduler_job_finished, evict, dispatch, next_job, scheduler_new_job, scheduler_start_up,
  PriQueue, Scheduler, scheduler_quantum_expired, print_stats, scheduler_start_up,
  scheduler_new_job, next_job, dispatch, evict, scheduler_job_finished, finish,
}
use system_programming.Scheduler.Quantum.{scheduler_quantum_expired-Answers, Answers}
use system_programming.Scheduler.Runs.{
  step, Call, arrives, expires, ends, simulate, step, everyone, simulate-Perm,
}
use system_programming.Scheduler.Averages.{simulate-print_stats}
use system_programming.Scheduler.Selection.{select, selection, seconds}
use mathlib.Core.List.{Perm}

abbrev queues : PriQueue (JobInfo seconds)
queues = selection (JobInfo seconds)

comparer-IsOrder_example : IsOrder (comparer seconds psrtf)
comparer-IsOrder_example = comparer-IsOrder seconds psrtf

-- Job 7 needs 9 seconds and starts at 1; job 8 comes at 2, needs 1 and is done at 4; job 7 goes on.
abbrev calls : List (Call seconds queues)
calls =
    ends 13
    ∷ (expires 4
        ∷ (ends 4 ∷ (expires 3 ∷ (arrives 8 2 0 1 ∷ (expires 1 ∷ (arrives 7 1 0 9 ∷ []))))))

simulate-Perm_example :
    Perm (everyone seconds queues (simulate seconds queues psrtf calls)) (8 ∷ (7 ∷ []))
simulate-Perm_example = (simulate-Perm seconds queues psrtf calls).0

simulate-print_stats_example :
    print_stats seconds queues (simulate seconds queues psrtf calls).scheduler ≡ (7, 2, 0)
unfolding simulate step scheduler_start_up scheduler_new_job scheduler_quantum_expired next_job
    select dispatch evict scheduler_job_finished finish comparer comparer_psrtf first_of break_tie
    comparer_fcfs
simulate-print_stats_example = simulate-print_stats seconds queues psrtf calls

-- Job 7, evicted at 3 with 7 seconds to go, and job 8 with 1.
abbrev one_waits : Scheduler seconds queues
one_waits =
    (simulate seconds queues psrtf
      (arrives 8 2 0 1 ∷ (expires 1 ∷ (arrives 7 1 0 9 ∷ [])))).scheduler

abbrev job_seven : JobInfo seconds
job_seven = record {
  id = 7;
  priority = 0;
  runtime = 9;
  arrival_time = 1;
  start_time = 1;
  end_time = 0;
  rr_time = 1;
  used_time = 0;
}

scheduler_quantum_expired-Answers_example :
    Answers seconds queues true one_waits
      (some job_seven)
      3
      (scheduler_quantum_expired seconds queues one_waits (some job_seven) 3)
unfolding simulate comparer step scheduler_new_job scheduler_quantum_expired scheduler_start_up
    next_job select
scheduler_quantum_expired-Answers_example =
    scheduler_quantum_expired-Answers seconds queues one_waits (some job_seven) 3 refl
