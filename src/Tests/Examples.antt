-- ===== src/Tests/Examples.antt =====
-- qmanager: each theorem at a concrete input, most of them in a backfill loop over two jobs.
use flux_sched.Common.{
  ℕ, List, ◌≡◌, ◌≢◌, refl, true, false, Bool, none, some, [], ◌∷◌, inr, ◌<◌, ◌⊎◌, ◌+◌, ◌%◌, ◌^◌,
  arith,
}
use flux_sched.OrdMap.{find, nat_key, add, next}
use flux_sched.OrdMap.Iterate.{after}
use flux_sched.Queue.Job.{Job, JobState, PendingKey, is_pending, pending_key, calc_priority}
use flux_sched.Queue.State.{Queue, Reapi, ok, err, Errno, failed}
use flux_sched.Queue.Pending.{
  missing, erase_pending_job, insert_job, lookup, process_provisional_reconsider,
}
use flux_sched.Queue.Provisional.{
  process_provisional_cancel, process_provisional_reprio, reprio_entry,
}
use flux_sched.Queue.Remove.{remove}
use flux_sched.Queue.Running.{to_running, to_rejected}
use flux_sched.Queue.Invariant.{Erases, erase_pending_job-Erases}
use flux_sched.Queue.Invariant.Remove.{IsSound}
use flux_sched.Queue.Invariant.{IsValid}
use flux_sched.Queue.Transitions.{
  Starts, Rejects, to_running-Starts, to_rejected-Rejects, insert_job-Enters,
  process_provisional_reconsider-merges,
}
use flux_sched.Queue.Stuck.{process_provisional_cancel-stuck}
use flux_sched.Queue.Behaviour.{calc_priority_antitone, remove-lookup}
use flux_sched.Policy.Fcfs.{Match, start_match}
use flux_sched.Policy.Backfill.{
  next_match_iter, handle_match_success_bf, handle_match_failure_bf, run_sched_loop_bf,
}
use flux_sched.Policy.Outcome.{next_match_iter-failed, start_match-failed}
use flux_sched.Policy.Dispatch.{Answer, success}
use flux_sched.Calls.{Call, perform}
use flux_sched.Calls.Iterator.{IsIterating}
use flux_sched.Calls.Invariant.{Reachable-IsSound, perform-IsSound}
use flux_sched.Calls.Callers.{perform-IsIterating}
use flux_sched.Calls.Stability.{Stable, perform-Stable, is_outside}
use flux_sched.Calls.Safety.{
  NoFault, handle_match_success_bf-NoFault, handle_match_failure_bf-NoFault,
  run_sched_loop_bf-NoFault,
}
use flux_sched.Calls.Progress.{
  Leaves, handle_match_success_bf-Leaves, handle_match_failure_bf-Leaves,
}
use flux_sched.Tests.{
  willing, empty_queue, empty_queue-IsSound, two_jobs, two_jobs-IsSound, two_jobs-IsIterating,
  two_jobs_class, looping, looping-IsSound, looping_reached, looping_bf, looping_class,
  looping_active, looping_key, looping_entry, key8, easy_bf, job, room3,
}

Reachable-IsSound_example : IsSound looping
Reachable-IsSound_example =
    Reachable-IsSound willing empty_queue empty_queue-IsSound looping looping_reached

answers :
    (orelse_reserve : Bool) (ids : List ℕ)
    → willing.match_allocate_multi orelse_reserve ids ≢ err Errno.fault
answers orelse_reserve ids h = cc

looping-IsIterating : IsIterating looping
looping-IsIterating =
    perform-IsIterating willing two_jobs easy_bf two_jobs_class two_jobs-IsSound
      two_jobs-IsIterating Call.run (λ e. cc)

run_is_no_pop : Call.run ≢ Call.pop_pending
run_is_no_pop e = cc

perform-IsIterating_example : IsIterating (perform willing Call.run two_jobs)
perform-IsIterating_example =
    perform-IsIterating willing two_jobs easy_bf two_jobs_class two_jobs-IsSound
      two_jobs-IsIterating Call.run run_is_no_pop

-- The answer for job 8.
abbrev match8 : Match
match8 = record { jobid = 8; status = "ALLOCATED"; r = "{}"; at = 0; ov = 0 }

handle_match_success_bf-NoFault_example :
    NoFault (handle_match_success_bf willing match8 looping_bf looping)
handle_match_success_bf-NoFault_example =
    handle_match_success_bf-NoFault willing answers match8 looping_bf looping looping-IsSound
      looping-IsIterating looping_class room3.rq_lt

handle_match_failure_bf-NoFault_example :
    NoFault (handle_match_failure_bf willing Errno.ebusy looping_bf looping)
handle_match_failure_bf-NoFault_example =
    handle_match_failure_bf-NoFault willing answers Errno.ebusy looping_bf looping looping-IsSound
      looping-IsIterating looping_class room3.dq_lt

run_sched_loop_bf-NoFault_example : NoFault (run_sched_loop_bf willing easy_bf two_jobs)
run_sched_loop_bf-NoFault_example =
    run_sched_loop_bf-NoFault willing answers easy_bf two_jobs two_jobs-IsSound

handle_match_success_bf-Leaves_example :
    Leaves (after key8 looping.pending) (handle_match_success_bf willing match8 looping_bf looping)
handle_match_success_bf-Leaves_example =
    handle_match_success_bf-Leaves willing looping looping-IsSound looping_bf looping_active key8 8
      looping_key looping_entry match8 refl

handle_match_failure_bf-Leaves_example :
    Leaves
      (after key8 looping.pending)
      (handle_match_failure_bf willing Errno.enodev looping_bf looping)
handle_match_failure_bf-Leaves_example =
    handle_match_failure_bf-Leaves willing looping looping-IsSound looping_bf looping_active key8 8
      looping_key looping_entry Errno.enodev refl

perform-Stable_example : Stable looping (perform willing (Call.cancel 7) looping)
unfolding is_outside
perform-Stable_example = perform-Stable willing (Call.cancel 7) looping refl looping_active

abbrev pending8 : Job
pending8 = record (job 8 1) {
  state = JobState.pending;
  t_stamps = record ((job 8 1).t_stamps) { pending_ts = 1 };
}

found8 : find 8 looping.jobs ≡ some pending8
unfolding perform add
found8 = refl

erase_pending_job-Erases_example :
    Erases key8 looping (erase_pending_job key8 looping).0
    × ((erase_pending_job key8 looping).1 ≢ missing)
unfolding is_pending
erase_pending_job-Erases_example =
    erase_pending_job-Erases looping-IsSound.valid 8 pending8 found8 refl

to_running-Starts_example :
    Starts key8 pending8 looping (to_running key8 true looping).0
    × ((to_running key8 true looping).1 ≡ next key8 looping.pending)
to_running-Starts_example =
    to_running-Starts looping looping-IsSound.counted key8 pending8 looping_entry found8

to_rejected-Rejects_example :
    Rejects key8 "unsatisfiable" pending8 looping (to_rejected key8 "unsatisfiable" looping).0
    × ((to_rejected key8 "unsatisfiable" looping).1 ≡ next key8 looping.pending)
to_rejected-Rejects_example =
    to_rejected-Rejects looping looping-IsSound.counted key8 pending8 looping_entry found8
      "unsatisfiable"

-- Job 8 could not be reserved, and is blocked.
abbrev blocking : Queue
blocking = perform willing (Call.answer (Answer.failure Errno.ebusy)) looping

blocking-IsSound : IsSound blocking
blocking-IsSound =
    perform-IsSound willing room3 looping-IsSound (Call.answer (Answer.failure Errno.ebusy))

-- The blocked job is to be reconsidered.
abbrev reconsidering : Queue
reconsidering = record blocking { pending_reconsider = true }

reconsidering-IsValid : IsValid reconsidering
reconsidering-IsValid = record {
  ledger = blocking-IsSound.valid.ledger;
  sorted_p = blocking-IsSound.valid.sorted_p;
  sorted_b = blocking-IsSound.valid.sorted_b;
  sorted_v = blocking-IsSound.valid.sorted_v;
}

process_provisional_reconsider-merges_example :
    ((process_provisional_reconsider reconsidering).blocked ≡ [])
    × ((k : PendingKey) (id : ℕ)
        → find k blocking.blocked ≡ some id
        → (find k (process_provisional_reconsider reconsidering).pending ≡ some id)
          × ((process_provisional_reconsider reconsidering).schedulable ≡ true))
    × ((k : PendingKey)
        → find k blocking.blocked ≡ none
        → find k (process_provisional_reconsider reconsidering).pending ≡ find k blocking.pending)
    × ((process_provisional_reconsider reconsidering).pending_reconsider ≡ false)
    × ((process_provisional_reconsider reconsidering).pending_provisional
        ≡ blocking.pending_provisional)
    × ((process_provisional_reconsider reconsidering).jobs ≡ blocking.jobs)
process_provisional_reconsider-merges_example =
    process_provisional_reconsider-merges reconsidering reconsidering-IsValid refl

absent9 : lookup looping 9 ≡ none
unfolding perform add lookup
absent9 = refl

insert_job-Enters_example :
    let q' = (insert_job looping (some (job 9 1))).0 in
    let k : PendingKey = record {
      priority = (job 9 1).priority;
      t_submit = (job 9 1).t_submit;
      pending_ts = looping.pq_cnt;
    } in
    ((insert_job looping (some (job 9 1))).1 ≡ ok)
    × (lookup q' 9
        ≡ some (record (job 9 1) {
          state = JobState.pending;
          t_stamps = record ((job 9 1).t_stamps) { pending_ts = looping.pq_cnt };
        }))
    × ((i : ℕ) → i ≢ 9 → lookup q' i ≡ lookup looping i)
    × (find k looping.pending_provisional ≡ none → find k q'.pending_provisional ≡ some 9)
    × (q'.pq_cnt ≡ (looping.pq_cnt + 1) % 2 ^ 64)
    × (q'.schedulable ≡ true)
insert_job-Enters_example = insert_job-Enters looping (job 9 1) absent9

calc_priority_antitone_example : calc_priority 31 < calc_priority 16
calc_priority_antitone_example = calc_priority_antitone 16 31 (omega arith) (omega arith)

-- Job 8 runs.
abbrev running : Queue
running = perform willing (Call.answer (success match8)) looping

running-IsSound : IsSound running
running-IsSound = perform-IsSound willing room3 looping-IsSound (Call.answer (success match8))

abbrev job8 : Job
job8 = elim (find 8 running.jobs) [ none ↦ job 8 1 | some j ↦ j ]

running8 : find 8 running.jobs ≡ some job8
unfolding perform add
running8 = refl

runs8 : (job8.state ≡ JobState.running) ⊎ (job8.state ≡ JobState.alloc_running)
unfolding perform add
runs8 = inr refl

remove-lookup_example :
    ((remove willing 8 true "" running).1 ≡ ok)
    × (lookup (remove willing 8 true "" running).0 8 ≡ none)
    × (find job8.t_stamps.running_ts (remove willing 8 true "" running).0.running ≡ none)
    × ((i : ℕ) → i ≢ 8 → lookup (remove willing 8 true "" running).0 i ≡ lookup running i)
remove-lookup_example =
    remove-lookup willing running running-IsSound.valid 8 job8 "" running8 refl runs8

-- Job 3 was canceled and freed while the loop went on, and job 8 was canceled.
abbrev orphaned : Queue
orphaned = record looping {
  pending_cancel_provisional = (0, 8) ∷ (1, 3) ∷ [];
  pending_reprio_provisional = (0, (3, 1)) ∷ [];
}

gone3 : find 3 orphaned.jobs ≡ none
unfolding find perform add
gone3 = refl

second3 : find 1 orphaned.pending_cancel_provisional ≡ some 3
unfolding find
second3 = refl

process_provisional_cancel-stuck_example :
    let (q', rc) = process_provisional_cancel orphaned in
    (failed rc ≡ true)
    × (q'.pending_cancel_provisional ≡ orphaned.pending_cancel_provisional)
    × (find 3 q'.jobs ≡ none)
process_provisional_cancel-stuck_example =
    process_provisional_cancel-stuck orphaned 1 3 second3 gone3

-- A deferred change of priority is stuck in the same way.
reprio_stuck : process_provisional_reprio orphaned ≡ (orphaned, err Errno.enoent)
unfolding process_provisional_reprio reprio_entry perform add
reprio_stuck = refl

-- A resource module that refuses every match.
abbrev refusing : Reapi
refusing = record willing { match_allocate_multi = λ orelse ids. err Errno.enomem }

refused : failed (next_match_iter refusing looping_bf looping).1 ≡ true
unfolding perform add next_match_iter
refused = refl

next_match_iter-failed_example :
    (next_match_iter refusing looping_bf looping).0.sched_loop_active ≡ looping.sched_loop_active
next_match_iter-failed_example = next_match_iter-failed refusing looping_bf looping refused

refused_start : failed (start_match refusing (8 ∷ 7 ∷ []) two_jobs).1 ≡ true
unfolding start_match
refused_start = refl

start_match-failed_example :
    (start_match refusing (8 ∷ 7 ∷ []) two_jobs).0.sched_loop_active ≡ false
start_match-failed_example = start_match-failed refusing (8 ∷ 7 ∷ []) two_jobs refused_start
