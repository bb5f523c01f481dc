-- ===== src/Tests.antt =====
-- qmanager: small queues with two jobs, on which the theorems are applied.
mod Examples
mod Remapping
mod Requests
mod Parameters
mod Planners
mod Searches
use flux_sched.Common.{
  ℕ, ◌≡◌, ◌≢◌, refl, true, false, Bool, Option, none, some, [], ◌∷◌, inl, inr, ◌<◌, arith,
}
use flux_sched.OrdMap.{OrdMap, find, nat_key, add}
use flux_sched.OrdMap.Find.{find-nil}
use flux_sched.OrdMap.Iterate.{after}
use flux_sched.Queue.Job.{
  Job, JobState, JobSelection, PendingKey, get_key, is_pending, pending_key, calc_priority,
}
use flux_sched.Queue.State.{
  Queue, Reapi, Rc, ok, err, failed, Errno, Derived, fcfs, backfill, Backfill, BackfillKind, Fcfs,
}
use flux_sched.Queue.Pending.{Erased, missing, erase_pending_job, insert_job, lookup, submitted}
use flux_sched.Queue.Ledger.{IsLedger}
use flux_sched.Queue.Invariant.{IsValid, Erases}
use flux_sched.Queue.Invariant.Remove.{IsSound}
use flux_sched.Calls.{Call, perform, HasRoom, Reachable, begun, called}
use flux_sched.Calls.Iterator.{IsIterating, idle_lem}
use flux_sched.Calls.Invariant.{perform-IsSound}

-- A resource module that takes every request.
abbrev willing : Reapi
willing = record {
  match_allocate_multi = λ orelse ids. ok;
  cancel = λ id noent_ok. ok;
  cancel_partial = λ id r noent_ok. (ok, true);
  update_allocate = λ id r at ov. (ok, r, at, ov);
  json_loads = λ s. true;
}

abbrev easy_bf : Backfill
easy_bf = record {
  kind = BackfillKind.easy;
  reservation_depth = 1;
  max_reservation_depth = 100000;
  reserved = [];
  reservation_cnt = 0;
  scheduled_cnt = 0;
  try_reserve = false;
  in_progress_iter = none;
}

abbrev empty_queue : Queue
empty_queue = record {
  schedulable = false;
  scheduled = false;
  annotation_dirty = false;
  sched_loop_active = false;
  pq_cnt = 0;
  rq_cnt = 0;
  dq_cnt = 0;
  cq_cnt = 0;
  oq_cnt = 0;
  cancel_cnt = 0;
  reprio_cnt = 0;
  queue_depth = 32;
  max_queue_depth = 1000000;
  blocked = [];
  pending = [];
  pending_provisional = [];
  pending_cancel_provisional = [];
  pending_reconsider = false;
  pending_reprio_provisional = [];
  running = [];
  alloced = [];
  rejected = [];
  canceled = [];
  jobs = [];
  qparams = [];
  pparams = [];
  pending_iter = none;
  iter_valid = false;
  derived = backfill easy_bf;
}

abbrev job : ℕ → ℕ → Job
job id priority = record {
  msg = 0;
  state = JobState.init;
  id = id;
  userid = 1000;
  priority = priority;
  t_submit = 5;
  jobspec = "{}";
  note = "";
  t_stamps = record {
    pending_ts = 0;
    running_ts = 0;
    rejected_ts = 0;
    complete_ts = 0;
    canceled_ts = 0;
  };
  schedule = record {
    r = "";
    reserved = false;
    was_reserved = false;
    selection_type = JobSelection.unknown;
    at = 0;
    old_at = 0;
    ov = 0;
  };
}

empty_queue-IsSound : IsSound empty_queue
unfolding find
empty_queue-IsSound = record {
  valid = record {
    ledger = record {
      ids = λ i j e. cc;
      listed_p = λ k i e. absurd (cc);
      listed_b = λ k i e. absurd (cc);
      listed_v = λ k i e. absurd (cc);
      stored = λ i j e s. absurd (cc);
      apart_pb = λ k i e. refl;
      apart_pv = λ k i e. refl;
      apart_bv = λ k i e. refl;
      fresh = λ i j e s. absurd (cc);
      unique = λ i j i' j' e s e' s' h. absurd (cc);
    };
    sorted_p = tt;
    sorted_b = tt;
    sorted_v = tt;
  };
  counted = record {
    running_lt = λ ts i e. absurd (cc);
    alloced_lt = λ ts i e. absurd (cc);
    rejected_lt = λ ts i e. absurd (cc);
  };
}

abbrev two_jobs : Queue
two_jobs =
    perform willing (Call.alloc (job 8 1)) (perform willing (Call.alloc (job 7 2)) empty_queue)

-- The loop has started, and the job with the lesser priority number is matched first.
abbrev looping : Queue
looping = perform willing Call.run two_jobs

looping_active : looping.sched_loop_active ≡ true
unfolding perform add
looping_active = refl

room0 : HasRoom empty_queue
room0 = record { pq_lt = omega arith; rq_lt = omega arith; dq_lt = omega arith }

abbrev one_job : Queue
one_job = perform willing (Call.alloc (job 7 2)) empty_queue

one_job-IsSound : IsSound one_job
one_job-IsSound = perform-IsSound willing room0 empty_queue-IsSound (Call.alloc (job 7 2))

room1 : HasRoom one_job
unfolding perform add
room1 = record { pq_lt = omega arith; rq_lt = omega arith; dq_lt = omega arith }

two_jobs-IsSound : IsSound two_jobs
two_jobs-IsSound = perform-IsSound willing room1 one_job-IsSound (Call.alloc (job 8 1))

room2 : HasRoom two_jobs
unfolding perform add
room2 = record { pq_lt = omega arith; rq_lt = omega arith; dq_lt = omega arith }

looping-IsSound : IsSound looping
looping-IsSound = perform-IsSound willing room2 two_jobs-IsSound Call.run

room3 : HasRoom looping
unfolding perform add
room3 = record { pq_lt = omega arith; rq_lt = omega arith; dq_lt = omega arith }

looping_reached : Reachable willing empty_queue looping
looping_reached =
    called two_jobs Call.run
      (called one_job (Call.alloc (job 8 1)) (called empty_queue (Call.alloc (job 7 2)) begun room0)
        room1)
      room2

-- The members of the backfill class.
abbrev bf_of : Derived → Backfill
bf_of (backfill b) = b
bf_of _ = easy_bf

abbrev looping_bf : Backfill
looping_bf = bf_of looping.derived

looping_class : looping.derived ≡ backfill looping_bf
unfolding perform add
looping_class = refl

two_jobs_idle : two_jobs.sched_loop_active ≡ false
unfolding perform add
two_jobs_idle = refl

two_jobs-IsIterating : IsIterating two_jobs
two_jobs-IsIterating = idle_lem two_jobs two_jobs_idle

two_jobs_class : two_jobs.derived ≡ backfill easy_bf
unfolding perform add
two_jobs_class = refl

-- The least key.
abbrev key8 : PendingKey
key8 = record { priority = 1; t_submit = 5; pending_ts = 1 }

looping_key : looping_bf.in_progress_iter ≡ some key8
unfolding perform add
looping_key = refl

looping_entry : find key8 looping.pending ≡ some 8
unfolding perform add
looping_entry = refl
