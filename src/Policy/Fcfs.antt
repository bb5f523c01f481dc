-- ===== src/Policy/Fcfs.antt =====
-- qmanager/policies/queue_policy_fcfs_impl.hpp: the first-come-first-served loop. One call of
-- `match_allocate_multi` names all jobs of the loop, and the answers arrive one by one.
use Prim.Native.String.{String}
use text.Mathlib.Text.{◌==◌ as str_eq}
use flux_sched.Common.{
  ℕ, zero, suc, Bool, true, false, not, ◌&&◌, List, [], ◌∷◌, none, some, if◌then◌else◌, length,
  ◌==◌,
}
use flux_sched.OrdMap.{OrdMap, find, begin, absorb, nat_key}
use flux_sched.Queue.Job.{Job, JobSelection, PendingKey, Schedule, pending_key}
use flux_sched.Queue.State.{
  Queue, Fcfs, fcfs, Errno, Rc, ok, err, einval, enomem, ebusy, enodata, enodev, fault, Reapi,
  failed,
}
use flux_sched.Queue.Pending.{set_schedulability, write_job}
use flux_sched.Queue.Provisional.{set_sched_loop_active}
use flux_sched.Queue.Running.{to_running, to_rejected}

abbrev pub set_fcfs : Fcfs → Queue → Queue
set_fcfs f q = record q { derived = fcfs f }

-- What `pack_jobs` comes to: the ids of the jobs, a failure, or a read through a null job.
pub data Packed : Type 0 where
  packed : List ℕ → Packed
  unpacked null_job : Packed

abbrev pub prepend : ℕ → Packed → Packed
prepend id (packed ids) = packed (id ∷ ids)
prepend id unpacked = unpacked
prepend id null_job = null_job

-- The loop of `pack_jobs`, over the entries from the iterator on and with the jobs that are still
-- allowed.
unfoldable pub pack_entries : Reapi → OrdMap ℕ Job → ℕ → OrdMap PendingKey ℕ → Packed
unfolding find
pack_entries api jobs zero m = packed []
pack_entries api jobs (suc depth) [] = packed []
pack_entries api jobs (suc depth) ((k, id) ∷ m) =
    let rest = pack_entries api jobs depth m in
    elim (find id jobs) [
      | none ↦ null_job
      | some j ↦ if api.json_loads j.jobspec then prepend j.id rest else unpacked
    ]

-- Whether the loop stops at the queue depth with jobs left.
abbrev pub depth_limited : Queue → List ℕ → Bool
depth_limited q ids = length ids == q.queue_depth && not (length q.pending == q.queue_depth)

unfoldable pub start_match : Reapi → List ℕ → Queue → Queue × Rc
unfolding set_sched_loop_active
start_match api ids q =
    let q' : Queue = (set_sched_loop_active true q).0 in
    let rc = api.match_allocate_multi false ids in
    if failed rc then ((set_sched_loop_active false q').0, rc) else (q', ok)

-- `m_pending` takes up the provisional jobs, and the iterator starts anew.
unfoldable pub begin_loop : Fcfs → Queue → Queue
unfolding absorb begin
begin_loop f q = record q {
  pending = absorb q.pending q.pending_provisional;
  pending_provisional = [];
  derived = fcfs (record f { iter = begin (absorb q.pending q.pending_provisional) });
}

abbrev pub limit_depth : Fcfs → List ℕ → Queue → Queue
limit_depth f ids q = record q {
  derived = fcfs (record f {
    queue_depth_limit = if depth_limited q ids then true else f.queue_depth_limit;
    iter = begin q.pending;
  });
}

unfoldable pub match_packed : Reapi → Fcfs → Packed → Queue → Queue × Rc
unfolding start_match
match_packed api f unpacked q = (q, err enomem)
match_packed api f null_job q = (q, err fault)
match_packed api f (packed ids) q = start_match api ids (limit_depth f ids q)

unfoldable pub match_entries : Reapi → Fcfs → OrdMap PendingKey ℕ → Queue → Queue × Rc
unfolding pack_entries match_packed
match_entries api f [] q = (q, ok)
match_entries api f m q = match_packed api f (pack_entries api q.jobs q.queue_depth m) q

unfoldable pub allocate_jobs : Reapi → Fcfs → Queue → Queue × Rc
unfolding begin_loop match_entries
allocate_jobs api f q = let q' : Queue = begin_loop f q in match_entries api f q'.pending q'

-- The first component of the result is -1, 0 or 1; 1 means that a loop is active.
pub data Loop : Type 0 where
  returned : Rc → Loop
  still_active : Loop

unfoldable pub run_sched_loop_fcfs : Reapi → Fcfs → Queue → Queue × Loop
unfolding allocate_jobs
run_sched_loop_fcfs api f q =
    let (q', rc) = allocate_jobs api f (set_schedulability false q) in
    if q.sched_loop_active then (q, still_active) else (q', returned rc)

-- The answer of the resource module for one job.
pub record Match : Type 0 where
  pub jobid : ℕ
  pub status : String
  pub r : String
  pub at : ℕ
  pub ov : ℕ

abbrev pub is_reserved : Match → Bool
is_reserved m = str_eq "RESERVED" m.status

abbrev pub schedule_fcfs : Match → Schedule → Schedule
schedule_fcfs m s = record s {
  reserved = is_reserved m;
  r = m.r;
  at = m.at;
  ov = m.ov;
  selection_type = JobSelection.immediate;
}

unfoldable pub start_job_fcfs : Match → Fcfs → PendingKey → Job → Queue → Queue × Rc
unfolding write_job to_running
start_job_fcfs m f k j q =
    if j.id == m.jobid
    then (let j' : Job = record j { schedule = schedule_fcfs m j.schedule } in
        let (q', it) = to_running k true (write_job j.id j' q) in
        (set_fcfs (record f { iter = it }) q', ok))
    else (q, err einval)

unfoldable pub handle_match_success_fcfs : Match → Fcfs → Queue → Queue × Rc
unfolding find start_job_fcfs
handle_match_success_fcfs m f q =
    if q.sched_loop_active
    then elim f.iter [
      | none ↦ (q, err fault)
      | some k ↦ elim (find k q.pending) [
        | none ↦ (q, err fault)
        | some id ↦ elim (find id q.jobs) [
          | none ↦ (q, err fault)
          | some j ↦ start_job_fcfs m f k j q
        ]
      ]
    ]
    else (q, err einval)

-- `(errcode == ENODEV) ? "unsatisfiable" : "match error"`
abbrev pub reject_note : Errno → String
reject_note enodev = "unsatisfiable"
reject_note _ = "match error"

-- `errcode != EBUSY && errcode != ENODATA`
abbrev pub is_rejection : Errno → Bool
is_rejection ebusy = false
is_rejection enodata = false
is_rejection _ = true

-- Whether `to_rejected` would read through the end of `m_pending` or a null job.
abbrev pub reads_null : Fcfs → Queue → Bool
reads_null f q = elim f.iter [
  | none ↦ true
  | some k ↦ elim (find k q.pending) [
    | none ↦ true
    | some id ↦ elim (find id q.jobs) [ none ↦ true | some _ ↦ false ]
  ]
]

unfoldable pub reject_fcfs : Errno → Fcfs → Queue → Queue
unfolding to_rejected
reject_fcfs e f q = elim f.iter [
  | none ↦ q
  | some k ↦
      let (q', it) = to_rejected k (reject_note e) q in
      if is_rejection e then set_fcfs (record f { iter = it }) q' else q
]

-- The members that `reject_fcfs` has left.
abbrev pub fcfs_of : Fcfs → Queue → Fcfs
fcfs_of f q = elim q.derived [ fcfs f' ↦ f' | _ ↦ f ]

-- The part of the loop that was not scheduled stays schedulable.
unfoldable pub keep_schedulable : Errno → Fcfs → Queue → Queue
keep_schedulable enodev f q = set_schedulability true q
keep_schedulable enodata f q =
    if f.queue_depth_limit
    then record q { schedulable = true; derived = fcfs (record f { queue_depth_limit = false }) }
    else q
keep_schedulable _ f q = q

unfoldable pub handle_match_failure_fcfs : Errno → Fcfs → Queue → Queue × Rc
unfolding find reject_fcfs keep_schedulable set_sched_loop_active
handle_match_failure_fcfs e f q =
    let q1 : Queue = reject_fcfs e f q in
    let q2 : Queue = keep_schedulable e (fcfs_of f q1) q1 in
    let q3 : Queue = (set_sched_loop_active false q2).0 in
    if q.sched_loop_active
    then if is_rejection e && reads_null f q
      then (q, err fault)
      else (record q3 { scheduled = true }, ok)
    else (q, err einval)
