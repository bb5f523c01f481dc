-- ===== src/Policy/FcfsInvariant.antt =====
-- qmanager/policies/queue_policy_fcfs_impl.hpp: the first-come-first-served loop keeps the
-- invariants.
use flux_sched.Common.{
  ℕ, ◌+◌, ◌≡◌, refl, ◌<◌, true, false, ◌&&◌, some, Option-cases, inl, inr, if_intro, [], ◌∷◌, ◌==◌,
  List,
}
use flux_sched.OrdMap.{OrdMap, nat_key, find, absorb, begin}
use flux_sched.Queue.Job.{Job, PendingKey, pending_key, u64_mod}
use flux_sched.Queue.State.{Queue, Fcfs, Errno, failed, Reapi, enodev, enodata}
use flux_sched.Queue.Pending.{set_schedulability, write_job}
use flux_sched.Queue.Provisional.{set_sched_loop_active}
use flux_sched.Queue.Running.{to_running, to_rejected}
use flux_sched.Queue.Invariant.Remove.{IsSound, Sound, schedulable-IsSound}
use flux_sched.Policy.Fcfs.{
  Packed, packed, unpacked, null_job, reads_null, set_fcfs, pack_entries, start_match, begin_loop,
  limit_depth, match_packed, match_entries, allocate_jobs, run_sched_loop_fcfs, Match,
  schedule_fcfs, start_job_fcfs, handle_match_success_fcfs, reject_note, is_rejection, reject_fcfs,
  fcfs_of, keep_schedulable, handle_match_failure_fcfs,
}
use flux_sched.Policy.Backfill.{take_provisional}
use flux_sched.Policy.Invariant.{
  same-IsSound, set_sched_loop_active-IsSound, take_provisional-IsSound, write_job-IsSound,
  to_running-IsSound, to_rejected-IsSound, job_of_entry,
}

set_fcfs-IsSound : {q : Queue} (f : Fcfs) → IsSound q → IsSound (set_fcfs f q)
set_fcfs-IsSound f s =
    same-IsSound _
      (record {
        pending = record { p = refl; b = refl; v = refl; jobs = refl; n = refl };
        running = refl;
        alloced = refl;
        rejected = refl;
        rq_cnt = refl;
        dq_cnt = refl;
      })
      s

begin_loop-IsSound : {q : Queue} (f : Fcfs) → IsSound q → IsSound (begin_loop f q)
unfolding begin_loop
begin_loop-IsSound {q} f s =
    set_fcfs-IsSound {q = take_provisional q}
      (record f { iter = begin (absorb q.pending q.pending_provisional) })
      (take_provisional-IsSound s)

start_match-IsSound :
    {q : Queue} (api : Reapi) (ids : List ℕ) → IsSound q → IsSound (start_match api ids q).0
unfolding start_match
start_match-IsSound api ids s =
    let s' = set_sched_loop_active-IsSound true s in
    if_intro Sound (failed (api.match_allocate_multi false ids))
      (λ _. set_sched_loop_active-IsSound false s') (λ _. s')

limit_depth-IsSound :
    {q : Queue} (f : Fcfs) (ids : List ℕ) → IsSound q → IsSound (limit_depth f ids q)
limit_depth-IsSound f ids s =
    same-IsSound _
      (record {
        pending = record { p = refl; b = refl; v = refl; jobs = refl; n = refl };
        running = refl;
        alloced = refl;
        rejected = refl;
        rq_cnt = refl;
        dq_cnt = refl;
      })
      s

match_packed-IsSound :
    {q : Queue} (api : Reapi) (f : Fcfs) (ids : Packed)
    → IsSound q
    → IsSound (match_packed api f ids q).0
unfolding match_packed
match_packed-IsSound api f unpacked s = s
match_packed-IsSound api f null_job s = s
match_packed-IsSound api f (packed ids) s =
    start_match-IsSound api ids (limit_depth-IsSound f ids s)

match_entries-IsSound :
    {q : Queue} (api : Reapi) (f : Fcfs) (m : OrdMap PendingKey ℕ)
    → IsSound q
    → IsSound (match_entries api f m q).0
unfolding match_entries
match_entries-IsSound api f [] s = s
match_entries-IsSound {q} api f (x ∷ m) s =
    match_packed-IsSound api f (pack_entries api q.jobs q.queue_depth (x ∷ m)) s

allocate_jobs-IsSound :
    {q : Queue} (api : Reapi) (f : Fcfs) → IsSound q → IsSound (allocate_jobs api f q).0
unfolding allocate_jobs
allocate_jobs-IsSound {q} api f s =
    match_entries-IsSound api f (begin_loop f q).pending (begin_loop-IsSound f s)

pub run_sched_loop_fcfs-IsSound :
    {q : Queue} (api : Reapi) (f : Fcfs) → IsSound q → IsSound (run_sched_loop_fcfs api f q).0
unfolding run_sched_loop_fcfs
run_sched_loop_fcfs-IsSound {q} api f s =
    if_intro Sound q.sched_loop_active (λ _. s)
      (λ _.
        allocate_jobs-IsSound {q = set_schedulability false q} api f (schedulable-IsSound false s))

start_job_fcfs-IsSound :
    {q : Queue} (m : Match) (f : Fcfs) (k : PendingKey) (id : ℕ) (j : Job)
    → find k q.pending ≡ some id
    → find id q.jobs ≡ some j
    → q.rq_cnt + 1 < u64_mod
    → IsSound q
    → IsSound (start_job_fcfs m f k j q).0
unfolding start_job_fcfs write_job
start_job_fcfs-IsSound {q} m f k id j listed found small s =
    let j' : Job = record j { schedule = schedule_fcfs m j.schedule } in
    let (s', found', listed') = write_job-IsSound id j j' k listed found refl refl refl s in
    let (q', it) = to_running k true (write_job j.id j' q) in
    if_intro Sound (j.id == m.jobid)
      (λ _.
        set_fcfs-IsSound {q = (to_running k true (write_job j.id j' q)).0}
          (record f { iter = (to_running k true (write_job j.id j' q)).1 })
          (to_running-IsSound k id j' listed' found' small s'))
      (λ _. s)

pub handle_match_success_fcfs-IsSound :
    {q : Queue} (m : Match) (f : Fcfs)
    → q.rq_cnt + 1 < u64_mod
    → IsSound q
    → IsSound (handle_match_success_fcfs m f q).0
unfolding handle_match_success_fcfs
handle_match_success_fcfs-IsSound {q} m f small s =
    if_intro Sound q.sched_loop_active
      (λ _. elim (Option-cases f.iter) [
        | inl i ↦ rw (i, handle_match_success_fcfs) s
        | inr (k, i) ↦ elim (Option-cases (find k q.pending)) [
          | inl e ↦ rw (i, e, handle_match_success_fcfs) s
          | inr (id, e) ↦
              let (j, found) = job_of_entry s k id e in
              rw (i, e, found, handle_match_success_fcfs)
                (start_job_fcfs-IsSound m f k id j e found small s)
        ]
      ])
      (λ _. s)

to_rejected_any :
    {q : Queue} (k : PendingKey) (e : Errno)
    → q.dq_cnt + 1 < u64_mod
    → IsSound q
    → IsSound (to_rejected k (reject_note e) q).0
unfolding to_rejected
to_rejected_any {q} k e small s = elim (Option-cases (find k q.pending)) [
  | inl miss ↦ rw (miss, to_rejected) s
  | inr (id, listed) ↦
      let (j, found) = job_of_entry s k id listed in
      to_rejected-IsSound k (reject_note e) id j listed found small s
]

reject_fcfs-IsSound :
    {q : Queue} (e : Errno) (f : Fcfs)
    → q.dq_cnt + 1 < u64_mod
    → IsSound q
    → IsSound (reject_fcfs e f q)
unfolding reject_fcfs
reject_fcfs-IsSound {q} e f small s = elim (Option-cases f.iter) [
  | inl i ↦ rw (i, reject_fcfs) s
  | inr (k, i) ↦
      rw (i, reject_fcfs)
        (if_intro IsSound (is_rejection e)
          (λ _.
            set_fcfs-IsSound {q = (to_rejected k (reject_note e) q).0}
              (record f { iter = (to_rejected k (reject_note e) q).1 })
              (to_rejected_any k e small s))
          (λ _. s))
]

keep_schedulable-IsSound :
    {q : Queue} (e : Errno) (f : Fcfs) → IsSound q → IsSound (keep_schedulable e f q)
unfolding keep_schedulable
keep_schedulable-IsSound enodev f s = schedulable-IsSound true s
keep_schedulable-IsSound {q} enodata f s =
    if_intro IsSound f.queue_depth_limit
      (λ _.
        set_fcfs-IsSound {q = set_schedulability true q} (record f { queue_depth_limit = false })
          (schedulable-IsSound true s))
      (λ _. s)
keep_schedulable-IsSound _ f s = s

pub handle_match_failure_fcfs-IsSound :
    {q : Queue} (e : Errno) (f : Fcfs)
    → q.dq_cnt + 1 < u64_mod
    → IsSound q
    → IsSound (handle_match_failure_fcfs e f q).0
unfolding handle_match_failure_fcfs find
handle_match_failure_fcfs-IsSound {q} e f small s =
    let q1 : Queue = reject_fcfs e f q in
    let q2 : Queue = keep_schedulable e (fcfs_of f q1) q1 in
    let s2 = keep_schedulable-IsSound {q = q1} e (fcfs_of f q1) (reject_fcfs-IsSound e f small s) in
    let s3 = set_sched_loop_active-IsSound {q = q2} false s2 in
    if_intro Sound q.sched_loop_active
      (λ _.
        if_intro Sound (is_rejection e && reads_null f q) (λ _. s)
          (λ _.
            same-IsSound {q = (set_sched_loop_active false q2).0} _
              (record {
                pending = record { p = refl; b = refl; v = refl; jobs = refl; n = refl };
                running = refl;
                alloced = refl;
                rejected = refl;
                rq_cnt = refl;
                dq_cnt = refl;
              })
              s3))
      (λ _. s)
