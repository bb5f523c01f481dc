-- ===== src/Policy/BackfillInvariant.antt =====
-- qmanager/policies/queue_policy_bf_base_impl.hpp: the backfill loop keeps the invariants.
use flux_sched.Common.{
  ℕ, ◌+◌, ◌≡◌, refl, ◌<◌, true, false, not, ◌&&◌, ◌||◌, some, Option-cases, inl, inr, if_intro, [],
  ◌==◌,
}
use flux_sched.OrdMap.{nat_key, find, next}
use flux_sched.OrdMap.Find.{insert_fresh, find-erase, find-add}
use flux_sched.OrdMap.Order.{erase-IsSorted, add-IsSorted}
use flux_sched.Queue.Ledger.Add.{cong_lem, move_pb}
use flux_sched.Queue.Job.{Job, PendingKey, pending_key, u64_mod}
use flux_sched.Queue.State.{Queue, Backfill, Errno, Reapi}
use flux_sched.Queue.Pending.{set_schedulability, write_job}
use flux_sched.Queue.Provisional.{set_sched_loop_active}
use flux_sched.Queue.Invariant.Remove.{IsSound, Sound, schedulable-IsSound}
use flux_sched.Policy.Fcfs.{Match, is_reserved, reject_note}
use flux_sched.Policy.Backfill.{
  set_backfill, reached_depth, reached_end, finish_loop, try_job, match_job, job_in_progress,
  next_match_iter, first_job, allocate_orelse_reserve_jobs, cancel_each, run_sched_loop_bf,
  reserve_job, allocate_job, count_job, place_job, matched, take_match, handle_match_success_bf,
  unestimated, drop_estimate, block_job, skip_job, reject_job, is_busy, is_nodata, fail_job,
  handle_match_failure_bf,
}
use flux_sched.Policy.Invariant.{
  same-IsSound, set_sched_loop_active-IsSound, take_provisional-IsSound, write_job-IsSound,
  to_running-IsSound, to_rejected-IsSound, job_of_entry,
}

pub set_backfill-IsSound : {q : Queue} (b : Backfill) → IsSound q → IsSound (set_backfill b q)
set_backfill-IsSound b s =
    same-IsSound _
      (record {
        pending = record { p = refl; b = refl; v = refl; jobs = refl; n = refl };
        running = refl;
        alloced = refl;
        rejected = refl;
        rq_cnt = refl;
        dq_cnt = refl;
      })
      s

finish_loop-IsSound : {q : Queue} (b : Backfill) → IsSound q → IsSound (finish_loop b q)
unfolding finish_loop
finish_loop-IsSound {q} b s =
    let s' = set_sched_loop_active-IsSound false s in
    if_intro IsSound
      (reached_depth b q && not (reached_end b) && (set_sched_loop_active false q).0.scheduled)
      (λ _. schedulable-IsSound true s') (λ _. s')

match_job-IsSound :
    {q : Queue} (api : Reapi) (b : Backfill) (j : Job) → IsSound q → IsSound (match_job api b j q).0
unfolding match_job
match_job-IsSound api b j s =
    let s' = set_backfill-IsSound (try_job b) s in
    if_intro Sound (api.json_loads j.jobspec) (λ _. s') (λ _. s')

pub next_match_iter-IsSound :
    {q : Queue} (api : Reapi) (b : Backfill) → IsSound q → IsSound (next_match_iter api b q).0
unfolding next_match_iter
next_match_iter-IsSound {q} api b s =
    if_intro Sound (reached_end b || reached_depth b q)
      (λ _. finish_loop-IsSound b (set_backfill-IsSound b s))
      (λ _. elim (Option-cases (job_in_progress b q)) [
        | inl e ↦ rw (e, next_match_iter) (set_backfill-IsSound b s)
        | inr (j, e) ↦ rw (e, next_match_iter) (match_job-IsSound api b j s)
      ])

allocate_orelse_reserve_jobs-IsSound :
    {q : Queue} (api : Reapi) (b : Backfill)
    → IsSound q
    → IsSound (allocate_orelse_reserve_jobs api b q).0
unfolding allocate_orelse_reserve_jobs
allocate_orelse_reserve_jobs-IsSound {q} api b s =
    if_intro Sound q.sched_loop_active (λ _. s)
      (λ _.
        next_match_iter-IsSound api (first_job b q)
          (set_sched_loop_active-IsSound true (take_provisional-IsSound s)))

pub run_sched_loop_bf-IsSound :
    {q : Queue} (api : Reapi) (b : Backfill) → IsSound q → IsSound (run_sched_loop_bf api b q).0
unfolding run_sched_loop_bf
run_sched_loop_bf-IsSound {q} api b s =
    let b' : Backfill = record b { reserved = [] } in
    let s' =
      set_backfill-IsSound {q = set_schedulability false q} b' (schedulable-IsSound false s) in
    if_intro Sound q.sched_loop_active (λ _. allocate_orelse_reserve_jobs-IsSound api b s)
      (λ _.
        if_intro Sound (cancel_each api b.reserved == 0)
          (λ _. allocate_orelse_reserve_jobs-IsSound api b' s') (λ _. s'))

module _ {q : Queue} (k : PendingKey) (id : ℕ) (j : Job) (listed : find k q.pending ≡ some id)
    (found : find id q.jobs ≡ some j) (s : IsSound q) where
  reserve_job-IsSound : (b : Backfill) → IsSound (reserve_job k j b q).0
  unfolding reserve_job
  reserve_job-IsSound b =
      same-IsSound _
        (record {
          pending = record { p = refl; b = refl; v = refl; jobs = refl; n = refl };
          running = refl;
          alloced = refl;
          rejected = refl;
          rq_cnt = refl;
          dq_cnt = refl;
        })
        s

  pub place_job-IsSound :
      (m : Match) (b : Backfill) → q.rq_cnt + 1 < u64_mod → IsSound (place_job m k j b q).0
  unfolding place_job allocate_job
  place_job-IsSound m b small =
      if_intro Sound (is_reserved m) (λ _. reserve_job-IsSound b)
        (λ _. to_running-IsSound k id j listed found small s)

  pub block_job-IsSound : (b : Backfill) → IsSound (block_job k id b q).0
  block_job-IsSound b =
      let free = s.valid.ledger.apart_pb k id listed in
      rw (insert_fresh k id q.blocked free) (record {
        valid = record {
          ledger =
              cong_lem (λ x. find-erase k x q.pending) (λ x. find-add k x id q.blocked free)
                (λ x. refl) (λ i. refl) (move_pb s.valid.ledger k id listed);
          sorted_p = erase-IsSorted k q.pending s.valid.sorted_p;
          sorted_b = add-IsSorted k id q.blocked free s.valid.sorted_b;
          sorted_v = s.valid.sorted_v;
        };
        counted = record {
          running_lt = s.counted.running_lt;
          alloced_lt = s.counted.alloced_lt;
          rejected_lt = s.counted.rejected_lt;
        };
      })

take_match-IsSound :
    {q : Queue} (api : Reapi) (m : Match) (k : PendingKey) (id : ℕ) (j : Job) (b : Backfill)
    → find k q.pending ≡ some id
    → find id q.jobs ≡ some j
    → q.rq_cnt + 1 < u64_mod
    → IsSound q
    → IsSound (take_match api m k j b q).0
unfolding take_match write_job
take_match-IsSound {q} api m k id j b listed found small s =
    let (s', found', listed') =
      write_job-IsSound id j (matched m b j) k listed found refl refl refl s in
    if_intro Sound (j.id == m.jobid)
      (λ _.
        next_match_iter-IsSound api
          (count_job (place_job m k (matched m b j) b (write_job j.id (matched m b j) q)).1)
          (place_job-IsSound k id (matched m b j) listed' found' s' m b small))
      (λ _. s)

pub handle_match_success_bf-IsSound :
    {q : Queue} (api : Reapi) (m : Match) (b : Backfill)
    → q.rq_cnt + 1 < u64_mod
    → IsSound q
    → IsSound (handle_match_success_bf api m b q).0
unfolding handle_match_success_bf
handle_match_success_bf-IsSound {q} api m b small s =
    if_intro Sound q.sched_loop_active
      (λ _. elim (Option-cases b.in_progress_iter) [
        | inl e ↦ rw (e, handle_match_success_bf) s
        | inr (k, e) ↦ elim (Option-cases (find k q.pending)) [
          | inl e' ↦ rw (e, e', handle_match_success_bf) s
          | inr (id, e') ↦
              let (j, found) = job_of_entry s k id e' in
              rw (e, e', found, handle_match_success_bf)
                (take_match-IsSound api m k id j b e' found small s)
        ]
      ])
      (λ _. s)

pub drop_estimate-IsSound :
    {q : Queue} (k : PendingKey) (id : ℕ) (j : Job)
    → find k q.pending ≡ some id
    → find id q.jobs ≡ some j
    → IsSound q
    → IsSound (drop_estimate j q)
      × (find id (drop_estimate j q).jobs ≡ some (unestimated j))
      × (find k (drop_estimate j q).pending ≡ some id)
unfolding drop_estimate
drop_estimate-IsSound {q} k id j listed found s =
    let (s', found', listed') =
      write_job-IsSound id j (unestimated j) k listed found refl refl refl s in
    (
      same-IsSound {q = write_job j.id (unestimated j) q} _
          (record {
            pending = record { p = refl; b = refl; v = refl; jobs = refl; n = refl };
            running = refl;
            alloced = refl;
            rejected = refl;
            rq_cnt = refl;
            dq_cnt = refl;
          })
          s',
      found',
      listed',
    )

pub skip_job-IsSound :
    {q : Queue} (k : PendingKey) (id : ℕ) (j : Job) (b : Backfill)
    → find k q.pending ≡ some id
    → find id q.jobs ≡ some j
    → IsSound q
    → IsSound (skip_job k id j b q).0
unfolding skip_job
skip_job-IsSound {q} k id j b listed found s =
    let (s', found', listed') = drop_estimate-IsSound k id j listed found s in
    if_intro Sound b.try_reserve
      (λ _.
        block_job-IsSound {q = drop_estimate j q} k id (unestimated j) listed' found' s'
          (record b { in_progress_iter = next k q.pending }))
      (λ _. s')

pub reject_job-IsSound :
    {q : Queue} (k : PendingKey) (id : ℕ) (j : Job) (e : Errno) (b : Backfill)
    → find k q.pending ≡ some id
    → find id q.jobs ≡ some j
    → q.dq_cnt + 1 < u64_mod
    → IsSound q
    → IsSound (reject_job k e b q).0
unfolding reject_job
reject_job-IsSound k id j e b listed found small s =
    to_rejected-IsSound k (reject_note e) id j listed found small s

fail_job-IsSound :
    {q : Queue} (api : Reapi) (e : Errno) (k : PendingKey) (id : ℕ) (b : Backfill)
    → find k q.pending ≡ some id
    → q.dq_cnt + 1 < u64_mod
    → IsSound q
    → IsSound (fail_job api e k id b q).0
unfolding fail_job
fail_job-IsSound {q} api e k id b listed small s =
    let (j, found) = job_of_entry s k id listed in
    if_intro Sound (is_busy e)
      (λ _. rw found (
        next_match_iter-IsSound api (count_job (skip_job k id j b q).1)
          (skip_job-IsSound k id j b listed found s)))
      (λ _.
        next_match_iter-IsSound api (count_job (reject_job k e b q).1)
          (reject_job-IsSound k id j e b listed found small s))

pub handle_match_failure_bf-IsSound :
    {q : Queue} (api : Reapi) (e : Errno) (b : Backfill)
    → q.dq_cnt + 1 < u64_mod
    → IsSound q
    → IsSound (handle_match_failure_bf api e b q).0
unfolding handle_match_failure_bf
handle_match_failure_bf-IsSound {q} api e b small s =
    if_intro Sound q.sched_loop_active
      (λ _.
        if_intro Sound (is_nodata e) (λ _. s)
          (λ _. elim (Option-cases b.in_progress_iter) [
            | inl i ↦ rw (i, handle_match_failure_bf) s
            | inr (k, i) ↦ elim (Option-cases (find k q.pending)) [
              | inl f ↦ rw (i, f, handle_match_failure_bf) s
              | inr (id, f) ↦
                  rw (i, f, handle_match_failure_bf) (fail_job-IsSound api e k id b f small s)
            ]
          ]))
      (λ _. s)
