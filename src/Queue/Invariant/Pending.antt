-- ===== src/Queue/Invariant/Pending.antt =====
-- qmanager/policies/base/queue_policy_base.hpp: `insert`, `remove_pending` and
-- `reconsider_blocked_jobs` keep the invariant.
use flux_sched.Common.{
  ℕ, ◌+◌, ◌≡◌, ◌≢◌, refl, ◌<◌, true, Option, none, some, arith, ap, Option-cases, inl, inr,
  if_intro, [],
}
use flux_sched.OrdMap.{nat_key, find, leftover}
use flux_sched.OrdMap.Find.{find-nil, find-add, find-absorb, insert_fresh}
use flux_sched.OrdMap.Order.{add-IsSorted, absorb-IsSorted, leftover-eq-nil}
use flux_sched.Queue.Job.{Job, JobState, PendingKey, get_key, is_pending, pending_key, u64_mod}
use flux_sched.Queue.State.{Queue, failed, fcfs, backfill, Derived}
use flux_sched.Queue.Pending.{
  insert_job, submitted, process_provisional_reconsider, reconsider_blocked_jobs, cancel_sched_loop,
  cancel_now, cancel_erased, enter_canceled, cancel_sched_loop_of, erase_pending_job, Erased,
  missing, in_queue, in_provisional, stamped, stamp_job, cancel_or_defer, remove_pending,
}
use flux_sched.Queue.Ledger.{IsQuiet}
use flux_sched.Queue.Ledger.Add.{cong_lem, add_v, merge_pb}
use flux_sched.Queue.Invariant.{IsValid, Erases, erase_pending_job-Erases}
use flux_sched.Queue.Invariant.Steps.{
  SamePending, same-IsValid, touch-IsValid, drop-IsValid, find-write_job, found_written, Keeps,
}

-- No entry has the next sequence number yet.
fresh_key :
    {q : Queue}
    → IsValid q
    → (k : PendingKey) → k.pending_ts ≡ q.pq_cnt
    → find k q.pending_provisional ≡ none
fresh_key {q} valid k e = elim (Option-cases (find k q.pending_provisional)) [
  | inl free ↦ free
  | inr (id, taken) ↦
      let (j, f, s, g) = valid.ledger.listed_v k id taken in
      absurd (omega (arith, valid.ledger.fresh id j f s, ap (λ (x : PendingKey). x.pending_ts) g))
]

-- A submitted job enters the provisional queue. The counter must not wrap.
pub insert_job-IsValid :
    {q : Queue} (o : Option Job) → IsValid q → q.pq_cnt + 1 < u64_mod → IsValid (insert_job q o).0
unfolding insert_job is_pending
insert_job-IsValid none valid small = valid
insert_job-IsValid {q} (some j) valid small = elim (Option-cases (find j.id q.jobs)) [
  | inr (i, e) ↦ rw (e, insert_job) valid
  | inl absent ↦
      let k = get_key (submitted q j) in
      let free = fresh_key valid k refl in
      rw
        (
          absent,
          insert_job,
          insert_fresh k j.id q.pending_provisional free,
          insert_fresh j.id (submitted q j) q.jobs absent,
        )
        (record {
          ledger =
              cong_lem (λ x. refl) (λ x. refl) (λ x. find-add k x j.id q.pending_provisional free)
                (λ i. find-add j.id i (submitted q j) q.jobs absent)
                (add_v valid.ledger absent (submitted q j) refl refl (omega arith) (omega arith)
                  (λ i j' e s. λ h. absurd (omega (arith, valid.ledger.fresh i j' e s))));
          sorted_p = valid.sorted_p;
          sorted_b = valid.sorted_b;
          sorted_v = add-IsSorted k j.id q.pending_provisional free valid.sorted_v;
        })
]

-- In a valid state, merging the blocked jobs into m_pending leaves none behind, which is what
-- process_provisional_reconsider asserts.
pub leftover_blocked : {q : Queue} → IsValid q → leftover q.pending q.blocked ≡ []
leftover_blocked {q} valid = leftover-eq-nil q.pending q.blocked valid.sorted_b λ k id e.
    elim (Option-cases (find k q.pending)) [
      | inl free ↦ free
      | inr (w, taken) ↦ ground (arith, valid.ledger.apart_pb k w taken, e)
    ]

pub process_provisional_reconsider-IsValid :
    {q : Queue} → IsValid q → IsValid (process_provisional_reconsider q)
unfolding process_provisional_reconsider
process_provisional_reconsider-IsValid {q} valid =
    if_intro IsValid q.pending_reconsider
      (λ _. record {
        ledger =
            cong_lem (λ k. find-absorb k q.pending q.blocked)
              (λ k. rw (leftover_blocked valid) (find-nil k)) (λ k. refl) (λ i. refl)
              (merge_pb valid.ledger);
        sorted_p = absorb-IsSorted q.pending q.blocked valid.sorted_p;
        sorted_b = rw (leftover_blocked valid) tt;
        sorted_v = valid.sorted_v;
      })
      (λ _. valid)

pub reconsider_blocked_jobs-IsValid : {q : Queue} → IsValid q → IsValid (reconsider_blocked_jobs q)
unfolding reconsider_blocked_jobs
reconsider_blocked_jobs-IsValid {q} valid =
    if_intro IsValid q.sched_loop_active (λ _. asked)
      (λ _. process_provisional_reconsider-IsValid asked)
  where
    asked : IsValid (record q { pending_reconsider = true })
    asked = same-IsValid _ (record { p = refl; b = refl; v = refl; jobs = refl; n = refl }) valid

canceled-IsQuiet : (j : Job) → IsQuiet j.id (some (record j { state = JobState.canceled }))
unfolding is_pending
canceled-IsQuiet j j' e = ground arith

enter_canceled-IsValid :
    {q q' : Queue} (j : Job)
    → IsValid q
    → find j.id q.jobs ≡ some j
    → is_pending j.state ≡ true
    → Erases (get_key j) q q'
    → IsValid (enter_canceled j q').0
unfolding enter_canceled
enter_canceled-IsValid {q} {q'} j valid found pend er =
    drop-IsValid q' _ valid j.id j (some (record j { state = JobState.canceled })) found pend
      (canceled-IsQuiet j) er
      (find-write_job q' j.id j (record j { state = JobState.canceled }) (rw er.same_jobs found))
      refl refl refl refl

-- A pending job that is canceled leaves its queue.
pub cancel_now-IsValid :
    {q : Queue} (j : Job)
    → IsValid q
    → find j.id q.jobs ≡ some j
    → is_pending j.state ≡ true
    → IsValid (cancel_now j q).0
unfolding cancel_now
cancel_now-IsValid {q} j valid found pend =
    let (er, hit) = erase_pending_job-Erases valid j.id j found pend in
    go (erase_pending_job (get_key j) q).1 hit er
  where
    go :
        (e : Erased)
        → e ≢ missing
        → Erases (get_key j) q (erase_pending_job (get_key j) q).0
        → IsValid (cancel_erased e j (erase_pending_job (get_key j) q).0).0
    go missing hit er = absurd (hit refl)
    go in_queue hit er = enter_canceled-IsValid j valid found pend er
    go in_provisional hit er = enter_canceled-IsValid j valid found pend er

pub cancel_sched_loop-SamePending : (q : Queue) → SamePending q (cancel_sched_loop q).0
unfolding cancel_sched_loop
cancel_sched_loop-SamePending q = by_class q.derived
  where
    by_class : (d : Derived) → SamePending q (cancel_sched_loop_of q d).0
    by_class (fcfs f) = ground arith
    by_class (backfill b) = ground arith

pub cancel_sched_loop-IsValid : {q : Queue} → IsValid q → IsValid (cancel_sched_loop q).0
cancel_sched_loop-IsValid {q} valid = same-IsValid _ (cancel_sched_loop-SamePending q) valid

cancel_or_defer-IsValid :
    {q : Queue} (j : Job)
    → IsValid q
    → find j.id q.jobs ≡ some j
    → is_pending j.state ≡ true
    → IsValid (cancel_or_defer j q).0
unfolding cancel_or_defer
cancel_or_defer-IsValid {q} j valid found pend =
    if_intro Keeps q.sched_loop_active
      (λ _.
        if_intro Keeps (failed (cancel_sched_loop q).1)
          (λ _.
            same-IsValid _ (record { p = refl; b = refl; v = refl; jobs = refl; n = refl }) stopped)
          (λ _.
            cancel_now-IsValid j stopped (rw (cancel_sched_loop-SamePending q).jobs found) pend))
      (λ _. cancel_now-IsValid j valid found pend)
  where
    stopped : IsValid (cancel_sched_loop q).0
    stopped = cancel_sched_loop-IsValid valid

pub remove_pending-IsValid : {q : Queue} (id : ℕ) → IsValid q → IsValid (remove_pending id q).0
unfolding remove_pending
remove_pending-IsValid {q} id valid = elim (Option-cases (find id q.jobs)) [
  | inl absent ↦ rw (absent, remove_pending) valid
  | inr (j, found) ↦
      rw (found, remove_pending)
        (if_intro Keeps (is_pending j.state)
          (λ pend.
            cancel_or_defer-IsValid {q = stamp_job id j q} (stamped q j)
              (same-IsValid _ (record { p = refl; b = refl; v = refl; jobs = refl; n = refl })
                (touch-IsValid valid id j (stamped q j) found pend refl refl refl))
              (found_written valid id j (stamped q j) found refl) pend)
          (λ _. valid))
]
