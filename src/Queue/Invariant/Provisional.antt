-- ===== src/Queue/Invariant/Provisional.antt =====
-- qmanager/policies/base/queue_policy_base.hpp: the cancelations and the changes of priority that
-- are put off while a loop is active, and the end of a loop, keep the invariant.
use flux_sched.Common.{
  ℕ, ◌≡◌, ◌≢◌, refl, ◌<◌, true, false, Bool, none, some, arith, ◌∙◌, Option-cases, inl, inr,
  if_intro, ◌&&◌, not, [], ◌∷◌,
}
use flux_sched.OrdMap.{OrdMap, same_iff, same_refl, nat_key, find, insert}
use flux_sched.OrdMap.Find.{find-add, insert_fresh}
use flux_sched.OrdMap.Order.{add-IsSorted}
use flux_sched.Queue.Job.{Job, PendingKey, get_key, is_pending, pending_key}
use flux_sched.Queue.State.{Queue, failed}
use flux_sched.Queue.Pending.{
  write_job, erase_pending_job, Erased, missing, in_queue, in_provisional, insert_pending_job,
  cancel_sched_loop, set_schedulability,
}
use flux_sched.Queue.Provisional.{
  cancel_entry, cancel_entries, process_provisional_cancel, with_priority, reenter, reenter_erased,
  move_entry, reprio_entry, reprio_entries, process_provisional_reprio, end_sched_loop,
  set_sched_loop_active, defer_reprio, reprio_or_wait, reprio_pending, pending_reprioritize,
}
use flux_sched.Queue.Ledger.{IsLedger, Entries, Listed, put, drop_lem}
use flux_sched.Queue.Ledger.Add.{cong_lem, add_v, free_at, swap_pv}
use flux_sched.Queue.Invariant.{IsValid, Erases, erase_pending_job-Erases}
use flux_sched.Queue.Invariant.Steps.{
  same-IsValid, find-write_job, Keeps, schedulable-IsValid, own_id,
}
use flux_sched.Queue.Invariant.Pending.{
  cancel_now-IsValid, cancel_sched_loop-IsValid, reconsider_blocked_jobs-IsValid,
  process_provisional_reconsider-IsValid,
}

-- A job whose entry has been erased goes back under a key with its old sequence number.
module _ {q q' : Queue} (valid : IsValid q) (j : Job) (found : find j.id q.jobs ≡ some j)
    (pend : is_pending j.state ≡ true) (er : Erases (get_key j) q q') (p : ℕ) where
  -- The pending side without the job.
  erased :
      IsLedger
        (λ k. find k q'.pending)
        (λ k. find k q'.blocked)
        (λ k. find k q'.pending_provisional)
        (put (λ i. find i q.jobs) j.id none)
        q'.pq_cnt
  erased = rw er.same_count (
      cong_lem er.in_p er.in_b er.in_v (λ i. refl)
        (drop_lem valid.ledger found pend none (λ j1 e. absurd (cc))))

  alone :
      (i : ℕ) (j1 : Job)
      → put (λ x. find x q.jobs) j.id none i ≡ some j1
      → is_pending j1.state ≡ true
      → j1.t_stamps.pending_ts ≢ j.t_stamps.pending_ts
  alone i j1 e s h =
      absurd (ground (arith, valid.ledger.unique i j1 j.id j, same_iff j.id i, found, pend))

  old : j.t_stamps.pending_ts < q'.pq_cnt
  old = rw er.same_count (valid.ledger.fresh j.id j found pend)

  gone : put (λ i. find i q.jobs) j.id none j.id ≡ none
  gone = rw (same_refl j.id)

  key_free :
      (f : Entries)
      → ((k : PendingKey) (i : ℕ) → f k ≡ some i → Listed (put (λ x. find x q.jobs) j.id none) k i)
      → f (get_key (with_priority p j)) ≡ none
  key_free f h =
      free_at erased gone (with_priority p j) refl pend old (omega arith) alone f h
        (get_key (with_priority p j)) (same_refl (get_key (with_priority p j)))

  jobs_after :
      (i : ℕ)
      → find i (write_job j.id (with_priority p j) q').jobs
        ≡ put (put (λ x. find x q.jobs) j.id none) j.id (some (with_priority p j)) i
  jobs_after i =
      find-write_job q' j.id j (with_priority p j) (rw er.same_jobs found) i
      ∙ rw er.same_jobs (ground (arith, same_iff j.id i))

  into_v : IsValid (record (write_job j.id (with_priority p j) q') {
    pending_provisional = (insert (get_key (with_priority p j)) j.id q'.pending_provisional).0;
  })
  unfolding write_job
  into_v =
      let k = get_key (with_priority p j) in
      let free = key_free (λ x. find x q'.pending_provisional) erased.listed_v in
      rw (insert_fresh k j.id q'.pending_provisional free) (record {
        ledger =
            cong_lem (λ x. refl) (λ x. refl) (λ x. find-add k x j.id q'.pending_provisional free)
              jobs_after (add_v erased gone (with_priority p j) refl pend old (omega arith) alone);
        sorted_p = er.still_p;
        sorted_b = er.still_b;
        sorted_v = add-IsSorted k j.id q'.pending_provisional free er.still_v;
      })

  into_p : IsValid (record (write_job j.id (with_priority p j) q') {
    pending = (insert (get_key (with_priority p j)) j.id q'.pending).0;
  })
  unfolding write_job
  into_p =
      let k = get_key (with_priority p j) in
      let free = key_free (λ x. find x q'.pending) erased.listed_p in
      rw (insert_fresh k j.id q'.pending free) (record {
        ledger =
            cong_lem (λ x. find-add k x j.id q'.pending free) (λ x. refl) (λ x. refl) jobs_after
              (swap_pv (
                add_v (swap_pv erased) gone (with_priority p j) refl pend old (omega arith) alone));
        sorted_p = add-IsSorted k j.id q'.pending free er.still_p;
        sorted_b = er.still_b;
        sorted_v = er.still_v;
      })

  -- Into either queue.
  inserted :
      (prov : Bool)
      → IsValid
          (insert_pending_job (with_priority p j) prov (write_job j.id (with_priority p j) q')).0
  unfolding insert_pending_job write_job
  inserted true = into_v
  inserted false = into_p

  reenter-IsValid : (prov : Bool) → IsValid (reenter (with_priority p j) prov q').0
  unfolding reenter
  reenter-IsValid prov =
      if_intro Keeps
        (failed
          (insert_pending_job (with_priority p j) prov (write_job j.id (with_priority p j) q')).1)
        (λ _. inserted prov)
        (λ _.
          reconsider_blocked_jobs-IsValid {q = set_schedulability true r}
            (schedulable-IsValid true (inserted prov)))
    where
      r : Queue
      r = (insert_pending_job (with_priority p j) prov (write_job j.id (with_priority p j) q')).0

pub move_entry-IsValid :
    {q : Queue} (j : Job) (p : ℕ)
    → IsValid q
    → find j.id q.jobs ≡ some j
    → is_pending j.state ≡ true
    → IsValid (move_entry j p q).0
unfolding move_entry
move_entry-IsValid {q} j p valid found pend =
    let (er, hit) = erase_pending_job-Erases valid j.id j found pend in
    go (erase_pending_job (get_key j) q).1 hit er
  where
    go :
        (e : Erased)
        → e ≢ missing
        → Erases (get_key j) q (erase_pending_job (get_key j) q).0
        → IsValid (reenter_erased e (with_priority p j) (erase_pending_job (get_key j) q).0).0
    go missing hit er = absurd (hit refl)
    go in_queue hit er = reenter-IsValid valid j found pend er p false
    go in_provisional hit er = reenter-IsValid valid j found pend er p true

pub reprio_entry-IsValid : {q : Queue} (id p : ℕ) → IsValid q → IsValid (reprio_entry id p q).0
unfolding reprio_entry
reprio_entry-IsValid {q} id p valid = elim (Option-cases (find id q.jobs)) [
  | inl absent ↦ rw (absent, reprio_entry) valid
  | inr (j, found) ↦
      rw (found, reprio_entry)
        (if_intro Keeps (is_pending j.state)
          (λ pend. move_entry-IsValid j p valid (own_id valid id j found) pend) (λ _. valid))
]

pub cancel_entry-IsValid : {q : Queue} (id : ℕ) → IsValid q → IsValid (cancel_entry id q).0
unfolding cancel_entry
cancel_entry-IsValid {q} id valid = elim (Option-cases (find id q.jobs)) [
  | inl absent ↦ rw (absent, cancel_entry) valid
  | inr (j, found) ↦
      rw (found, cancel_entry)
        (if_intro Keeps (is_pending j.state)
          (λ pend. cancel_now-IsValid j valid (own_id valid id j found) pend) (λ _. valid))
]

cancel_entries-IsValid : (m : OrdMap ℕ ℕ) {q : Queue} → IsValid q → IsValid (cancel_entries m q).0
unfolding cancel_entries
cancel_entries-IsValid [] valid = valid
cancel_entries-IsValid ((ts, id) ∷ rest) {q} valid =
    if_intro Keeps (failed (cancel_entry id q).1) (λ _. cancel_entry-IsValid id valid)
      (λ _. cancel_entries-IsValid rest (cancel_entry-IsValid id valid))

pub process_provisional_cancel-IsValid :
    {q : Queue} → IsValid q → IsValid (process_provisional_cancel q).0
unfolding process_provisional_cancel
process_provisional_cancel-IsValid {q} valid =
    let kept = cancel_entries-IsValid q.pending_cancel_provisional valid in
    if_intro Keeps (failed (cancel_entries q.pending_cancel_provisional q).1) (λ _. kept)
      (λ _. same-IsValid _ (record { p = refl; b = refl; v = refl; jobs = refl; n = refl }) kept)

reprio_entries-IsValid :
    (m : OrdMap ℕ (ℕ × ℕ)) {q : Queue} → IsValid q → IsValid (reprio_entries m q).0
unfolding reprio_entries
reprio_entries-IsValid [] valid = valid
reprio_entries-IsValid ((n, (id, p)) ∷ rest) {q} valid =
    if_intro Keeps (failed (reprio_entry id p q).1) (λ _. reprio_entry-IsValid id p valid)
      (λ _. reprio_entries-IsValid rest (reprio_entry-IsValid id p valid))

pub process_provisional_reprio-IsValid :
    {q : Queue} → IsValid q → IsValid (process_provisional_reprio q).0
unfolding process_provisional_reprio
process_provisional_reprio-IsValid {q} valid =
    let kept = reprio_entries-IsValid q.pending_reprio_provisional valid in
    if_intro Keeps (failed (reprio_entries q.pending_reprio_provisional q).1) (λ _. kept)
      (λ _. same-IsValid _ (record { p = refl; b = refl; v = refl; jobs = refl; n = refl }) kept)

end_sched_loop-IsValid : {q : Queue} → IsValid q → IsValid (end_sched_loop q).0
unfolding end_sched_loop
end_sched_loop-IsValid valid =
    process_provisional_reconsider-IsValid
      (process_provisional_cancel-IsValid (process_provisional_reprio-IsValid valid))

-- The end of a scheduling loop, whatever the two puts-off lists do.
pub set_sched_loop_active-IsValid :
    {q : Queue} (active : Bool) → IsValid q → IsValid (set_sched_loop_active active q).0
unfolding set_sched_loop_active
set_sched_loop_active-IsValid {q} active valid =
    if_intro Keeps (q.sched_loop_active && not active) (λ _. end_sched_loop-IsValid begun)
      (λ _. begun)
  where
    begun : IsValid (record q { sched_loop_active = active })
    begun = same-IsValid _ (record { p = refl; b = refl; v = refl; jobs = refl; n = refl }) valid

defer_reprio-IsValid : {q : Queue} (id p : ℕ) → IsValid q → IsValid (defer_reprio id p q).0
unfolding defer_reprio
defer_reprio-IsValid id p valid =
    same-IsValid _ (record { p = refl; b = refl; v = refl; jobs = refl; n = refl }) valid

reprio_or_wait-IsValid : {q : Queue} → IsValid q → IsValid (reprio_or_wait q).0
unfolding reprio_or_wait
reprio_or_wait-IsValid {q} valid =
    if_intro Keeps q.sched_loop_active
      (λ _.
        if_intro Keeps (failed (cancel_sched_loop q).1) (λ _. cancel_sched_loop-IsValid valid)
          (λ _. process_provisional_reprio-IsValid (cancel_sched_loop-IsValid valid)))
      (λ _. process_provisional_reprio-IsValid valid)

reprio_pending-IsValid : {q : Queue} (id p : ℕ) → IsValid q → IsValid (reprio_pending id p q).0
unfolding reprio_pending
reprio_pending-IsValid {q} id p valid =
    if_intro Keeps (defer_reprio id p q).1
      (λ _. reprio_or_wait-IsValid (defer_reprio-IsValid id p valid))
      (λ _. defer_reprio-IsValid id p valid)

pub pending_reprioritize-IsValid :
    {q : Queue} (id p : ℕ) → IsValid q → IsValid (pending_reprioritize id p q).0
unfolding pending_reprioritize
pending_reprioritize-IsValid {q} id p valid = elim (Option-cases (find id q.jobs)) [
  | inl absent ↦ rw (absent, pending_reprioritize) valid
  | inr (j, found) ↦
      rw (found, pending_reprioritize)
        (if_intro Keeps (is_pending j.state) (λ _. reprio_pending-IsValid j.id p valid)
          (λ _. valid))
]
