-- ===== src/Queue/Stuck.antt =====
-- qmanager/policies/base/queue_policy_base.hpp: a deferred cancellation of a job that is gone by the time
-- that the loop ends.
use flux_sched.Common.{
  ℕ, ◌≡◌, refl, subst, ◌∙◌, true, false, Bool, none, some, if◌then◌else◌, arith, [], ◌∷◌, inl, inr,
  Bool-cases, Option-cases,
}
use flux_sched.OrdMap.{OrdMap, nat_key, same, find, assign}
use flux_sched.Queue.Job.{Job, PendingKey, get_key, is_pending, pending_key}
use flux_sched.Queue.State.{Queue, Rc, ok, failed}
use flux_sched.Queue.Pending.{
  Erased, in_queue, in_provisional, missing, erase_pending_job, enter_canceled, cancel_erased,
  cancel_now,
}
use flux_sched.Queue.Provisional.{cancel_entry, cancel_entries, process_provisional_cancel}

find-assign_absent :
    (i j : ℕ) (v : Job) (m : OrdMap ℕ Job) → find i m ≡ none → find i (assign j v m) ≡ none
unfolding find assign
find-assign_absent i j v [] e = refl
find-assign_absent i j v ((k, w) ∷ m) e = ground (arith, e, find-assign_absent i j v m)

clash : {b : Bool} → b ≡ false → b ≡ true → ⊥
clash e h = cc

module _ (id : ℕ) where
  -- The deferred cancellations are the same, and no job has come under the id.
  record Keeps (q q' : Queue) : Type 0 where
    pub same_list : q'.pending_cancel_provisional ≡ q.pending_cancel_provisional
    pub still_gone : find id q.jobs ≡ none → find id q'.jobs ≡ none

  erase-Keeps : (k : PendingKey) (q : Queue) → Keeps q (erase_pending_job k q).0
  unfolding erase_pending_job
  erase-Keeps k q = ground arith

  enter_canceled-Keeps : (j : Job) (q : Queue) → Keeps q (enter_canceled j q).0
  unfolding enter_canceled
  enter_canceled-Keeps j q = record {
    same_list = refl;
    still_gone = find-assign_absent id j.id _ q.jobs;
  }

  cancel_erased-Keeps : (e : Erased) (j : Job) (q : Queue) → Keeps q (cancel_erased e j q).0
  unfolding cancel_erased
  cancel_erased-Keeps missing j q = record { same_list = refl; still_gone = λ h. h }
  cancel_erased-Keeps in_queue j q = enter_canceled-Keeps j q
  cancel_erased-Keeps in_provisional j q = enter_canceled-Keeps j q

  Keeps-trans : {q r s : Queue} → Keeps q r → Keeps r s → Keeps q s
  Keeps-trans a b = record {
    same_list = b.same_list ∙ a.same_list;
    still_gone = λ h. b.still_gone (a.still_gone h);
  }

  cancel_entry-Keeps : (i : ℕ) (q : Queue) → Keeps q (cancel_entry i q).0
  unfolding cancel_entry cancel_now
  cancel_entry-Keeps i q = elim (Option-cases (find i q.jobs)) [
    | inl e ↦ rw (e, cancel_entry) (record { same_list = refl; still_gone = λ h. h })
    | inr (j, e) ↦ rw (e, cancel_entry) (by_state j (is_pending j.state))
  ]
    where
      by_state : (j : Job) (b : Bool) → Keeps q (if b then cancel_now j q else (q, ok)).0
      by_state j true = Keeps-trans (erase-Keeps (get_key j) q) (
          cancel_erased-Keeps (erase_pending_job (get_key j) q).1 j
            (erase_pending_job (get_key j) q).0)
      by_state j false = record { same_list = refl; still_gone = λ h. h }

  abbrev Fails : Queue → Queue × Rc → Type 0
  Fails q r = (failed r.1 ≡ true) × Keeps q r.0

  Fails-back : {q q' : Queue} (r : Queue × Rc) → Keeps q q' → Fails q' r → Fails q r
  Fails-back r a (f, b) = (f, Keeps-trans a b)

  gone_fails : (k : ℕ) (q : Queue) → find k q.jobs ≡ none → failed (cancel_entry k q).1 ≡ true
  unfolding cancel_entry
  gone_fails k q h = rw (h, cancel_entry) refl

  cancel_entries-Fails :
      (ts : ℕ) (m : OrdMap ℕ ℕ) (q : Queue)
      → find ts m ≡ some id
      → find id q.jobs ≡ none
      → Fails q (cancel_entries m q)
  unfolding cancel_entries find
  cancel_entries-Fails ts [] q e gone = cc
  cancel_entries-Fails ts ((t, i) ∷ m) q e gone = elim (Bool-cases (failed (cancel_entry i q).1)) [
    | inl stops ↦ rw (stops, cancel_entries) (stops, cancel_entry-Keeps i q)
    | inr goes_on ↦
        rw (goes_on, cancel_entries)
          (Fails-back (cancel_entries m (cancel_entry i q).0) (cancel_entry-Keeps i q) (
            cancel_entries-Fails ts m (cancel_entry i q).0 (further goes_on)
              ((cancel_entry-Keeps i q).still_gone gone)))
  ]
    where
      further : failed (cancel_entry i q).1 ≡ false → find ts m ≡ some id
      further goes_on = elim (Bool-cases (same t ts)) [
        | inl here ↦ absurd (
            clash goes_on (
              gone_fails i q
                (subst (λ (k : ℕ). find k q.jobs ≡ none) (ground (arith, here, e)) gone)))
        | inr elsewhere ↦ ground (arith, elsewhere, e)
      ]

-- Where one of the deferred cancellations, at whichever place, names a job that is gone,
-- process_provisional_cancel fails, the list of deferred cancellations stays whole, and the job
-- stays gone, so that the next call fails in the same way.
pub process_provisional_cancel-stuck :
    (q : Queue) (ts id : ℕ)
    → find ts q.pending_cancel_provisional ≡ some id
    → find id q.jobs ≡ none
    → let (q', rc) = process_provisional_cancel q in
      (failed rc ≡ true)
      × (q'.pending_cancel_provisional ≡ q.pending_cancel_provisional)
      × (find id q'.jobs ≡ none)
unfolding process_provisional_cancel
process_provisional_cancel-stuck q ts id e gone =
    let (f, k) = cancel_entries-Fails id ts q.pending_cancel_provisional q e gone in
    rw f (f, k.same_list, k.still_gone gone)
