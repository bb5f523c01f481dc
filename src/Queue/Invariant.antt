-- ===== src/Queue/Invariant.antt =====
-- qmanager/policies/base/queue_policy_base.hpp: the invariant of the pending side of a queue, and
-- what erasing and writing a pending job does to it.
pub mod Steps
pub mod Pop
pub mod Remove
pub mod Running
pub mod Provisional
pub mod Pending
use mathlib.Core.Path.{fun_ext}
use flux_sched.Common.{
  ℕ, ◌≡◌, ◌≢◌, refl, ◌⊎◌, inl, inr, true, false, Option, none, some, if◌then◌else◌, arith,
  Bool-cases, Option-cases,
}
use flux_sched.OrdMap.{same, same_iff, nat_key, find, erase, assign}
use flux_sched.OrdMap.Find.{find-erase, find-assign}
use flux_sched.OrdMap.Order.{IsSorted, erase-IsSorted}
use flux_sched.Queue.Job.{Job, JobState, PendingKey, get_key, is_pending, pending_key}
use flux_sched.Queue.State.{Queue}
use flux_sched.Queue.Pending.{Erased, missing, erase_pending_job, write_job}
use flux_sched.Queue.Ledger.{IsLedger, put, without, IsQuiet, drop_lem, touch_lem}
use flux_sched.Queue.Ledger.Add.{cong_lem, quiet_lem}

-- Each pending job has its entry in one of the three pending queues, each entry is that of a
-- pending job, and the queues are in order.
pub record IsValid (q : Queue) : Type 0 where
  pub ledger :
      IsLedger
        (λ k. find k q.pending)
        (λ k. find k q.blocked)
        (λ k. find k q.pending_provisional)
        (λ i. find i q.jobs)
        q.pq_cnt
  pub sorted_p : IsSorted q.pending
  pub sorted_b : IsSorted q.blocked
  pub sorted_v : IsSorted q.pending_provisional

without_free :
    (f : PendingKey → Option ℕ) (k : PendingKey)
    → f k ≡ none
    → (j : PendingKey) → f j ≡ without f k j
without_free f k h j = ground (arith, same_iff k j, h)

-- The entry under `k` is gone from every pending queue, and nothing else has changed.
pub record Erases (k : PendingKey) (q q' : Queue) : Type 0 where
  pub in_p : (j : PendingKey) → find j q'.pending ≡ without (λ i. find i q.pending) k j
  pub in_b : (j : PendingKey) → find j q'.blocked ≡ without (λ i. find i q.blocked) k j
  pub in_v :
      (j : PendingKey)
      → find j q'.pending_provisional ≡ without (λ i. find i q.pending_provisional) k j
  pub same_jobs : q'.jobs ≡ q.jobs
  pub same_count : q'.pq_cnt ≡ q.pq_cnt
  pub still_p : IsSorted q'.pending
  pub still_b : IsSorted q'.blocked
  pub still_v : IsSorted q'.pending_provisional

module _ {q : Queue} (valid : IsValid q) (k : PendingKey) where
  open valid use {ledger, sorted_p, sorted_b, sorted_v}

  pub erase_p :
      (id : ℕ) → find k q.pending ≡ some id → Erases k q (record q { pending = erase k q.pending })
  erase_p id e = record {
    in_p = λ j. find-erase k j q.pending;
    in_b = without_free (λ i. find i q.blocked) k (ledger.apart_pb k id e);
    in_v = without_free (λ i. find i q.pending_provisional) k (ledger.apart_pv k id e);
    same_jobs = refl;
    same_count = refl;
    still_p = erase-IsSorted k q.pending sorted_p;
    still_b = sorted_b;
    still_v = sorted_v;
  }

  erase_b :
      (id : ℕ)
      → find k q.pending ≡ none
      → find k q.blocked ≡ some id
      → Erases k q (record q { blocked = erase k q.blocked })
  erase_b id free e = record {
    in_p = without_free (λ i. find i q.pending) k free;
    in_b = λ j. find-erase k j q.blocked;
    in_v = without_free (λ i. find i q.pending_provisional) k (ledger.apart_bv k id e);
    same_jobs = refl;
    same_count = refl;
    still_p = sorted_p;
    still_b = erase-IsSorted k q.blocked sorted_b;
    still_v = sorted_v;
  }

  erase_v :
      find k q.pending ≡ none
      → find k q.blocked ≡ none
      → Erases k q (record q { pending_provisional = erase k q.pending_provisional })
  erase_v free free' = record {
    in_p = without_free (λ i. find i q.pending) k free;
    in_b = without_free (λ i. find i q.blocked) k free';
    in_v = λ j. find-erase k j q.pending_provisional;
    same_jobs = refl;
    same_count = refl;
    still_p = sorted_p;
    still_b = sorted_b;
    still_v = erase-IsSorted k q.pending_provisional sorted_v;
  }

-- In a valid state, erase_pending_job finds the entry of any pending job, in whichever queue it
-- stands, and erases that entry and nothing else.
pub erase_pending_job-Erases :
    {q : Queue}
    → IsValid q
    → (id : ℕ) (j : Job) → find id q.jobs ≡ some j
    → is_pending j.state ≡ true
    → Erases (get_key j) q (erase_pending_job (get_key j) q).0
      × ((erase_pending_job (get_key j) q).1 ≢ missing)
unfolding erase_pending_job
erase_pending_job-Erases {q} valid id j found pend =
    elim (Option-cases (find (get_key j) q.pending)) [
      | inr (i, e) ↦ rw (e, erase_pending_job) (erase_p valid (get_key j) i e, λ h. cc)
      | inl free ↦ elim (Option-cases (find (get_key j) q.blocked)) [
        | inr (i, e) ↦ rw (free, e, erase_pending_job) (erase_b valid (get_key j) i free e, λ h. cc)
        | inl free' ↦ elim (Option-cases (find (get_key j) q.pending_provisional)) [
          | inr (i, e) ↦
              rw (free, free', e, erase_pending_job) (erase_v valid (get_key j) free free', λ h. cc)
          | inl free'' ↦ absurd (ground (arith, valid.ledger.stored id j found pend))
        ]
      ]
    ]
