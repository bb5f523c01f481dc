-- ===== src/Queue/Invariant/Pop.antt =====
-- qmanager/policies/base/queue_policy_base.hpp: the pops and `reconstruct_queue` keep the
-- invariants.
use flux_sched.Common.{
  ℕ, ◌+◌, ◌≡◌, refl, ◌<◌, true, false, none, some, arith, subst, Option-cases, inl, inr, [], ◌∷◌,
}
use flux_sched.OrdMap.{OrdMap, same_refl, nat_key, find, erase, Key}
use flux_sched.OrdMap.Find.{find-add, insert_fresh, find-erase}
use flux_sched.Queue.Job.{Job, get_key, is_pending, pending_key, u64_mod}
use flux_sched.Queue.State.{Queue}
use flux_sched.Queue.Pop.{first_id, first_job, pending_pop, alloced_pop, rejected_pop}
use flux_sched.Queue.Running.{resumed, reconstruct_queue}
use flux_sched.Queue.Invariant.{erase_p}
use flux_sched.Queue.Invariant.Steps.{quiet-IsValid, drop-IsValid, same-IsValid}
use flux_sched.Queue.Invariant.Running.{fresh_of_Below, add-Below, erase-Below}
use flux_sched.Queue.Invariant.Remove.{IsSound}

find_first {ℓ} :
    {K : Type ℓ} ⦃o : Key K⦄ (m : OrdMap K ℕ) (id : ℕ)
    → first_id m ≡ some id
    → (k : K) × (find k m ≡ some id)
unfolding find
find_first [] id e = absurd (cc)
find_first ((k, i) ∷ m) id e = (k, ground (arith, same_refl k, e))

first_job_lem {ℓ} :
    {K : Type ℓ} (m : OrdMap K ℕ) (q : Queue) (id : ℕ) (j : Job)
    → first_job m q ≡ some (id, j)
    → (first_id m ≡ some id) × (find id q.jobs ≡ some j)
first_job_lem m q id j e = ground arith

pub pending_pop-IsSound : {q : Queue} → IsSound q → IsSound (pending_pop q).0
unfolding pending_pop
pending_pop-IsSound {q} s = elim (Option-cases (first_job q.pending q)) [
  | inl empty ↦ rw (empty, pending_pop) s
  | inr ((id, j), e) ↦
      let (first, found) = first_job_lem q.pending q id j e in
      let (k, listed) = find_first q.pending id first in
      let (j', e', pend, g) = s.valid.ledger.listed_p k id listed in
      let same_job : j' ≡ j = ground (arith, e', found) in
      let key : get_key j ≡ k = subst (λ x. get_key x ≡ k) same_job g in
      rw (e, pending_pop)
        (record {
          valid =
              drop-IsValid (record q { pending = erase (get_key j) q.pending }) _ s.valid id j none
                found (subst (λ x. is_pending x.state ≡ true) same_job pend) (λ j1 e1. absurd (cc))
                (erase_p s.valid (get_key j) id (rw key listed)) (λ i. find-erase id i q.jobs) refl
                refl refl refl;
          counted = record {
            running_lt = s.counted.running_lt;
            alloced_lt = s.counted.alloced_lt;
            rejected_lt = s.counted.rejected_lt;
          };
        })
]

pub alloced_pop-IsSound : {q : Queue} → IsSound q → IsSound (alloced_pop q).0
unfolding alloced_pop
alloced_pop-IsSound {q} s = elim (Option-cases (first_job q.alloced q)) [
  | inl empty ↦ rw (empty, alloced_pop) s
  | inr ((id, j), e) ↦
      rw (e, alloced_pop)
        (record {
          valid =
              same-IsValid _ (record { p = refl; b = refl; v = refl; jobs = refl; n = refl })
                s.valid;
          counted = record {
            running_lt = s.counted.running_lt;
            alloced_lt = erase-Below q.rq_cnt j.t_stamps.running_ts q.alloced s.counted.alloced_lt;
            rejected_lt = s.counted.rejected_lt;
          };
        })
]

pub rejected_pop-IsSound : {q : Queue} → IsSound q → IsSound (rejected_pop q).0
unfolding rejected_pop
rejected_pop-IsSound {q} s = elim (Option-cases (first_job q.rejected q)) [
  | inl empty ↦ rw (empty, rejected_pop) s
  | inr ((id, j), e) ↦
      rw (e, rejected_pop)
        (record {
          valid =
              same-IsValid _ (record { p = refl; b = refl; v = refl; jobs = refl; n = refl })
                s.valid;
          counted = record {
            running_lt = s.counted.running_lt;
            alloced_lt = s.counted.alloced_lt;
            rejected_lt =
                erase-Below q.dq_cnt j.t_stamps.rejected_ts q.rejected s.counted.rejected_lt;
          };
        })
]

pub reconstruct_queue-IsSound :
    {q : Queue} (j : Job)
    → is_pending j.state ≡ false
    → q.rq_cnt + 1 < u64_mod
    → IsSound q
    → IsSound (reconstruct_queue (some j) q).0
unfolding reconstruct_queue
reconstruct_queue-IsSound {q} j active small s = elim (Option-cases (find j.id q.jobs)) [
  | inr (i, known) ↦ rw (known, reconstruct_queue) s
  | inl absent ↦
      rw
        (
          absent,
          reconstruct_queue,
          insert_fresh q.rq_cnt j.id q.running
              (fresh_of_Below q.rq_cnt q.running s.counted.running_lt),
          insert_fresh j.id (resumed q j) q.jobs absent,
        )
        (record {
          valid =
              quiet-IsValid _ s.valid j.id (some (resumed q j)) (λ j' e. ground (arith, absent, e))
                (λ j' e. ground (arith, active, e))
                (λ i. find-add j.id i (resumed q j) q.jobs absent) refl refl refl refl;
          counted = record {
            running_lt = add-Below q.rq_cnt j.id q.running s.counted.running_lt small;
            alloced_lt = λ ts i e. omega (arith, s.counted.alloced_lt ts i e);
            rejected_lt = s.counted.rejected_lt;
          };
        })
]
