-- ===== src/Manager/Settled.antt =====
-- qmanager/modules/qmanager_callbacks.cpp: requests on a job that is unknown or no longer pending.
use flux_sched.Common.{ℕ, ◌≡◌, refl, ap, false, List, [], ◌∷◌, Option, none, some}
use flux_sched.OrdMap.{nat_key}
use flux_sched.Queue.Job.{Job, is_pending, calc_priority}
use flux_sched.Queue.State.{Queue, Rc}
use flux_sched.Queue.Pending.{lookup}
use flux_sched.Queue.Provisional.{pending_reprioritize}
use flux_sched.Manager.{
  Queues, at_job, cancel_if_pending, jobmanager_cancel_cb, ends_loop, jobmanager_prioritize_cb,
}

-- The first queue that knows the job has it in a state other than pending, or no queue knows it.
abbrev pub NotPending : Option Job → Type 0 → Type 0
NotPending none others = others
NotPending (some j) others = is_pending j.state ≡ false

abbrev pub IsSettled : ℕ → Queues → Type 0
IsSettled id [] = Unit
IsSettled id ((n, q) ∷ qs) = NotPending (lookup q id) (IsSettled id qs)

module _ (id : ℕ) (f : Queue → Queue × Rc)
    (idle : (q : Queue) (j : Job)
      → lookup q id ≡ some j
      → is_pending j.state ≡ false
      → ((f q).0 ≡ q) × (ends_loop (f q).1 ≡ false)) where
  at_job-IsSettled :
      (qs : Queues)
      → IsSettled id qs
      → ((at_job id f qs).0 ≡ qs) × (ends_loop (at_job id f qs).1 ≡ false)
  unfolding at_job
  at_job-IsSettled [] s = (refl, refl)
  at_job-IsSettled ((n, q) ∷ qs) s = by_job (lookup q id) refl s (at_job-IsSettled qs)
    where
      by_job :
          (o : Option Job)
          → lookup q id ≡ o
          → NotPending o (IsSettled id qs)
          → (IsSettled id qs → ((at_job id f qs).0 ≡ qs) × (ends_loop (at_job id f qs).1 ≡ false))
          → ((elim o as (λ _. Queues × Rc) [
            | none ↦ ((n, q) ∷ (at_job id f qs).0, (at_job id f qs).1)
            | some _ ↦ ((n, (f q).0) ∷ qs, (f q).1)
          ]).0
              ≡ (n, q) ∷ qs)
            × (ends_loop
                  (elim o as (λ _. Queues × Rc) [
                    | none ↦ ((n, q) ∷ (at_job id f qs).0, (at_job id f qs).1)
                    | some _ ↦ ((n, (f q).0) ∷ qs, (f q).1)
                  ]).1
                ≡ false)
      by_job none e t rest = let (same, rc) = rest t in (ap (λ (x : Queues). (n, q) ∷ x) same, rc)
      by_job (some j) e t rest =
          let (same, rc) = idle q j e t in (ap (λ (x : Queue). (n, x) ∷ qs) same, rc)

reprioritize-idle :
    (id p : ℕ) (q : Queue) (j : Job)
    → lookup q id ≡ some j
    → is_pending j.state ≡ false
    → ((pending_reprioritize id p q).0 ≡ q) × (ends_loop (pending_reprioritize id p q).1 ≡ false)
unfolding pending_reprioritize lookup
reprioritize-idle id p q j e st = rw (e, pending_reprioritize) (rw st (refl, refl))

cancel-idle :
    (id : ℕ) (q : Queue) (j : Job)
    → lookup q id ≡ some j
    → is_pending j.state ≡ false
    → ((cancel_if_pending id q).0 ≡ q) × (ends_loop (cancel_if_pending id q).1 ≡ false)
unfolding cancel_if_pending
cancel-idle id q j e st = rw (e, cancel_if_pending) (rw st (refl, refl))

-- Where no queue knows a job, or the first queue that knows it has it in a state other than
-- pending, jobmanager_prioritize_cb skips the entry of that job without effect and goes on with the
-- entries after it, and jobmanager_cancel_cb leaves all queues as they are.
pub jobmanager_prioritize_cb-IsSettled :
    (id p : ℕ) (l : List (Option (ℕ × ℕ))) (qs : Queues)
    → IsSettled id qs
    → (jobmanager_prioritize_cb (some (id, p) ∷ l) qs ≡ jobmanager_prioritize_cb l qs)
      × (jobmanager_cancel_cb (some id) qs ≡ qs)
unfolding jobmanager_prioritize_cb jobmanager_cancel_cb
jobmanager_prioritize_cb-IsSettled id p l qs s =
    let f : Queue → Queue × Rc = pending_reprioritize id (calc_priority p) in
    let (same, goes_on) = at_job-IsSettled id f (reprioritize-idle id (calc_priority p)) qs s in
    (
      rw goes_on (ap (jobmanager_prioritize_cb l) same),
      (at_job-IsSettled id (cancel_if_pending id) (cancel-idle id) qs s).0,
    )
