-- ===== src/Queue/Behaviour.antt =====
-- qmanager/policies/base/queue_policy_base.hpp: what the operations on one job do to it.
use Prim.Native.String.{String}
use flux_sched.Common.{ℕ, ◌≡◌, ◌≢◌, refl, true, none, some, inl, inr, arith, ap, ◌∙◌, ◌≤◌, ◌<◌, ◌⊎◌}
use flux_sched.OrdMap.{find, nat_key, same_iff}
use flux_sched.OrdMap.Find.{find-erase_self, find-erase}
use flux_sched.Queue.Job.{Job, JobState, pending_key, calc_priority}
use flux_sched.Queue.State.{Queue, Reapi, Rc, ok, Derived, fcfs, backfill}
use flux_sched.Queue.Pending.{
  lookup, process_provisional_reconsider, reconsider_blocked_jobs, cancel_sched_loop,
  cancel_sched_loop_of,
}
use flux_sched.Queue.Remove.{complete, after_cancel, release, remove_found, remove_by_state, remove}
use flux_sched.Queue.Frame.{cancel_sched_loop-Frame, reconsider_blocked_jobs-Frame}
use flux_sched.Queue.Invariant.{IsValid}

-- Of two priorities up to 4294967295, the greater one has the lesser adjusted priority, without
-- wrap-around.
pub calc_priority_antitone : (a b : ℕ) → a < b → b ≤ 4294967295 → calc_priority b < calc_priority a
unfolding calc_priority
calc_priority_antitone a b h k = ground (arith, h, k)

cancel_sched_loop-jobs : (q : Queue) → (cancel_sched_loop q).0.jobs ≡ q.jobs
unfolding cancel_sched_loop cancel_sched_loop_of
cancel_sched_loop-jobs q = by_class q.derived
  where
    by_class : (d : Derived) → (cancel_sched_loop_of q d).0.jobs ≡ q.jobs
    by_class (fcfs f) = ground arith
    by_class (backfill b) = ground arith

reconsider_blocked_jobs-jobs : (q : Queue) → (reconsider_blocked_jobs q).jobs ≡ q.jobs
unfolding reconsider_blocked_jobs process_provisional_reconsider
reconsider_blocked_jobs-jobs q = ground arith

-- The final free of a running job of which the resources are released forgets the job.
module _ (api : Reapi) (q : Queue) (valid : IsValid q) (id : ℕ) (j : Job) (r : String)
    (found : find id q.jobs ≡ some j) (released : api.cancel id true ≡ ok) where
  own : j.id ≡ id
  own = valid.ledger.ids id j found

  release_final : release api j true r q ≡ (complete j (record q { schedulable = true }), ok)
  unfolding release after_cancel
  release_final = rw (own, release, released) refl

  remove_found_final :
      (st : JobState)
      → (st ≡ JobState.running) ⊎ (st ≡ JobState.alloc_running)
      → remove_found api id j st true r q ≡ (complete j (record q { schedulable = true }), ok)
  unfolding remove_found
  remove_found_final st (inl e) = rw e release_final
  remove_found_final st (inr e) = rw e release_final

  remove_by_state_final :
      (j.state ≡ JobState.running) ⊎ (j.state ≡ JobState.alloc_running)
      → remove_by_state api id true r q ≡ (complete j (record q { schedulable = true }), ok)
  unfolding remove_by_state
  remove_by_state_final st = rw (found, remove_by_state) (remove_found_final j.state st)

  -- In a valid state, the final free of a running job whose resources the resource module
  -- releases succeeds, forgets the job and its running entry, and leaves every other job as it
  -- was.
  pub remove-lookup :
      (j.state ≡ JobState.running) ⊎ (j.state ≡ JobState.alloc_running)
      → ((remove api id true r q).1 ≡ ok)
        × (lookup (remove api id true r q).0 id ≡ none)
        × (find j.t_stamps.running_ts (remove api id true r q).0.running ≡ none)
        × ((i : ℕ) → i ≢ id → lookup (remove api id true r q).0 i ≡ lookup q i)
  unfolding remove lookup complete
  remove-lookup st =
      let q1 : Queue = (remove_by_state api id true r q).0 in
      let same_jobs =
        reconsider_blocked_jobs-jobs (cancel_sched_loop q1).0 ∙ cancel_sched_loop-jobs q1 in
      let same_running =
        (reconsider_blocked_jobs-Frame (cancel_sched_loop q1).0).running
        ∙ (cancel_sched_loop-Frame q1).running in
      let e = remove_by_state_final st in
      (
        ap (λ (x : Queue × Rc). x.1) e,
        ap (λ m. find id m) same_jobs
            ∙ ap (λ (x : Queue × Rc). find id x.0.jobs) e
            ∙ rw own (find-erase_self id q.jobs),
        ap (λ m. find j.t_stamps.running_ts m) same_running
            ∙ ap (λ (x : Queue × Rc). find j.t_stamps.running_ts x.0.running) e
            ∙ find-erase_self j.t_stamps.running_ts q.running,
        λ i ne.
            ap (λ m. find i m) same_jobs
            ∙ ap (λ (x : Queue × Rc). find i x.0.jobs) e
            ∙ ground (arith, find-erase j.id i q.jobs, same_iff j.id i, own),
      )
