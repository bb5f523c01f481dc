-- ===== src/Queue/Invariant/Remove.antt =====
-- qmanager/policies/base/queue_policy_base.hpp: `remove`, the pops and `reconstruct_queue` keep the
-- invariants.
use Prim.Native.String.{String}
use flux_sched.Common.{
  ℕ, ◌≡◌, refl, true, false, Bool, ◌||◌, none, some, arith, Option-cases, inl, inr, if_intro,
}
use flux_sched.OrdMap.{nat_key, find}
use flux_sched.OrdMap.Find.{find-erase}
use flux_sched.Queue.Job.{Job, JobState, is_pending, pending_key}
use flux_sched.Queue.State.{Queue, Reapi, failed}
use flux_sched.Queue.Pending.{cancel_sched_loop, reconsider_blocked_jobs, set_schedulability}
use flux_sched.Queue.Remove.{complete, after_cancel, release, remove_found, remove_by_state, remove}
use flux_sched.Queue.Frame.{
  Frame, remove_pending-Frame, cancel_sched_loop-Frame, reconsider_blocked_jobs-Frame,
}
use flux_sched.Queue.Invariant.{IsValid}
use flux_sched.Queue.Invariant.Steps.{quiet-IsValid, own_id, schedulable-IsValid}
use flux_sched.Queue.Invariant.Pending.{
  remove_pending-IsValid, cancel_sched_loop-IsValid, reconsider_blocked_jobs-IsValid,
}
use flux_sched.Queue.Invariant.Running.{IsCounted, Frame-IsCounted, erase-Below}

-- Both invariants.
pub record IsSound (q : Queue) : Type 0 where
  pub valid : IsValid q
  pub counted : IsCounted q

abbrev pub Sound {ℓ} : {A : Type ℓ} → Queue × A → Type 0
Sound r = IsSound r.0

-- A call that keeps the pending side and leaves the running side alone.
pub Frame-IsSound : {q q' : Queue} → Frame q q' → IsValid q' → IsSound q → IsSound q'
Frame-IsSound f v s = record { valid = v; counted = Frame-IsCounted f s.counted }

complete-IsSound :
    {q : Queue} (j : Job)
    → find j.id q.jobs ≡ some j
    → is_pending j.state ≡ false
    → IsSound q
    → IsSound (complete j q)
unfolding complete
complete-IsSound {q} j found active s = record {
  valid =
      quiet-IsValid _ s.valid j.id none (λ j' e. ground (arith, found, active))
        (λ j' e. absurd (cc)) (λ i. find-erase j.id i q.jobs) refl refl refl refl;
  counted = record {
    running_lt = erase-Below q.rq_cnt j.t_stamps.running_ts q.running s.counted.running_lt;
    alloced_lt = erase-Below q.rq_cnt j.t_stamps.running_ts q.alloced s.counted.alloced_lt;
    rejected_lt = s.counted.rejected_lt;
  };
}

pub schedulable-IsSound : {q : Queue} (b : Bool) → IsSound q → IsSound (set_schedulability b q)
schedulable-IsSound b s = record {
  valid = schedulable-IsValid b s.valid;
  counted = record {
    running_lt = s.counted.running_lt;
    alloced_lt = s.counted.alloced_lt;
    rejected_lt = s.counted.rejected_lt;
  };
}

after_cancel-IsSound :
    {q : Queue} (j : Job) (full_removal final : Bool)
    → find j.id q.jobs ≡ some j
    → is_pending j.state ≡ false
    → IsSound q
    → IsSound (after_cancel j full_removal final q).0
unfolding after_cancel
after_cancel-IsSound {q} j full_removal final found active s =
    if_intro Sound (full_removal || final)
      (λ _.
        complete-IsSound {q = set_schedulability true q} j found active
          (schedulable-IsSound true s))
      (λ _. schedulable-IsSound true s)

release-IsSound :
    {q : Queue} (api : Reapi) (j : Job) (final : Bool) (r : String)
    → find j.id q.jobs ≡ some j
    → is_pending j.state ≡ false
    → IsSound q
    → IsSound (release api j final r q).0
unfolding release
release-IsSound {q} api j final r found active s =
    if_intro Sound final
      (λ _.
        if_intro Sound (failed (api.cancel j.id true)) (λ _. s)
          (λ _. after_cancel-IsSound j true final found active s))
      (λ _.
        if_intro Sound (failed (api.cancel_partial j.id r true).0) (λ _. s)
          (λ _. after_cancel-IsSound j (api.cancel_partial j.id r true).1 final found active s))

remove_found-IsSound :
    {q : Queue} (api : Reapi) (id : ℕ) (j : Job) (st : JobState) (final : Bool) (r : String)
    → j.state ≡ st
    → find j.id q.jobs ≡ some j
    → IsSound q
    → IsSound (remove_found api id j st final r q).0
unfolding remove_found is_pending
remove_found-IsSound api id j JobState.pending final r e found s =
    Frame-IsSound (remove_pending-Frame _ id) (remove_pending-IsValid id s.valid) s
remove_found-IsSound api id j JobState.running final r e found s =
    release-IsSound api j final r found (rw (e, is_pending)) s
remove_found-IsSound api id j JobState.alloc_running final r e found s =
    release-IsSound api j final r found (rw (e, is_pending)) s
remove_found-IsSound api id j _ final r e found s = s

remove_by_state-IsSound :
    {q : Queue} (api : Reapi) (id : ℕ) (final : Bool) (r : String)
    → IsSound q
    → IsSound (remove_by_state api id final r q).0
unfolding remove_by_state
remove_by_state-IsSound {q} api id final r s = elim (Option-cases (find id q.jobs)) [
  | inl absent ↦ rw (absent, remove_by_state) s
  | inr (j, found) ↦
      rw (found, remove_by_state)
        (remove_found-IsSound api id j j.state final r refl (own_id s.valid id j found) s)
]

pub cancel_sched_loop-IsSound : {q : Queue} → IsSound q → IsSound (cancel_sched_loop q).0
cancel_sched_loop-IsSound {q} s =
    Frame-IsSound (cancel_sched_loop-Frame q) (cancel_sched_loop-IsValid s.valid) s

pub reconsider_blocked_jobs-IsSound : {q : Queue} → IsSound q → IsSound (reconsider_blocked_jobs q)
reconsider_blocked_jobs-IsSound {q} s =
    Frame-IsSound (reconsider_blocked_jobs-Frame q) (reconsider_blocked_jobs-IsValid s.valid) s

pub remove-IsSound :
    {q : Queue} (api : Reapi) (id : ℕ) (final : Bool) (r : String)
    → IsSound q
    → IsSound (remove api id final r q).0
unfolding remove
remove-IsSound api id final r s =
    reconsider_blocked_jobs-IsSound
      (cancel_sched_loop-IsSound (remove_by_state-IsSound api id final r s))
