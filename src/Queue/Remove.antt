-- ===== src/Queue/Remove.antt =====
-- qmanager/policies/base/queue_policy_base.hpp: the release of a job by `remove`. The calls of the
-- resource module are those of the `Reapi` argument.
use Prim.Native.String.{String}
use flux_sched.Common.{Bool, true, none, some, if◌then◌else◌, ◌||◌, ℕ, not, ◌&&◌}
use flux_sched.OrdMap.{find, erase, nat_key}
use flux_sched.Queue.Job.{Job, JobState, incr64}
use flux_sched.Queue.State.{Queue, Rc, ok, err, einval, enoent, eproto, Reapi, failed}
use flux_sched.Queue.Pending.{cancel_sched_loop, reconsider_blocked_jobs, remove_pending}

-- The job leaves the running queues and the table of jobs, which holds it under its id. The stamp
-- and the state COMPLETE that it gets are written to the object that is dropped.
unfoldable pub complete : Job → Queue → Queue
unfolding erase
complete j q = record q {
  alloced = erase j.t_stamps.running_ts q.alloced;
  running = erase j.t_stamps.running_ts q.running;
  cq_cnt = incr64 q.cq_cnt;
  jobs = erase j.id q.jobs;
}

-- What follows a `cancel` of the resource module that succeeded.
unfoldable pub after_cancel : Job → Bool → Bool → Queue → Queue × Rc
unfolding complete
after_cancel j full_removal final q =
    let q' : Queue = record q { schedulable = true } in
    if full_removal || final
    then (complete j q', if full_removal && not final then err eproto else ok)
    else (q', ok)

unfoldable pub release : Reapi → Job → Bool → String → Queue → Queue × Rc
unfolding after_cancel
release api j final r q =
    if final
    then if failed (api.cancel j.id true) then (q, err eproto) else after_cancel j true final q
    else (let (rc, full_removal) = api.cancel_partial j.id r true in
        if failed rc then (q, err einval) else after_cancel j full_removal final q)

-- The `switch` of `remove`; what `remove_pending` returns is dropped.
unfoldable pub remove_found : Reapi → ℕ → Job → JobState → Bool → String → Queue → Queue × Rc
unfolding release remove_pending
remove_found api id j JobState.pending final r q = ((remove_pending id q).0, ok)
remove_found api id j JobState.alloc_running final r q = release api j final r q
remove_found api id j JobState.running final r q = release api j final r q
remove_found api id j _ final r q = (q, ok)

unfoldable pub remove_by_state : Reapi → ℕ → Bool → String → Queue → Queue × Rc
unfolding find remove_found
remove_by_state api id final r q = elim (find id q.jobs) [
  | none ↦ (q, err enoent)
  | some j ↦ remove_found api id j j.state final r q
]

unfoldable pub remove : Reapi → ℕ → Bool → String → Queue → Queue × Rc
unfolding remove_by_state cancel_sched_loop reconsider_blocked_jobs
remove api id final r q =
    let (q', rc) = remove_by_state api id final r q in
    (reconsider_blocked_jobs (cancel_sched_loop q').0, rc)
