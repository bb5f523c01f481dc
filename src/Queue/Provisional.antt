-- ===== src/Queue/Provisional.antt =====
-- qmanager/policies/base/queue_policy_base.hpp: what is put off while a scheduling loop is active,
-- and done when it ends.
use flux_sched.Common.{ℕ, ◌+◌, Bool, true, false, [], ◌∷◌, none, some, if◌then◌else◌, ◌&&◌, not}
use flux_sched.OrdMap.{OrdMap, find, insert, nat_key}
use flux_sched.Queue.Job.{Job, get_key, incr64, is_pending}
use flux_sched.Queue.State.{Queue, Rc, ok, err, einval, enoent, eexist, failed}
use flux_sched.Queue.Pending.{
  Erased, in_queue, in_provisional, missing, cancel_now, cancel_sched_loop, erase_pending_job,
  insert_pending_job, process_provisional_reconsider, reconsider_blocked_jobs, set_schedulability,
  write_job,
}

-- The body of the loop of `process_provisional_cancel`.
unfoldable pub cancel_entry : ℕ → Queue → Queue × Rc
unfolding find cancel_now is_pending
cancel_entry id q = elim (find id q.jobs) [
  | none ↦ (q, err enoent)
  | some j ↦ if is_pending j.state then cancel_now j q else (q, ok)
]

unfoldable pub cancel_entries : OrdMap ℕ ℕ → Queue → Queue × Rc
cancel_entries [] q = (q, ok)
cancel_entries ((ts, id) ∷ rest) q =
    let (q', rc) = cancel_entry id q in
    let later = cancel_entries rest q' in if failed rc then (q', rc) else later

-- The entries are dropped only where all went well.
unfoldable pub process_provisional_cancel : Queue → Queue × Rc
unfolding cancel_entries
process_provisional_cancel q =
    let (q', rc) = cancel_entries q.pending_cancel_provisional q in
    if failed rc then (q', rc) else (record q' { pending_cancel_provisional = [] }, ok)

abbrev pub with_priority : ℕ → Job → Job
with_priority p j = record j { priority = p }

-- The job, under its new priority, goes back among the pending or the provisional jobs.
unfoldable pub reenter : Job → Bool → Queue → Queue × Rc
unfolding insert_pending_job reconsider_blocked_jobs write_job
reenter j into_provisional q =
    let (q', rc) = insert_pending_job j into_provisional (write_job j.id j q) in
    if failed rc then (q', rc) else (reconsider_blocked_jobs (set_schedulability true q'), ok)

unfoldable pub reenter_erased : Erased → Job → Queue → Queue × Rc
unfolding reenter
reenter_erased missing j q = (q, err enoent)
reenter_erased in_provisional j q = reenter j true q
reenter_erased in_queue j q = reenter j false q

unfoldable pub move_entry : Job → ℕ → Queue → Queue × Rc
unfolding erase_pending_job reenter_erased
move_entry j p q =
    let (q', found) = erase_pending_job (get_key j) q in reenter_erased found (with_priority p j) q'

-- The body of the loop of `process_provisional_reprio`.
unfoldable pub reprio_entry : ℕ → ℕ → Queue → Queue × Rc
unfolding find move_entry is_pending
reprio_entry id p q = elim (find id q.jobs) [
  | none ↦ (q, err enoent)
  | some j ↦ if is_pending j.state then move_entry j p q else (q, ok)
]

unfoldable pub reprio_entries : OrdMap ℕ (ℕ × ℕ) → Queue → Queue × Rc
reprio_entries [] q = (q, ok)
reprio_entries ((n, (id, p)) ∷ rest) q =
    let (q', rc) = reprio_entry id p q in
    let later = reprio_entries rest q' in if failed rc then (q', rc) else later

unfoldable pub process_provisional_reprio : Queue → Queue × Rc
unfolding reprio_entries
process_provisional_reprio q =
    let (q', rc) = reprio_entries q.pending_reprio_provisional q in
    if failed rc then (q', rc) else (record q' { pending_reprio_provisional = [] }, ok)

abbrev failures : Rc → ℕ
failures ok = 0
failures (err _) = 1

-- What `set_sched_loop_active` does at the end of a loop.
unfoldable pub end_sched_loop : Queue → Queue × ℕ
unfolding process_provisional_reprio process_provisional_cancel process_provisional_reconsider
end_sched_loop q =
    let (q1, rc1) = process_provisional_reprio q in
    let (q2, rc2) = process_provisional_cancel q1 in
    (process_provisional_reconsider q2, failures rc1 + failures rc2)

-- The number that `set_sched_loop_active` returns is the negative of the second component.
unfoldable pub set_sched_loop_active : Bool → Queue → Queue × ℕ
unfolding end_sched_loop
set_sched_loop_active active q =
    let q' : Queue = record q { sched_loop_active = active } in
    if q.sched_loop_active && not active then end_sched_loop q' else (q', 0)

unfoldable pub defer_reprio : ℕ → ℕ → Queue → Queue × Bool
unfolding insert
defer_reprio id p q =
    let (m, fresh) = insert q.reprio_cnt (id, p) q.pending_reprio_provisional in
    (record q { pending_reprio_provisional = m; reprio_cnt = incr64 q.reprio_cnt }, fresh)

unfoldable pub reprio_or_wait : Queue → Queue × Rc
unfolding cancel_sched_loop process_provisional_reprio
reprio_or_wait q =
    if q.sched_loop_active
    then (let (q', rc) = cancel_sched_loop q in
        if failed rc then (q', ok) else process_provisional_reprio q')
    else process_provisional_reprio q

unfoldable pub reprio_pending : ℕ → ℕ → Queue → Queue × Rc
unfolding defer_reprio reprio_or_wait
reprio_pending id p q =
    let (q', fresh) = defer_reprio id p q in if fresh then reprio_or_wait q' else (q', err eexist)

unfoldable pub pending_reprioritize : ℕ → ℕ → Queue → Queue × Rc
unfolding find reprio_pending is_pending
pending_reprioritize id p q = elim (find id q.jobs) [
  | none ↦ (q, err enoent)
  | some j ↦ if is_pending j.state then reprio_pending j.id p q else (q, err einval)
]
