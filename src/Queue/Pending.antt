-- ===== src/Queue/Pending.antt =====
-- qmanager/policies/base/queue_policy_base.hpp: the pending queues. `cancel_sched_loop` is virtual
-- and is dispatched on the class of the queue; a pointer to a job is the job's id in `m_jobs`.
use flux_sched.Common.{ℕ, Bool, true, false, Option, none, some, if◌then◌else◌, ltb, length}
use flux_sched.OrdMap.{find, insert, erase, count, assign, absorb, leftover, nat_key}
use flux_sched.Queue.Job.{Job, JobState, PendingKey, get_key, incr64, is_pending, pending_key}
use flux_sched.Queue.State.{
  Queue, Derived, fcfs, backfill, Rc, ok, err, einval, enoent, eexist, unchanged, failed,
}

-- queue_policy_base_t::cancel_sched_loop, and the override of queue_policy_bf_base_t, which
-- returns -1 with `errno` as it was.
unfoldable pub cancel_sched_loop_of : Queue → Derived → Queue × Rc
cancel_sched_loop_of q (fcfs f) = if q.sched_loop_active then (q, err einval) else (q, ok)
cancel_sched_loop_of q (backfill b) =
    if q.sched_loop_active
    then (
      record q { derived = backfill (record b { scheduled_cnt = q.queue_depth }) },
      err unchanged,
    )
    else (q, ok)

unfoldable pub cancel_sched_loop : Queue → Queue × Rc
unfolding cancel_sched_loop_of
cancel_sched_loop q = cancel_sched_loop_of q q.derived

-- The job behind a pointer is written in place; `m_jobs` holds a job under its id.
unfoldable pub write_job : ℕ → Job → Queue → Queue
unfolding assign
write_job id j q = record q { jobs = assign id j q.jobs }

abbrev pub set_schedulability : Bool → Queue → Queue
set_schedulability schedulable q = record q { schedulable = schedulable }

unfoldable pub process_provisional_reconsider : Queue → Queue
process_provisional_reconsider q =
    if q.pending_reconsider
    then (record q {
      pending_reconsider = false;
      pending = absorb q.pending q.blocked;
      blocked = leftover q.pending q.blocked;
      schedulable = if ltb 0 (length q.blocked) then true else q.schedulable;
    })
    else q

unfoldable pub reconsider_blocked_jobs : Queue → Queue
unfolding process_provisional_reconsider
reconsider_blocked_jobs q =
    let q' : Queue = record q { pending_reconsider = true } in
    if q.sched_loop_active then q' else process_provisional_reconsider q'

-- `lookup`; a miss is the null pointer.
unfoldable pub lookup : Queue → ℕ → Option Job
lookup q id = find id q.jobs

-- The job as `insert` leaves it: pending, under the next sequence number.
abbrev pub submitted : Queue → Job → Job
submitted q j = record j {
  state = JobState.pending;
  t_stamps = record (j.t_stamps) { pending_ts = q.pq_cnt };
}

unfoldable pub insert_job : Queue → Option Job → Queue × Rc
unfolding insert count
insert_job q none = (q, err einval)
insert_job q (some j) = elim (find j.id q.jobs) [
  | some _ ↦ (q, err einval)
  | none ↦ (
    record q {
      pq_cnt = incr64 q.pq_cnt;
      pending_provisional = (insert (get_key (submitted q j)) j.id q.pending_provisional).0;
      jobs = (insert j.id (submitted q j) q.jobs).0;
      schedulable = true;
    },
    ok,
  )
]

-- Where `erase_pending_job` found the job (`found_in_prov` where provisional); `missing` is its failure with ENOENT.
pub data Erased : Type 0 where
  in_queue in_provisional missing : Erased

unfoldable pub erase_pending_job : PendingKey → Queue → Queue × Erased
unfolding find erase
erase_pending_job k q = elim (find k q.pending) [
  | some _ ↦ (record q { pending = erase k q.pending }, in_queue)
  | none ↦ elim (find k q.blocked) [
    | some _ ↦ (record q { blocked = erase k q.blocked }, in_queue)
    | none ↦ elim (find k q.pending_provisional) [
      | some _ ↦ (record q { pending_provisional = erase k q.pending_provisional }, in_provisional)
      | none ↦ (q, missing)
    ]
  ]
]

unfoldable pub insert_pending_job : Job → Bool → Queue → Queue × Rc
unfolding insert
insert_pending_job j into_provisional q =
    if into_provisional
    then (let (m, fresh) = insert (get_key j) j.id q.pending_provisional in
        (record q { pending_provisional = m }, if fresh then ok else err eexist))
    else (let (m, fresh) = insert (get_key j) j.id q.pending in
        (record q { pending = m }, if fresh then ok else err eexist))

-- The end that `remove_pending` and `process_provisional_cancel` share: the job leaves its pending
-- queue and enters the canceled one.
unfoldable pub enter_canceled : Job → Queue → Queue × Rc
unfolding insert write_job
enter_canceled j q =
    let (m, fresh) = insert j.t_stamps.canceled_ts j.id q.canceled in
    let q' : Queue = write_job j.id (record j { state = JobState.canceled }) q in
    (
      record q' { canceled = m; schedulable = if fresh then true else q.schedulable },
      if fresh then ok else err eexist,
    )

unfoldable pub cancel_erased : Erased → Job → Queue → Queue × Rc
unfolding enter_canceled
cancel_erased missing j q = (q, err enoent)
cancel_erased _ j q = enter_canceled j q

unfoldable pub cancel_now : Job → Queue → Queue × Rc
unfolding erase_pending_job cancel_erased
cancel_now j q = let (q', found) = erase_pending_job (get_key j) q in cancel_erased found j q'

-- The stamp that `remove_pending` gives the job first.
abbrev pub stamped : Queue → Job → Job
stamped q j = record j { t_stamps = record (j.t_stamps) { canceled_ts = q.cancel_cnt } }

unfoldable pub defer_cancel : Job → Queue → Queue × Rc
unfolding insert
defer_cancel j q =
    let (m, fresh) = insert j.t_stamps.canceled_ts j.id q.pending_cancel_provisional in
    (record q { pending_cancel_provisional = m }, if fresh then ok else err eexist)

unfoldable pub cancel_or_defer : Job → Queue → Queue × Rc
unfolding cancel_sched_loop cancel_now defer_cancel
cancel_or_defer j q =
    if q.sched_loop_active
    then (let (q', rc) = cancel_sched_loop q in
        if failed rc then defer_cancel j q' else cancel_now j q')
    else cancel_now j q

abbrev pub stamp_job : ℕ → Job → Queue → Queue
stamp_job id j q = record (write_job id (stamped q j) q) { cancel_cnt = incr64 q.cancel_cnt }

unfoldable pub remove_pending : ℕ → Queue → Queue × Rc
unfolding find cancel_or_defer write_job is_pending
remove_pending id q = elim (find id q.jobs) [
  | none ↦ (q, err einval)
  | some j ↦
      if is_pending j.state
      then cancel_or_defer (stamped q j) (stamp_job id j q)
      else (q, err einval)
]
