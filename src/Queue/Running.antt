-- ===== src/Queue/Running.antt =====
-- qmanager/policies/base/queue_policy_base.hpp: a pending job starts or is rejected, and a running
-- job is taken up again after a restart. The iterator that a transition returns is the key of
-- the element after the one that it erases.
use Prim.Native.String.{String}
use flux_sched.Common.{Bool, true, false, Option, none, some, if◌then◌else◌}
use flux_sched.OrdMap.{find, insert, erase, next, nat_key}
use flux_sched.Queue.Job.{Job, JobState, PendingKey, incr64, pending_key}
use flux_sched.Queue.State.{Queue, Rc, ok, err, einval, enomem, Reapi}
use flux_sched.Queue.Pending.{write_job}

-- The job under its next sequence number, in the state that `to_running` gives it.
abbrev pub started : Queue → Bool → Job → Job
started q use_alloced j = record j {
  state = if use_alloced then JobState.alloc_running else JobState.running;
  t_stamps = record (j.t_stamps) { running_ts = q.rq_cnt };
}

-- The end of `to_running` and `to_rejected`: `return m_pending.erase (pending_iter)`.
unfoldable pub leave_pending : PendingKey → Queue → Queue × Option PendingKey
unfolding erase next
leave_pending k q = (record q { pending = erase k q.pending }, next k q.pending)

unfoldable pub enter_alloced : PendingKey → Bool → Job → Queue → Queue × Option PendingKey
unfolding insert leave_pending
enter_alloced k use_alloced j q =
    if use_alloced
    then (let (m, fresh) = insert j.t_stamps.running_ts j.id q.alloced in
        if fresh then leave_pending k (record q { alloced = m; scheduled = true }) else (q, some k))
    else leave_pending k q

-- A failure of the first `insert` leaves the job in the state RUNNING.
unfoldable pub enter_running : PendingKey → Bool → Job → Queue → Queue × Option PendingKey
unfolding insert enter_alloced write_job
enter_running k use_alloced j q =
    let (m, fresh) = insert q.rq_cnt j.id q.running in
    let q' : Queue = record q { rq_cnt = incr64 q.rq_cnt; running = m } in
    if fresh
    then enter_alloced k use_alloced (started q use_alloced j)
        (write_job j.id (started q use_alloced j) q')
    else (write_job j.id (started q false j) q', some k)

unfoldable pub to_running : PendingKey → Bool → Queue → Queue × Option PendingKey
unfolding find enter_running
to_running k use_alloced q = elim (find k q.pending) [
  | none ↦ (q, some k)
  | some id ↦ elim (find id q.jobs) [
    | none ↦ (q, some k)
    | some j ↦ enter_running k use_alloced j q
  ]
]

abbrev pub refused : Queue → String → Job → Job
refused q note j = record j {
  state = JobState.rejected;
  note = note;
  t_stamps = record (j.t_stamps) { rejected_ts = q.dq_cnt };
}

unfoldable pub enter_rejected : PendingKey → String → Job → Queue → Queue × Option PendingKey
unfolding insert leave_pending write_job
enter_rejected k note j q =
    let (m, fresh) = insert q.dq_cnt j.id q.rejected in
    let q' : Queue =
      write_job j.id (refused q note j) (record q { dq_cnt = incr64 q.dq_cnt; rejected = m }) in
    if fresh then leave_pending k (record q' { scheduled = true }) else (q', some k)

unfoldable pub to_rejected : PendingKey → String → Queue → Queue × Option PendingKey
unfolding find enter_rejected
to_rejected k note q = elim (find k q.pending) [
  | none ↦ (q, some k)
  | some id ↦ elim (find id q.jobs) [ none ↦ (q, some k) | some j ↦ enter_rejected k note j q ]
]

-- The job as `reconstruct_queue` enters it, in the state that its caller gave it.
abbrev pub resumed : Queue → Job → Job
resumed q j = record j { t_stamps = record (j.t_stamps) { running_ts = q.rq_cnt } }

unfoldable pub reconstruct_queue : Option Job → Queue → Queue × Rc
unfolding find insert
reconstruct_queue none q = (q, err einval)
reconstruct_queue (some j) q = elim (find j.id q.jobs) [
  | some _ ↦ (q, err einval)
  | none ↦
      let (m, fresh) = insert q.rq_cnt j.id q.running in
      let q' : Queue = record q { rq_cnt = incr64 q.rq_cnt } in
      if fresh
      then (record q' { running = m; jobs = (insert j.id (resumed q j) q.jobs).0 }, ok)
      else (q', err enomem)
]

unfoldable pub resume : Rc → Job → Queue → Queue × Rc
unfolding reconstruct_queue
resume (err e) j q = (q, err e)
resume ok j q = reconstruct_queue (some j) q

-- `update_allocate` writes to the schedule of the job and to the string `R_out`.
unfoldable pub reconstruct : Reapi → Job → Queue → Queue × Rc × String
unfolding resume
reconstruct api j q =
    let (rc, r_out, at, ov) = api.update_allocate j.id j.schedule.r j.schedule.at j.schedule.ov in
    let j' : Job = record j { schedule = record (j.schedule) { at = at; ov = ov } } in
    let (q', rc') = resume rc j' q in (q', rc', r_out)
