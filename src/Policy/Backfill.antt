-- ===== src/Policy/Backfill.antt =====
-- qmanager/policies/queue_policy_bf_base_impl.hpp: the loop of the backfill policies (easy, hybrid,
-- conservative). Each job is matched by a call of its own, and the answer starts the next one.
use flux_sched.Common.{
  ℕ, ◌+◌, ◌%◌, ◌^◌, Bool, true, false, not, ◌&&◌, ◌||◌, [], ◌∷◌, Option, none, some, if◌then◌else◌,
  ltb, leb, ◌==◌, is_some, ◌-◌,
}
use flux_sched.OrdMap.{OrdMap, find, insert, erase, begin, next, absorb, nat_key}
use flux_sched.Queue.Job.{Job, JobSelection, PendingKey, Schedule, incr64, pending_key}
use flux_sched.Queue.State.{
  Queue, Backfill, backfill, Errno, Rc, ok, err, einval, enoent, enomem, ebusy, enodata, fault,
  unchanged, Reapi, failed,
}
use flux_sched.Queue.Pending.{set_schedulability, write_job}
use flux_sched.Queue.Provisional.{set_sched_loop_active}
use flux_sched.Queue.Running.{to_running, to_rejected}
use flux_sched.Policy.Fcfs.{Match, is_reserved, reject_note}

-- `int` counters, as 32-bit patterns.
abbrev pub incr32 : ℕ → ℕ
incr32 n = (n + 1) % 2 ^ 32

abbrev pub decr32 : ℕ → ℕ
decr32 n = (n + 2 ^ 32 - 1) % 2 ^ 32

-- `n > 0` of an `int`.
abbrev pub is_positive32 : ℕ → Bool
is_positive32 n = ltb 0 n && ltb n (2 ^ 31)

abbrev pub set_backfill : Backfill → Queue → Queue
set_backfill b q = record q { derived = backfill b }

-- One call of `cancel` for each reserved job; the number that fail is the negative of the result.
unfoldable pub cancel_each : Reapi → OrdMap ℕ ℕ → ℕ
cancel_each api [] = 0
cancel_each api ((n, id) ∷ m) = (if failed (api.cancel id false) then 1 else 0) + cancel_each api m

abbrev pub reached_depth : Backfill → Queue → Bool
reached_depth b q = leb q.queue_depth b.scheduled_cnt

abbrev pub reached_end : Backfill → Bool
reached_end b = not (is_some b.in_progress_iter)

-- The loop is over.
unfoldable pub finish_loop : Backfill → Queue → Queue
unfolding set_sched_loop_active
finish_loop b q =
    let q' : Queue = (set_sched_loop_active false q).0 in
    if reached_depth b q && not (reached_end b) && q'.scheduled
    then set_schedulability true q'
    else q'

abbrev pub try_job : Backfill → Backfill
try_job b = record b { try_reserve = ltb b.reservation_cnt b.reservation_depth }

unfoldable pub match_job : Reapi → Backfill → Job → Queue → Queue × Rc
match_job api b j q =
    let q' : Queue = set_backfill (try_job b) q in
    if api.json_loads j.jobspec
    then (q', api.match_allocate_multi (try_job b).try_reserve (j.id ∷ []))
    else (q', err enomem)

-- The job at the iterator; `none` where the code would read through an invalid one.
abbrev pub job_in_progress : Backfill → Queue → Option Job
job_in_progress b q = elim b.in_progress_iter [
  | none ↦ none
  | some k ↦ elim (find k q.pending) [ none ↦ none | some id ↦ find id q.jobs ]
]

unfoldable pub next_match_iter : Reapi → Backfill → Queue → Queue × Rc
unfolding find finish_loop match_job
next_match_iter api b q =
    if reached_end b || reached_depth b q
    then (finish_loop b (set_backfill b q), ok)
    else elim (job_in_progress b q) [
      | none ↦ (set_backfill b q, err fault)
      | some j ↦ match_job api b j q
    ]

abbrev pub first_job : Backfill → Queue → Backfill
first_job b q = record b {
  in_progress_iter = begin (absorb q.pending q.pending_provisional);
  reservation_cnt = 0;
  scheduled_cnt = 0;
}

abbrev pub take_provisional : Queue → Queue
take_provisional q = record q {
  pending = absorb q.pending q.pending_provisional;
  pending_provisional = [];
}

unfoldable pub allocate_orelse_reserve_jobs : Reapi → Backfill → Queue → Queue × Rc
unfolding absorb begin next_match_iter set_sched_loop_active
allocate_orelse_reserve_jobs api b q =
    if q.sched_loop_active
    then (q, ok)
    else next_match_iter api (first_job b q) (set_sched_loop_active true (take_provisional q)).0

unfoldable pub run_sched_loop_bf : Reapi → Backfill → Queue → Queue × Rc
unfolding cancel_each allocate_orelse_reserve_jobs
run_sched_loop_bf api b q =
    if q.sched_loop_active
    then allocate_orelse_reserve_jobs api b q
    else (let b' : Backfill = record b { reserved = [] } in
        let q' : Queue = set_backfill b' (set_schedulability false q) in
        if cancel_each api b.reserved == 0
        then allocate_orelse_reserve_jobs api b' q'
        else (q', err unchanged))

-- How a job that is allocated now came to start.
abbrev pub selection : Bool → ℕ → JobSelection
selection was_reserved reservation_cnt =
    if was_reserved
    then JobSelection.reserved
    else if is_positive32 reservation_cnt
    then JobSelection.backfill
    else JobSelection.immediate

abbrev pub schedule_match : Match → ℕ → Schedule → Schedule
schedule_match m reservation_cnt s = record s {
  reserved = is_reserved m;
  r = m.r;
  old_at = s.at;
  at = m.at;
  ov = m.ov;
  was_reserved = if is_reserved m then true else s.was_reserved;
  selection_type =
      if is_reserved m then JobSelection.reserved else selection s.was_reserved reservation_cnt;
}

-- The job is reserved, and the loop goes on behind it.
unfoldable pub reserve_job : PendingKey → Job → Backfill → Queue → Queue × Backfill
unfolding insert next
reserve_job k j b q = (
  record q { oq_cnt = incr64 q.oq_cnt; scheduled = true },
  record b {
    reserved = (insert q.oq_cnt j.id b.reserved).0;
    reservation_cnt = incr32 b.reservation_cnt;
    in_progress_iter = next k q.pending;
  },
)

-- The job is allocated and leaves the pending queue.
unfoldable pub allocate_job : PendingKey → Backfill → Queue → Queue × Backfill
unfolding to_running
allocate_job k b q = let (q', it) = to_running k true q in (q', record b { in_progress_iter = it })

abbrev pub count_job : Backfill → Backfill
count_job b = record b { scheduled_cnt = incr32 b.scheduled_cnt }

unfoldable pub place_job : Match → PendingKey → Job → Backfill → Queue → Queue × Backfill
unfolding reserve_job allocate_job
place_job m k j b q = if is_reserved m then reserve_job k j b q else allocate_job k b q

abbrev pub matched : Match → Backfill → Job → Job
matched m b j = record j { schedule = schedule_match m b.reservation_cnt j.schedule }

unfoldable pub take_match : Reapi → Match → PendingKey → Job → Backfill → Queue → Queue × Rc
unfolding place_job write_job next_match_iter
take_match api m k j b q =
    let (q', b') = place_job m k (matched m b j) b (write_job j.id (matched m b j) q) in
    if j.id == m.jobid then next_match_iter api (count_job b') q' else (q, err einval)

unfoldable pub handle_match_success_bf : Reapi → Match → Backfill → Queue → Queue × Rc
unfolding find take_match
handle_match_success_bf api m b q =
    if q.sched_loop_active
    then elim b.in_progress_iter [
      | none ↦ (q, err fault)
      | some k ↦ elim (find k q.pending) [
        | none ↦ (q, err fault)
        | some id ↦ elim (find id q.jobs) [
          | none ↦ (q, err enoent)
          | some j ↦ take_match api m k j b q
        ]
      ]
    ]
    else (q, err einval)

-- A job that could be neither allocated nor reserved loses its estimate.
abbrev pub forget_estimate : Schedule → Schedule
forget_estimate s =
    if s.at == 0
    then s
    else record s { at = 0; selection_type = JobSelection.unknown; was_reserved = false }

abbrev pub unestimated : Job → Job
unestimated j = record j { schedule = forget_estimate j.schedule }

-- The job waits in the blocked queue, and is not counted.
abbrev pub block_job : PendingKey → ℕ → Backfill → Queue → Queue × Backfill
block_job k id b q = (
  record q { pending = erase k q.pending; blocked = (insert k id q.blocked).0 },
  record b { scheduled_cnt = decr32 b.scheduled_cnt },
)

unfoldable pub drop_estimate : Job → Queue → Queue
unfolding write_job
drop_estimate j q = record (write_job j.id (unestimated j) q) {
  annotation_dirty = if j.schedule.at == 0 then q.annotation_dirty else true;
}

unfoldable pub skip_job : PendingKey → ℕ → Job → Backfill → Queue → Queue × Backfill
unfolding insert erase next drop_estimate
skip_job k id j b q =
    let b' : Backfill = record b { in_progress_iter = next k q.pending } in
    if b.try_reserve then block_job k id b' (drop_estimate j q) else (drop_estimate j q, b')

unfoldable pub reject_job : PendingKey → Errno → Backfill → Queue → Queue × Backfill
unfolding to_rejected
reject_job k e b q =
    let (q', it) = to_rejected k (reject_note e) q in (q', record b { in_progress_iter = it })

-- `errno == EBUSY`
abbrev pub is_busy : Errno → Bool
is_busy ebusy = true
is_busy _ = false

abbrev pub is_nodata : Errno → Bool
is_nodata enodata = true
is_nodata _ = false

-- The failure of the job at the iterator.
unfoldable pub fail_job : Reapi → Errno → PendingKey → ℕ → Backfill → Queue → Queue × Rc
unfolding find skip_job reject_job next_match_iter
fail_job api e k id b q =
    if is_busy e
    then elim (find id q.jobs) [
      | none ↦ (q, err enoent)
      | some j ↦ let (q', b') = skip_job k id j b q in next_match_iter api (count_job b') q'
    ]
    else (let (q', b') = reject_job k e b q in next_match_iter api (count_job b') q')

unfoldable pub handle_match_failure_bf : Reapi → Errno → Backfill → Queue → Queue × Rc
unfolding find fail_job
handle_match_failure_bf api e b q =
    if q.sched_loop_active
    then if is_nodata e then (q, ok) else elim b.in_progress_iter [
      | none ↦ (q, err fault)
      | some k ↦ elim (find k q.pending) [
        | none ↦ (q, err fault)
        | some id ↦ fail_job api e k id b q
      ]
    ]
    else (q, err einval)
