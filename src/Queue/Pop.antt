-- ===== src/Queue/Pop.antt =====
-- qmanager/policies/base/queue_policy_base.hpp: the queries and the pops by which the module
-- above takes jobs out of a queue. `none` is the null pointer.
use flux_sched.Common.{true, false, Option, none, some, [], ◌∷◌, ℕ}
use flux_sched.OrdMap.{OrdMap, find, erase, begin, next, nat_key}
use flux_sched.Queue.Job.{Job, PendingKey, get_key, pending_key}
use flux_sched.Queue.State.{Queue}

unfoldable pub pending_begin : Queue → Queue × Option Job
unfolding find begin
pending_begin q = elim q.pending [
  | [] ↦ (record q { pending_iter = none; iter_valid = false }, none)
  | ◌∷◌ (k, id) _ ↦ (record q { pending_iter = some k; iter_valid = true }, find id q.jobs)
]

-- The job that an iterator into `m_pending` points at.
abbrev pub job_at : PendingKey → Queue → Option Job
job_at k q = elim (find k q.pending) [ none ↦ none | some id ↦ find id q.jobs ]

-- The iterator moves on from the element with the key `k`.
unfoldable pub pending_advance : Option PendingKey → Queue → Queue × Option Job
unfolding find next
pending_advance none q = (record q { pending_iter = none; iter_valid = false }, none)
pending_advance (some k) q = (record q { pending_iter = some k; iter_valid = true }, job_at k q)

unfoldable pub pending_next : Queue → Queue × Option Job
unfolding pending_advance next
pending_next q = elim q.iter_valid [
  | false ↦ (q, none)
  | true ↦ elim q.pending_iter [ none ↦ (q, none) | some k ↦ pending_advance (next k q.pending) q ]
]

-- The id that the first entry of a queue holds.
abbrev pub first_id {ℓ} : {K : Type ℓ} → OrdMap K ℕ → Option ℕ
first_id [] = none
first_id ((k, id) ∷ m) = some id

-- The job of the first entry, with the id that the entry holds.
abbrev pub first_job {ℓ} : {K : Type ℓ} → OrdMap K ℕ → Queue → Option (ℕ × Job)
first_job m q = elim (first_id m) [
  | none ↦ none
  | some id ↦ elim (find id q.jobs) [ none ↦ none | some j ↦ some (id, j) ]
]

unfoldable pub pending_pop : Queue → Queue × Option Job
unfolding find erase
pending_pop q = elim (first_job q.pending q) [
  | none ↦ (q, none)
  | some (id, j) ↦
      (record q { pending = erase (get_key j) q.pending; jobs = erase id q.jobs }, some j)
]

unfoldable pub alloced_pop : Queue → Queue × Option Job
unfolding find erase
alloced_pop q = elim (first_job q.alloced q) [
  | none ↦ (q, none)
  | some (id, j) ↦ (record q { alloced = erase j.t_stamps.running_ts q.alloced }, some j)
]

unfoldable pub rejected_pop : Queue → Queue × Option Job
unfolding find erase
rejected_pop q = elim (first_job q.rejected q) [
  | none ↦ (q, none)
  | some (id, j) ↦ (record q { rejected = erase j.t_stamps.rejected_ts q.rejected }, some j)
]

unfoldable pub canceled_pop : Queue → Queue × Option Job
unfolding find erase
canceled_pop q = elim (first_job q.canceled q) [
  | none ↦ (q, none)
  | some (id, j) ↦ (
    record q { canceled = erase j.t_stamps.canceled_ts q.canceled; jobs = erase id q.jobs },
    some j,
  )
]
