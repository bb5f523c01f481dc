-- ===== src/Queue/Transitions.antt =====
-- qmanager/policies/base/queue_policy_base.hpp: what the transitions of a job do, told by lookups.
use Prim.Native.String.{String}
use flux_sched.Common.{
  ℕ, ◌+◌, ◌≡◌, ◌≢◌, ◌%◌, ◌^◌, refl, true, false, none, some, arith, [], ◌∷◌, inl, inr, Option-cases,
  ltb, length,
}
use flux_sched.OrdMap.{OrdMap, nat_key, find, erase, next, add, assign, same_iff}
use flux_sched.OrdMap.Find.{
  find-add, find-add_self, insert_fresh, find-assign, find-erase, find-erase_self, find-absorb,
}
use flux_sched.Queue.Job.{Job, JobState, PendingKey, pending_key}
use flux_sched.Queue.State.{Queue, ok}
use flux_sched.Queue.Pending.{lookup, insert_job, process_provisional_reconsider}
use flux_sched.Queue.Running.{to_running, to_rejected}
use flux_sched.Queue.Invariant.{IsValid}
use flux_sched.Queue.Invariant.Pending.{leftover_blocked}
use flux_sched.Queue.Invariant.Running.{IsCounted, fresh_of_Below, to_running_lem, to_rejected_lem}

-- The map `m'` has the entry `v` under `k`, and is otherwise the map `m`.
pub record Enters {V : Type 0} (k : ℕ) (v : V) (m m' : OrdMap ℕ V) : Type 0 where
  pub entered : find k m' ≡ some v
  pub others : (i : ℕ) → i ≢ k → find i m' ≡ find i m

-- The map `m'` is the map `m` without the entry under `k`.
pub record Loses (k : PendingKey) (m m' : OrdMap PendingKey ℕ) : Type 0 where
  pub gone : find k m' ≡ none
  pub others : (i : PendingKey) → i ≢ k → find i m' ≡ find i m

add-Enters :
    {V : Type 0} (k : ℕ) (v : V) (m : OrdMap ℕ V) → find k m ≡ none → Enters k v m (add k v m)
add-Enters k v m free = record {
  entered = find-add_self k v m free;
  others = λ i ne. ground (arith, find-add k i v m free, same_iff k i);
}

assign-Enters :
    {V : Type 0} (k : ℕ) (v w : V) (m : OrdMap ℕ V)
    → find k m ≡ some w
    → Enters k v m (assign k v m)
assign-Enters k v w m found = record {
  entered = ground (arith, find-assign k k v w m found, same_iff k k);
  others = λ i ne. ground (arith, find-assign k i v w m found, same_iff k i);
}

erase-Loses : (k : PendingKey) (m : OrdMap PendingKey ℕ) → Loses k m (erase k m)
erase-Loses k m = record {
  gone = find-erase_self k m;
  others = λ i ne. ground (arith, find-erase k i m, same_iff k i);
}

-- The job `j` has started: its state and its number, the two queues that have it under that
-- number, and m_pending.
pub record Starts (k : PendingKey) (j : Job) (q q' : Queue) : Type 0 where
  pub job :
      Enters j.id
        (record j {
          state = JobState.alloc_running;
          t_stamps = record (j.t_stamps) { running_ts = q.rq_cnt };
        })
        q.jobs
        q'.jobs
  pub in_running : Enters q.rq_cnt j.id q.running q'.running
  pub in_alloced : Enters q.rq_cnt j.id q.alloced q'.alloced
  pub left : Loses k q.pending q'.pending
  pub counted : q'.rq_cnt ≡ (q.rq_cnt + 1) % 2 ^ 64
  pub scheduled : q'.scheduled ≡ true

-- The job `j` has been rejected, with a note.
pub record Rejects (k : PendingKey) (note : String) (j : Job) (q q' : Queue) : Type 0 where
  pub job :
      Enters j.id
        (record j {
          state = JobState.rejected;
          note = note;
          t_stamps = record (j.t_stamps) { rejected_ts = q.dq_cnt };
        })
        q.jobs
        q'.jobs
  pub in_rejected : Enters q.dq_cnt j.id q.rejected q'.rejected
  pub left : Loses k q.pending q'.pending
  pub counted : q'.dq_cnt ≡ (q.dq_cnt + 1) % 2 ^ 64
  pub scheduled : q'.scheduled ≡ true

module _ (q : Queue) (c : IsCounted q) (k : PendingKey) (j : Job)
    (listed : find k q.pending ≡ some j.id) (found : find j.id q.jobs ≡ some j) where
  -- Where the old sequence numbers are below their counters, to_running of a listed
  -- job succeeds: the job is in the state ALLOC_RUNNING under the next sequence number and
  -- otherwise as it was, the running and the alloced queue have it under that number, m_pending has
  -- lost its entry, nothing else in these maps has changed, and the result is the iterator after
  -- the entry.
  pub to_running-Starts :
      Starts k j q (to_running k true q).0 × ((to_running k true q).1 ≡ next k q.pending)
  to_running-Starts = rw (to_running_lem q k j.id j c listed found) (
    record {
      job =
          assign-Enters j.id
            (record j {
              state = JobState.alloc_running;
              t_stamps = record (j.t_stamps) { running_ts = q.rq_cnt };
            })
            j q.jobs found;
      in_running =
          add-Enters q.rq_cnt j.id q.running (fresh_of_Below q.rq_cnt q.running c.running_lt);
      in_alloced =
          add-Enters q.rq_cnt j.id q.alloced (fresh_of_Below q.rq_cnt q.alloced c.alloced_lt);
      left = erase-Loses k q.pending;
      counted = refl;
      scheduled = refl;
    },
    refl,
  )

  -- Where the old sequence numbers are below their counters, to_rejected of a listed
  -- job succeeds: the job is in the state REJECTED with the note and the next sequence number and
  -- otherwise as it was, the rejected queue has it under that number, m_pending has lost its entry,
  -- nothing else in these maps has changed, and the result is the iterator after the entry.
  pub to_rejected-Rejects :
      (note : String)
      → Rejects k note j q (to_rejected k note q).0 × ((to_rejected k note q).1 ≡ next k q.pending)
  to_rejected-Rejects note = rw (to_rejected_lem q k note j.id j c listed found) (
    record {
      job =
          assign-Enters j.id
            (record j {
              state = JobState.rejected;
              note = note;
              t_stamps = record (j.t_stamps) { rejected_ts = q.dq_cnt };
            })
            j q.jobs found;
      in_rejected =
          add-Enters q.dq_cnt j.id q.rejected (fresh_of_Below q.dq_cnt q.rejected c.rejected_lt);
      left = erase-Loses k q.pending;
      counted = refl;
      scheduled = refl;
    },
    refl,
  )

not_empty :
    (k : PendingKey) (id : ℕ) (m : OrdMap PendingKey ℕ)
    → find k m ≡ some id
    → ltb 0 (length m) ≡ true
unfolding find
not_empty k id [] e = cc
not_empty k id (x ∷ m) e = ground arith

-- In a valid state in which a reconsideration is due, process_provisional_reconsider moves the
-- entries of all blocked jobs into m_pending and none is left behind, keeps what m_pending had,
-- the provisional entries and the jobs, and makes the queue schedulable if a job was blocked.
pub process_provisional_reconsider-merges :
    (q : Queue)
    → IsValid q
    → q.pending_reconsider ≡ true
    → let q' = process_provisional_reconsider q in
      (q'.blocked ≡ [])
      × ((k : PendingKey) (id : ℕ)
          → find k q.blocked ≡ some id
          → (find k q'.pending ≡ some id) × (q'.schedulable ≡ true))
      × ((k : PendingKey) → find k q.blocked ≡ none → find k q'.pending ≡ find k q.pending)
      × (q'.pending_reconsider ≡ false)
      × (q'.pending_provisional ≡ q.pending_provisional)
      × (q'.jobs ≡ q.jobs)
unfolding process_provisional_reconsider
process_provisional_reconsider-merges q valid due = rw due (
  leftover_blocked valid,
  λ k id e. (
    ground (arith, find-absorb k q.pending q.blocked, e, kept_apart k id e),
    ground (arith, not_empty k id q.blocked e),
  ),
  λ k free. ground (arith, find-absorb k q.pending q.blocked, free),
  refl,
  refl,
  refl,
)
  where
    kept_apart : (k : PendingKey) (id : ℕ) → find k q.blocked ≡ some id → find k q.pending ≡ none
    kept_apart k id e = elim (Option-cases (find k q.pending)) [
      | inl free ↦ free
      | inr (w, there) ↦ ground (arith, valid.ledger.apart_pb k w there, e)
    ]

-- A job whose id is not in use is inserted with success: lookup finds it as it was given, but
-- pending and with the next sequence number; its entry is among the provisional ones where none
-- of them has its key yet, the counter goes up, the queue is schedulable, and every other id is found as
-- before.
pub insert_job-Enters :
    (q : Queue) (j : Job)
    → lookup q j.id ≡ none
    → let q' = (insert_job q (some j)).0 in
      let k : PendingKey = record {
        priority = j.priority;
        t_submit = j.t_submit;
        pending_ts = q.pq_cnt;
      } in
      ((insert_job q (some j)).1 ≡ ok)
      × (lookup q' j.id
          ≡ some (record j {
            state = JobState.pending;
            t_stamps = record (j.t_stamps) { pending_ts = q.pq_cnt };
          }))
      × ((i : ℕ) → i ≢ j.id → lookup q' i ≡ lookup q i)
      × (find k q.pending_provisional ≡ none → find k q'.pending_provisional ≡ some j.id)
      × (q'.pq_cnt ≡ (q.pq_cnt + 1) % 2 ^ 64)
      × (q'.schedulable ≡ true)
unfolding lookup insert_job
insert_job-Enters q j absent =
    let added : Job = record j {
      state = JobState.pending;
      t_stamps = record (j.t_stamps) { pending_ts = q.pq_cnt };
    } in
    let k : PendingKey = record {
      priority = j.priority;
      t_submit = j.t_submit;
      pending_ts = q.pq_cnt;
    } in
    rw (absent, insert_job, insert_fresh j.id added q.jobs absent)
      (
        refl,
        find-add_self j.id added q.jobs absent,
        λ i ne. ground (arith, find-add j.id i added q.jobs absent, same_iff j.id i),
        λ free.
            rw (insert_fresh k j.id q.pending_provisional free)
              (find-add_self k j.id q.pending_provisional free),
        refl,
        refl,
      )
