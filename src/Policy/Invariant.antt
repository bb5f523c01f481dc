-- ===== src/Policy/Invariant.antt =====
-- qmanager/policies: the scheduling loops keep the invariants of the queue.
use Prim.Native.String.{String}
use flux_sched.Common.{
  ℕ, ◌+◌, ◌≡◌, refl, ◌<◌, true, Bool, not, ◌&&◌, Option, some, arith, sym, subst, ◌∙◌, if_intro,
}
use flux_sched.OrdMap.{nat_key, find}
use flux_sched.OrdMap.Find.{find-nil, find-absorb}
use flux_sched.OrdMap.Order.{absorb-IsSorted}
use flux_sched.Queue.Job.{Job, PendingKey, get_key, is_pending, pending_key, u64_mod}
use flux_sched.Queue.State.{Queue}
use flux_sched.Queue.Pending.{write_job}
use flux_sched.Queue.Provisional.{set_sched_loop_active}
use flux_sched.Queue.Running.{to_running, to_rejected}
use flux_sched.Queue.Frame.{end_sched_loop-Frame}
use flux_sched.Queue.Ledger.Add.{cong_lem, merge_pb, swap_bv}
use flux_sched.Queue.Invariant.Steps.{
  SamePending, same-IsValid, touch-IsValid, found_written, own_id,
}
use flux_sched.Queue.Invariant.Provisional.{set_sched_loop_active-IsValid}
use flux_sched.Queue.Invariant.Running.{
  IsCounted, Frame-IsCounted, started_queue-IsValid, rejected_queue-IsValid,
  started_queue-IsCounted, rejected_queue-IsCounted, to_running_lem, to_rejected_lem,
}
use flux_sched.Queue.Invariant.Remove.{IsSound}
use flux_sched.Policy.Backfill.{take_provisional}

-- The two queues agree on all that the invariants read.
pub record SameQueue (q q' : Queue) : Type 0 where
  pub pending : SamePending q q'
  pub running : q'.running ≡ q.running
  pub alloced : q'.alloced ≡ q.alloced
  pub rejected : q'.rejected ≡ q.rejected
  pub rq_cnt : q'.rq_cnt ≡ q.rq_cnt
  pub dq_cnt : q'.dq_cnt ≡ q.dq_cnt

pub same-IsSound : {q : Queue} (q' : Queue) → SameQueue q q' → IsSound q → IsSound q'
same-IsSound q' e s = record {
  valid = same-IsValid q' e.pending s.valid;
  counted = record {
    running_lt = rw (e.running, e.rq_cnt) s.counted.running_lt;
    alloced_lt = rw (e.alloced, e.rq_cnt) s.counted.alloced_lt;
    rejected_lt = rw (e.rejected, e.dq_cnt) s.counted.rejected_lt;
  };
}

begun : (active : Bool) (q : Queue) → SameQueue q (record q { sched_loop_active = active })
begun active q = record {
  pending = record { p = refl; b = refl; v = refl; jobs = refl; n = refl };
  running = refl;
  alloced = refl;
  rejected = refl;
  rq_cnt = refl;
  dq_cnt = refl;
}

pub set_sched_loop_active-IsSound :
    {q : Queue} (active : Bool) → IsSound q → IsSound (set_sched_loop_active active q).0
unfolding set_sched_loop_active
set_sched_loop_active-IsSound {q} active s = record {
  valid = set_sched_loop_active-IsValid active s.valid;
  counted =
      if_intro (λ (r : Queue × ℕ). IsCounted r.0) (q.sched_loop_active && not active)
        (λ _.
          Frame-IsCounted (end_sched_loop-Frame (record q { sched_loop_active = active })) start)
        (λ _. start);
}
  where
    start : IsCounted (record q { sched_loop_active = active })
    start = (same-IsSound _ (begun active q) s).counted

-- The provisional jobs join the pending ones.
pub take_provisional-IsSound : {q : Queue} → IsSound q → IsSound (take_provisional q)
take_provisional-IsSound {q} s = record {
  valid = record {
    ledger =
        cong_lem (λ k. find-absorb k q.pending q.pending_provisional) (λ k. refl) (λ k. find-nil k)
          (λ i. refl) (swap_bv (merge_pb (swap_bv s.valid.ledger)));
    sorted_p = absorb-IsSorted q.pending q.pending_provisional s.valid.sorted_p;
    sorted_b = s.valid.sorted_b;
    sorted_v = tt;
  };
  counted = record {
    running_lt = s.counted.running_lt;
    alloced_lt = s.counted.alloced_lt;
    rejected_lt = s.counted.rejected_lt;
  };
}

-- The schedule of the job at an entry of `m_pending` is written.
pub write_job-IsSound :
    {q : Queue} (id : ℕ) (j j' : Job) (k : PendingKey)
    → find k q.pending ≡ some id
    → find id q.jobs ≡ some j
    → j'.id ≡ j.id
    → j'.state ≡ j.state
    → get_key j' ≡ get_key j
    → IsSound q
    → IsSound (write_job j.id j' q)
      × (find id (write_job j.id j' q).jobs ≡ some j')
      × (find k (write_job j.id j' q).pending ≡ some id)
unfolding write_job
write_job-IsSound {q} id j j' k listed found e st g s =
    let own = own_id s.valid id j found in
    let (j1, e1, pend, g1) = s.valid.ledger.listed_p k id listed in
    let same_job : j1 ≡ j = ground (arith, e1, found) in
    (
      record {
        valid =
            touch-IsValid s.valid j.id j j' own
              (subst (λ x. is_pending x.state ≡ true) same_job pend) e st g;
        counted = record {
          running_lt = s.counted.running_lt;
          alloced_lt = s.counted.alloced_lt;
          rejected_lt = s.counted.rejected_lt;
        };
      },
      subst (λ i. find i (write_job j.id j' q).jobs ≡ some j') (e ∙ s.valid.ledger.ids id j found)
          (found_written s.valid j.id j j' own e),
      listed,
    )

-- A pending job starts, and the state is sound.
pub to_running-IsSound :
    {q : Queue} (k : PendingKey) (id : ℕ) (j : Job)
    → find k q.pending ≡ some id
    → find id q.jobs ≡ some j
    → q.rq_cnt + 1 < u64_mod
    → IsSound q
    → IsSound (to_running k true q).0
to_running-IsSound {q} k id j listed found small s =
    subst (λ (r : Queue × Option PendingKey). IsSound r.0)
      (sym (to_running_lem q k id j s.counted listed found))
      (record {
        valid = started_queue-IsValid s.valid k id j listed found;
        counted = started_queue-IsCounted k j s.counted small;
      })

pub to_rejected-IsSound :
    {q : Queue} (k : PendingKey) (note : String) (id : ℕ) (j : Job)
    → find k q.pending ≡ some id
    → find id q.jobs ≡ some j
    → q.dq_cnt + 1 < u64_mod
    → IsSound q
    → IsSound (to_rejected k note q).0
to_rejected-IsSound {q} k note id j listed found small s =
    subst (λ (r : Queue × Option PendingKey). IsSound r.0)
      (sym (to_rejected_lem q k note id j s.counted listed found))
      (record {
        valid = rejected_queue-IsValid s.valid k id j listed found note;
        counted = rejected_queue-IsCounted k note j s.counted small;
      })

-- The job behind an entry of `m_pending`.
pub job_of_entry :
    {q : Queue}
    → IsSound q
    → (k : PendingKey) (id : ℕ) → find k q.pending ≡ some id
    → (j : Job) × (find id q.jobs ≡ some j)
job_of_entry s k id e = let (j, found, pend, g) = s.valid.ledger.listed_p k id e in (j, found)
