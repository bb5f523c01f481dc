-- ===== src/Queue/Invariant/Running.antt =====
-- qmanager/policies/base/queue_policy_base.hpp: a pending job starts or is rejected. The sequence
-- numbers of the running and the rejected jobs are old, so that no insertion fails.
use flux_sched.Common.{
  ℕ, ◌+◌, ◌≡◌, refl, ◌<◌, true, none, some, arith, sym, subst, Option-cases, inl, inr,
}
use Prim.Native.String.{String}
use flux_sched.OrdMap.{OrdMap, same_iff, nat_key, find, add, erase, next, assign}
use flux_sched.OrdMap.Find.{find-add, insert_fresh, find-erase, find-assign}
use flux_sched.Queue.Job.{Job, PendingKey, get_key, is_pending, pending_key, u64_mod, incr64}
use flux_sched.Queue.State.{Queue}
use flux_sched.Queue.Running.{started, refused, to_running, to_rejected}
use flux_sched.Queue.Frame.{Frame}
use flux_sched.Queue.Ledger.{put}
use flux_sched.Queue.Invariant.{IsValid, Erases, erase_p}
use flux_sched.Queue.Invariant.Steps.{drop-IsValid, own_id}

-- The keys of a map lie below a counter.
abbrev pub Below : ℕ → OrdMap ℕ ℕ → Type 0
Below n m = (ts id : ℕ) → find ts m ≡ some id → ts < n

pub record IsCounted (q : Queue) : Type 0 where
  pub running_lt : Below q.rq_cnt q.running
  pub alloced_lt : Below q.rq_cnt q.alloced
  pub rejected_lt : Below q.dq_cnt q.rejected

pub Frame-IsCounted : {q q' : Queue} → Frame q q' → IsCounted q → IsCounted q'
Frame-IsCounted f c = record {
  running_lt = rw (f.running, f.rq_cnt) c.running_lt;
  alloced_lt = rw (f.alloced, f.rq_cnt) c.alloced_lt;
  rejected_lt = rw (f.rejected, f.dq_cnt) c.rejected_lt;
}

pub fresh_of_Below : (n : ℕ) (m : OrdMap ℕ ℕ) → Below n m → find n m ≡ none
fresh_of_Below n m h = elim (Option-cases (find n m)) [
  | inl free ↦ free
  | inr (id, e) ↦ absurd (omega (arith, h n id e))
]

pub add-Below :
    (n : ℕ) (id : ℕ) (m : OrdMap ℕ ℕ) → Below n m → n + 1 < u64_mod → Below (incr64 n) (add n id m)
add-Below n id m h small ts i e =
    ground (arith, h ts i, find-add n ts id m (fresh_of_Below n m h), same_iff n ts, e)

pub erase-Below : (n k : ℕ) (m : OrdMap ℕ ℕ) → Below n m → Below n (erase k m)
erase-Below n k m h ts i e = ground (arith, h ts i, find-erase k ts m, e)

-- The queue after a job under the key `k` has started.
abbrev pub started_queue : PendingKey → Job → Queue → Queue
started_queue k j q = record q {
  scheduled = true;
  rq_cnt = incr64 q.rq_cnt;
  running = add q.rq_cnt j.id q.running;
  alloced = add q.rq_cnt j.id q.alloced;
  jobs = assign j.id (started q true j) q.jobs;
  pending = erase k q.pending;
}

-- Where the old sequence numbers are below their counters, to_running of a listed job succeeds:
-- the job gets the next number, enters the running and the alloced queue, leaves m_pending, and
-- the result is the iterator after it.
pub to_running_lem :
    (q : Queue) (k : PendingKey) (id : ℕ) (j : Job)
    → IsCounted q
    → find k q.pending ≡ some id
    → find id q.jobs ≡ some j
    → to_running k true q ≡ (started_queue k j q, next k q.pending)
unfolding to_running
to_running_lem q k id j c listed found = rw (
  listed,
  to_running,
  found,
  insert_fresh q.rq_cnt j.id q.running (fresh_of_Below q.rq_cnt q.running c.running_lt),
  insert_fresh q.rq_cnt j.id q.alloced (fresh_of_Below q.rq_cnt q.alloced c.alloced_lt),
)

abbrev pub rejected_queue : PendingKey → String → Job → Queue → Queue
rejected_queue k note j q = record q {
  scheduled = true;
  dq_cnt = incr64 q.dq_cnt;
  rejected = add q.dq_cnt j.id q.rejected;
  jobs = assign j.id (refused q note j) q.jobs;
  pending = erase k q.pending;
}

-- Where the old sequence numbers are below their counters, to_rejected of a listed job
-- succeeds: the job gets the next number and the note, enters the rejected queue, leaves
-- m_pending, and the result is the iterator after it.
pub to_rejected_lem :
    (q : Queue) (k : PendingKey) (note : String) (id : ℕ) (j : Job)
    → IsCounted q
    → find k q.pending ≡ some id
    → find id q.jobs ≡ some j
    → to_rejected k note q ≡ (rejected_queue k note j q, next k q.pending)
unfolding to_rejected
to_rejected_lem q k note id j c listed found = rw (
  listed,
  to_rejected,
  found,
  insert_fresh q.dq_cnt j.id q.rejected (fresh_of_Below q.dq_cnt q.rejected c.rejected_lt),
)

module _ {q : Queue} (valid : IsValid q) (k : PendingKey) (id : ℕ) (j : Job)
    (listed : find k q.pending ≡ some id) (found : find id q.jobs ≡ some j) where
  listed_pending : (is_pending j.state ≡ true) × (get_key j ≡ k)
  listed_pending =
      let (j', e, s, g) = valid.ledger.listed_p k id listed in ground (arith, e, found, s, g)

  leaves_pending : Erases (get_key j) q (record q { pending = erase k q.pending })
  leaves_pending =
      subst (λ x. Erases x q (record q { pending = erase k q.pending })) (sym listed_pending.1)
        (erase_p valid k id listed)

  written :
      (j' : Job) (i : ℕ)
      → find i (assign j.id j' q.jobs) ≡ put (λ x. find x q.jobs) j.id (some j') i
  written j' i = find-assign j.id i j' j q.jobs (own_id valid id j found)

  pub started_queue-IsValid : IsValid (started_queue k j q)
  unfolding is_pending
  started_queue-IsValid =
      drop-IsValid (record q { pending = erase k q.pending }) (started_queue k j q) valid j.id j
        (some (started q true j)) (own_id valid id j found) listed_pending.0 (λ j' e. ground arith)
        leaves_pending (written (started q true j)) refl refl refl refl

  pub rejected_queue-IsValid : (note : String) → IsValid (rejected_queue k note j q)
  unfolding is_pending
  rejected_queue-IsValid note =
      drop-IsValid (record q { pending = erase k q.pending }) (rejected_queue k note j q) valid j.id
        j (some (refused q note j)) (own_id valid id j found) listed_pending.0
        (λ j' e. ground arith) leaves_pending (written (refused q note j)) refl refl refl refl

pub started_queue-IsCounted :
    {q : Queue} (k : PendingKey) (j : Job)
    → IsCounted q
    → q.rq_cnt + 1 < u64_mod
    → IsCounted (started_queue k j q)
started_queue-IsCounted {q} k j c small = record {
  running_lt = add-Below q.rq_cnt j.id q.running c.running_lt small;
  alloced_lt = add-Below q.rq_cnt j.id q.alloced c.alloced_lt small;
  rejected_lt = c.rejected_lt;
}

pub rejected_queue-IsCounted :
    {q : Queue} (k : PendingKey) (note : String) (j : Job)
    → IsCounted q
    → q.dq_cnt + 1 < u64_mod
    → IsCounted (rejected_queue k note j q)
rejected_queue-IsCounted {q} k note j c small = record {
  running_lt = c.running_lt;
  alloced_lt = c.alloced_lt;
  rejected_lt = add-Below q.dq_cnt j.id q.rejected c.rejected_lt small;
}
