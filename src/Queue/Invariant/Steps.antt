-- ===== src/Queue/Invariant/Steps.antt =====
-- qmanager/policies/base/queue_policy_base.hpp: the changes of a queue of which its operations
-- consist keep the invariant.
use flux_sched.Common.{ℕ, ◌≡◌, refl, true, false, Bool, Option, some, ◌∙◌, ap, subst, sym}
use flux_sched.OrdMap.{same_refl, nat_key, find}
use flux_sched.OrdMap.Find.{find-assign}
use flux_sched.Queue.Job.{Job, get_key, is_pending, pending_key}
use flux_sched.Queue.State.{Queue}
use flux_sched.Queue.Pending.{write_job, set_schedulability}
use flux_sched.Queue.Ledger.{put, IsQuiet, drop_lem, touch_lem}
use flux_sched.Queue.Ledger.Add.{cong_lem, quiet_lem}
use flux_sched.Queue.Invariant.{IsValid, Erases}

-- The two queues have the same pending queues, jobs and count.
pub record SamePending (q q' : Queue) : Type 0 where
  pub p : q'.pending ≡ q.pending
  pub b : q'.blocked ≡ q.blocked
  pub v : q'.pending_provisional ≡ q.pending_provisional
  pub jobs : q'.jobs ≡ q.jobs
  pub n : q'.pq_cnt ≡ q.pq_cnt

pub same-IsValid : {q : Queue} (q' : Queue) → SamePending q q' → IsValid q → IsValid q'
same-IsValid q' s valid = record {
  ledger = rw (s.p, s.b, s.v, s.jobs, s.n) valid.ledger;
  sorted_p = rw s.p valid.sorted_p;
  sorted_b = rw s.b valid.sorted_b;
  sorted_v = rw s.v valid.sorted_v;
}

pub schedulable-IsValid : {q : Queue} (b : Bool) → IsValid q → IsValid (set_schedulability b q)
schedulable-IsValid b valid =
    same-IsValid _ (record { p = refl; b = refl; v = refl; jobs = refl; n = refl }) valid

pub find-write_job :
    (q : Queue) (id : ℕ) (j j' : Job)
    → find id q.jobs ≡ some j
    → (i : ℕ) → find i (write_job id j' q).jobs ≡ put (λ x. find x q.jobs) id (some j') i
unfolding write_job
find-write_job q id j j' e i = find-assign id i j' j q.jobs e

-- A job is also found under the id that it holds.
pub own_id :
    {q : Queue}
    → IsValid q
    → (id : ℕ) (j : Job) → find id q.jobs ≡ some j
    → find j.id q.jobs ≡ some j
own_id {q} valid id j found =
    subst (λ i. find i q.jobs ≡ some j) (sym (valid.ledger.ids id j found)) found

pub found_written :
    {q : Queue}
    → IsValid q
    → (id : ℕ) (j j' : Job) → find id q.jobs ≡ some j
    → j'.id ≡ j.id
    → find j'.id (write_job id j' q).jobs ≡ some j'
found_written {q} valid id j j' found e =
    subst (λ x. find x (write_job id j' q).jobs ≡ some j') (sym (e ∙ valid.ledger.ids id j found))
      (find-write_job q id j j' found id ∙ rw (same_refl id))

-- The state that a call leaves is valid.
abbrev pub Keeps {ℓ} : {A : Type ℓ} → Queue × A → Type 0
Keeps r = IsValid r.0

-- A job that stays pending under its key is written.
pub touch-IsValid :
    {q : Queue}
    → IsValid q
    → (id : ℕ) (j j' : Job) → find id q.jobs ≡ some j
    → is_pending j.state ≡ true
    → j'.id ≡ j.id
    → j'.state ≡ j.state
    → get_key j' ≡ get_key j
    → IsValid (write_job id j' q)
unfolding write_job
touch-IsValid {q} valid id j j' found pend e s g = record {
  ledger =
      cong_lem (λ k. refl) (λ k. refl) (λ k. refl) (find-write_job q id j j' found)
        (touch_lem valid.ledger found pend j' e s g);
  sorted_p = valid.sorted_p;
  sorted_b = valid.sorted_b;
  sorted_v = valid.sorted_v;
}

-- A job that is not pending is written, added or taken out.
pub quiet-IsValid :
    {q : Queue} (q' : Queue)
    → IsValid q
    → (id : ℕ) (o : Option Job) → ((j : Job) → find id q.jobs ≡ some j → is_pending j.state ≡ false)
    → IsQuiet id o
    → ((i : ℕ) → find i q'.jobs ≡ put (λ x. find x q.jobs) id o i)
    → q'.pending ≡ q.pending
    → q'.blocked ≡ q.blocked
    → q'.pending_provisional ≡ q.pending_provisional
    → q'.pq_cnt ≡ q.pq_cnt
    → IsValid q'
quiet-IsValid {q} q' valid id o before quiet ej ep eb ev en = record {
  ledger =
      rw (ep, eb, ev, en)
        (cong_lem (λ k. refl) (λ k. refl) (λ k. refl) ej (quiet_lem valid.ledger o before quiet));
  sorted_p = rw ep valid.sorted_p;
  sorted_b = rw eb valid.sorted_b;
  sorted_v = rw ev valid.sorted_v;
}

-- A pending job leaves its queue, and is written or taken out.
pub drop-IsValid :
    {q : Queue} (q' q'' : Queue)
    → IsValid q
    → (id : ℕ) (j : Job) (o : Option Job) → find id q.jobs ≡ some j
    → is_pending j.state ≡ true
    → IsQuiet id o
    → Erases (get_key j) q q'
    → ((i : ℕ) → find i q''.jobs ≡ put (λ x. find x q'.jobs) id o i)
    → q''.pending ≡ q'.pending
    → q''.blocked ≡ q'.blocked
    → q''.pending_provisional ≡ q'.pending_provisional
    → q''.pq_cnt ≡ q'.pq_cnt
    → IsValid q''
drop-IsValid {q} q' q'' valid id j o found pend quiet er ej ep eb ev en = record {
  ledger =
      rw (ep, eb, ev, en, er.same_count)
        (cong_lem er.in_p er.in_b er.in_v
          (λ i. ej i ∙ ap (λ m. put (λ x. find x m) id o i) er.same_jobs)
          (drop_lem valid.ledger found pend o quiet));
  sorted_p = rw ep er.still_p;
  sorted_b = rw eb er.still_b;
  sorted_v = rw ev er.still_v;
}
