-- ===== src/Queue/Frame.antt =====
-- qmanager/policies/base/queue_policy_base.hpp: what the operations on the pending side leave alone:
-- the running side of the queue, and whether a scheduling loop is active.
pub mod Calls
use flux_sched.Common.{
  ℕ, ◌≡◌, refl, true, false, Bool, Option, arith, ◌∙◌, if_intro, [], ◌∷◌, none, some, Option-cases,
  inl, inr,
}
use flux_sched.OrdMap.{OrdMap, find, nat_key}
use flux_sched.Queue.Job.{Job, get_key, is_pending}
use flux_sched.Queue.State.{Queue, Derived, fcfs, backfill, failed}
use flux_sched.Queue.Pending.{
  Erased, in_queue, in_provisional, missing, cancel_sched_loop, cancel_sched_loop_of, write_job,
  process_provisional_reconsider, reconsider_blocked_jobs, erase_pending_job, insert_pending_job,
  enter_canceled, cancel_erased, cancel_now, cancel_or_defer, remove_pending, stamped, stamp_job,
  set_schedulability, insert_job,
}
use flux_sched.Queue.Provisional.{
  cancel_entry, cancel_entries, process_provisional_cancel, with_priority, reenter, reenter_erased,
  move_entry, reprio_entry, reprio_entries, process_provisional_reprio, end_sched_loop,
  defer_reprio, reprio_or_wait, reprio_pending, pending_reprioritize,
}

pub record Frame (q q' : Queue) : Type 0 where
  pub running : q'.running ≡ q.running
  pub alloced : q'.alloced ≡ q.alloced
  pub rejected : q'.rejected ≡ q.rejected
  pub rq_cnt : q'.rq_cnt ≡ q.rq_cnt
  pub dq_cnt : q'.dq_cnt ≡ q.dq_cnt
  pub active : q'.sched_loop_active ≡ q.sched_loop_active

pub Frame-refl : (q : Queue) → Frame q q
Frame-refl q = record {
  running = refl;
  alloced = refl;
  rejected = refl;
  rq_cnt = refl;
  dq_cnt = refl;
  active = refl;
}

pub Frame-trans : (a b c : Queue) → Frame a b → Frame b c → Frame a c
Frame-trans a b c f g = record {
  running = g.running ∙ f.running;
  alloced = g.alloced ∙ f.alloced;
  rejected = g.rejected ∙ f.rejected;
  rq_cnt = g.rq_cnt ∙ f.rq_cnt;
  dq_cnt = g.dq_cnt ∙ f.dq_cnt;
  active = g.active ∙ f.active;
}

-- The frame of a call from the state `q`.
abbrev pub Frames {ℓ} : {A : Type ℓ} → Queue → Queue × A → Type 0
Frames q r = Frame q r.0

pub cancel_sched_loop-Frame : (q : Queue) → Frame q (cancel_sched_loop q).0
unfolding cancel_sched_loop
cancel_sched_loop-Frame q = by_class q.derived
  where
    by_class : (d : Derived) → Frame q (cancel_sched_loop_of q d).0
    by_class (fcfs f) = ground arith
    by_class (backfill b) = ground arith

pub process_provisional_reconsider-Frame : (q : Queue) → Frame q (process_provisional_reconsider q)
unfolding process_provisional_reconsider
process_provisional_reconsider-Frame q = ground arith

pub reconsider_blocked_jobs-Frame : (q : Queue) → Frame q (reconsider_blocked_jobs q)
unfolding reconsider_blocked_jobs
reconsider_blocked_jobs-Frame q = ground arith

erase_pending_job-Frame : (q : Queue) (j : Job) → Frame q (erase_pending_job (get_key j) q).0
unfolding erase_pending_job
erase_pending_job-Frame q j = ground arith

insert_pending_job-Frame :
    (q : Queue) (j : Job) (prov : Bool) → Frame q (insert_pending_job j prov (write_job j.id j q)).0
unfolding insert_pending_job write_job
insert_pending_job-Frame q j true = ground arith
insert_pending_job-Frame q j false = ground arith

enter_canceled-Frame : (q : Queue) (j : Job) → Frame q (enter_canceled j q).0
unfolding enter_canceled
enter_canceled-Frame q j = ground arith

cancel_erased-Frame : (q : Queue) (j : Job) (e : Erased) → Frame q (cancel_erased e j q).0
unfolding cancel_erased
cancel_erased-Frame q j missing = Frame-refl q
cancel_erased-Frame q j in_queue = enter_canceled-Frame q j
cancel_erased-Frame q j in_provisional = enter_canceled-Frame q j

pub cancel_now-Frame : (q : Queue) (j : Job) → Frame q (cancel_now j q).0
unfolding cancel_now
cancel_now-Frame q j =
    Frame-trans q _ _ (erase_pending_job-Frame q j) (
      cancel_erased-Frame (erase_pending_job (get_key j) q).0 j (erase_pending_job (get_key j) q).1)

schedulable-Frame : (q : Queue) (b : Bool) → Frame q (set_schedulability b q)
schedulable-Frame q b = record {
  running = refl;
  alloced = refl;
  rejected = refl;
  rq_cnt = refl;
  dq_cnt = refl;
  active = refl;
}

reenter-Frame : (q : Queue) (j : Job) (prov : Bool) → Frame q (reenter j prov q).0
unfolding reenter
reenter-Frame q j prov =
    if_intro (Frames q) (failed (insert_pending_job j prov (write_job j.id j q)).1) (λ _. f)
      (λ _. Frame-trans q r _ f (
        Frame-trans r (set_schedulability true r) _ (schedulable-Frame r true)
          (reconsider_blocked_jobs-Frame (set_schedulability true r))))
  where
    r : Queue
    r = (insert_pending_job j prov (write_job j.id j q)).0

    f : Frame q r
    f = insert_pending_job-Frame q j prov

reenter_erased-Frame : (q : Queue) (j : Job) (e : Erased) → Frame q (reenter_erased e j q).0
unfolding reenter_erased
reenter_erased-Frame q j missing = Frame-refl q
reenter_erased-Frame q j in_queue = reenter-Frame q j false
reenter_erased-Frame q j in_provisional = reenter-Frame q j true

move_entry-Frame : (q : Queue) (j : Job) (p : ℕ) → Frame q (move_entry j p q).0
unfolding move_entry
move_entry-Frame q j p =
    Frame-trans q (erase_pending_job (get_key j) q).0 _ (erase_pending_job-Frame q j) (
      reenter_erased-Frame (erase_pending_job (get_key j) q).0 (with_priority p j)
        (erase_pending_job (get_key j) q).1)

pub reprio_entry-Frame : (q : Queue) (id p : ℕ) → Frame q (reprio_entry id p q).0
unfolding reprio_entry
reprio_entry-Frame q id p = elim (Option-cases (find id q.jobs)) [
  | inl absent ↦ rw (absent, reprio_entry) (Frame-refl q)
  | inr (j, found) ↦
      rw (found, reprio_entry)
        (if_intro (Frames q) (is_pending j.state) (λ _. move_entry-Frame q j p) (λ _. Frame-refl q))
]

pub cancel_entry-Frame : (q : Queue) (id : ℕ) → Frame q (cancel_entry id q).0
unfolding cancel_entry
cancel_entry-Frame q id = elim (Option-cases (find id q.jobs)) [
  | inl absent ↦ rw (absent, cancel_entry) (Frame-refl q)
  | inr (j, found) ↦
      rw (found, cancel_entry)
        (if_intro (Frames q) (is_pending j.state) (λ _. cancel_now-Frame q j) (λ _. Frame-refl q))
]

cancel_entries-Frame : (m : OrdMap ℕ ℕ) (q : Queue) → Frame q (cancel_entries m q).0
unfolding cancel_entries
cancel_entries-Frame [] q = Frame-refl q
cancel_entries-Frame ((ts, id) ∷ rest) q =
    let q' = (cancel_entry id q).0 in
    if_intro (Frames q) (failed (cancel_entry id q).1) (λ _. cancel_entry-Frame q id)
      (λ _. Frame-trans q q' _ (cancel_entry-Frame q id) (cancel_entries-Frame rest q'))

reprio_entries-Frame : (m : OrdMap ℕ (ℕ × ℕ)) (q : Queue) → Frame q (reprio_entries m q).0
unfolding reprio_entries
reprio_entries-Frame [] q = Frame-refl q
reprio_entries-Frame ((n, (id, p)) ∷ rest) q =
    let q' = (reprio_entry id p q).0 in
    if_intro (Frames q) (failed (reprio_entry id p q).1) (λ _. reprio_entry-Frame q id p)
      (λ _. Frame-trans q q' _ (reprio_entry-Frame q id p) (reprio_entries-Frame rest q'))

pub process_provisional_cancel-Frame : (q : Queue) → Frame q (process_provisional_cancel q).0
unfolding process_provisional_cancel
process_provisional_cancel-Frame q =
    let f = cancel_entries-Frame q.pending_cancel_provisional q in
    if_intro (Frames q) (failed (cancel_entries q.pending_cancel_provisional q).1) (λ _. f)
      (λ _. record {
        running = f.running;
        alloced = f.alloced;
        rejected = f.rejected;
        rq_cnt = f.rq_cnt;
        dq_cnt = f.dq_cnt;
        active = f.active;
      })

pub process_provisional_reprio-Frame : (q : Queue) → Frame q (process_provisional_reprio q).0
unfolding process_provisional_reprio
process_provisional_reprio-Frame q =
    let f = reprio_entries-Frame q.pending_reprio_provisional q in
    if_intro (Frames q) (failed (reprio_entries q.pending_reprio_provisional q).1) (λ _. f)
      (λ _. record {
        running = f.running;
        alloced = f.alloced;
        rejected = f.rejected;
        rq_cnt = f.rq_cnt;
        dq_cnt = f.dq_cnt;
        active = f.active;
      })

pub end_sched_loop-Frame : (q : Queue) → Frame q (end_sched_loop q).0
unfolding end_sched_loop
end_sched_loop-Frame q =
    let q1 = (process_provisional_reprio q).0 in
    let q2 = (process_provisional_cancel q1).0 in
    Frame-trans q q1 _ (process_provisional_reprio-Frame q) (
      Frame-trans q1 q2 _ (process_provisional_cancel-Frame q1)
        (process_provisional_reconsider-Frame q2))

cancel_or_defer-Frame : (q : Queue) (j : Job) → Frame q (cancel_or_defer j q).0
unfolding cancel_or_defer
cancel_or_defer-Frame q j =
    let q' = (cancel_sched_loop q).0 in
    let f = cancel_sched_loop-Frame q in
    if_intro (Frames q) q.sched_loop_active
      (λ _.
        if_intro (Frames q) (failed (cancel_sched_loop q).1)
          (λ _. record {
            running = f.running;
            alloced = f.alloced;
            rejected = f.rejected;
            rq_cnt = f.rq_cnt;
            dq_cnt = f.dq_cnt;
            active = f.active;
          })
          (λ _. Frame-trans q q' _ f (cancel_now-Frame q' j)))
      (λ _. cancel_now-Frame q j)

stamp_job-Frame : (q : Queue) (id : ℕ) (j : Job) → Frame q (stamp_job id j q)
unfolding write_job
stamp_job-Frame q id j = ground arith

pub remove_pending-Frame : (q : Queue) (id : ℕ) → Frame q (remove_pending id q).0
unfolding remove_pending
remove_pending-Frame q id = elim (Option-cases (find id q.jobs)) [
  | inl absent ↦ rw (absent, remove_pending) (Frame-refl q)
  | inr (j, found) ↦
      rw (found, remove_pending)
        (if_intro (Frames q) (is_pending j.state)
          (λ _.
            Frame-trans q (stamp_job id j q) _ (stamp_job-Frame q id j)
              (cancel_or_defer-Frame (stamp_job id j q) (stamped q j)))
          (λ _. Frame-refl q))
]
