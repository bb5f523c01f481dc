-- ===== src/Queue/Frame/Calls.antt =====
-- qmanager/policies/base/queue_policy_base.hpp: what `insert` and `pending_reprioritize` leave alone.
use flux_sched.Common.{ℕ, refl, Option, if_intro, none, some, Option-cases, inl, inr}
use flux_sched.OrdMap.{find, nat_key}
use flux_sched.Queue.Job.{Job, is_pending}
use flux_sched.Queue.State.{Queue, failed}
use flux_sched.Queue.Pending.{cancel_sched_loop, insert_job}
use flux_sched.Queue.Provisional.{
  defer_reprio, reprio_or_wait, reprio_pending, pending_reprioritize,
}
use flux_sched.Queue.Frame.{
  Frame, Frame-refl, Frame-trans, Frames, cancel_sched_loop-Frame, process_provisional_reprio-Frame,
}

pub insert_job-Frame : (q : Queue) (o : Option Job) → Frame q (insert_job q o).0
unfolding insert_job
insert_job-Frame q none = Frame-refl q
insert_job-Frame q (some j) = elim (Option-cases (find j.id q.jobs)) [
  | inl absent ↦
      rw (absent, insert_job)
        (record {
          running = refl;
          alloced = refl;
          rejected = refl;
          rq_cnt = refl;
          dq_cnt = refl;
          active = refl;
        })
  | inr (i, e) ↦ rw (e, insert_job) (Frame-refl q)
]

reprio_or_wait-Frame : (q : Queue) → Frame q (reprio_or_wait q).0
unfolding reprio_or_wait
reprio_or_wait-Frame q =
    if_intro (Frames q) q.sched_loop_active
      (λ _.
        if_intro (Frames q) (failed (cancel_sched_loop q).1) (λ _. cancel_sched_loop-Frame q)
          (λ _.
            Frame-trans q _ _ (cancel_sched_loop-Frame q)
              (process_provisional_reprio-Frame (cancel_sched_loop q).0)))
      (λ _. process_provisional_reprio-Frame q)

defer_reprio-Frame : (q : Queue) (id p : ℕ) → Frame q (defer_reprio id p q).0
unfolding defer_reprio
defer_reprio-Frame q id p = record {
  running = refl;
  alloced = refl;
  rejected = refl;
  rq_cnt = refl;
  dq_cnt = refl;
  active = refl;
}

reprio_pending-Frame : (q : Queue) (id p : ℕ) → Frame q (reprio_pending id p q).0
unfolding reprio_pending
reprio_pending-Frame q id p =
    if_intro (Frames q) (defer_reprio id p q).1
      (λ _.
        Frame-trans q _ _ (defer_reprio-Frame q id p)
          (reprio_or_wait-Frame (defer_reprio id p q).0))
      (λ _. defer_reprio-Frame q id p)

pub pending_reprioritize-Frame : (q : Queue) (id p : ℕ) → Frame q (pending_reprioritize id p q).0
unfolding pending_reprioritize
pending_reprioritize-Frame q id p = elim (Option-cases (find id q.jobs)) [
  | inl absent ↦ rw (absent, pending_reprioritize) (Frame-refl q)
  | inr (j, found) ↦
      rw (found, pending_reprioritize)
        (if_intro (Frames q) (is_pending j.state) (λ _. reprio_pending-Frame q j.id p)
          (λ _. Frame-refl q))
]
