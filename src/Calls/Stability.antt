-- ===== src/Calls/Stability.antt =====
-- qmanager/policies/base/queue_policy_base.hpp: the calls that may come in while a scheduling loop is
-- active leave `m_pending`, into which the loop holds an iterator, as it was.
use Prim.Native.String.{String}
use flux_sched.Common.{
  ℕ, ◌≡◌, refl, ◌∙◌, true, false, Bool, Option, none, some, if_intro, Option-cases, inl, inr, ◌||◌,
  arith,
}
use flux_sched.OrdMap.{find, insert, nat_key}
use flux_sched.Queue.Job.{Job, JobState, PendingKey, is_pending, pending_key}
use flux_sched.Queue.State.{Queue, Reapi, Rc, ok, err, failed, Derived, fcfs, backfill}
use flux_sched.Queue.Pending.{
  insert_job, cancel_sched_loop, cancel_sched_loop_of, remove_pending, cancel_or_defer,
  defer_cancel, stamped, stamp_job, reconsider_blocked_jobs, write_job,
}
use flux_sched.Queue.Provisional.{
  pending_reprioritize, reprio_pending, reprio_or_wait, defer_reprio,
}
use flux_sched.Queue.Remove.{complete, after_cancel, release, remove_found, remove_by_state, remove}
use flux_sched.Queue.Running.{reconstruct, reconstruct_queue, resume}
use flux_sched.Queue.Pop.{alloced_pop, rejected_pop, first_job}
use flux_sched.Policy.Dispatch.{run_sched_loop, run_sched_loop_of}
use flux_sched.Calls.{Call, perform}

-- The iterator of the loop.
abbrev pub loop_iter : Derived → Option PendingKey
loop_iter (fcfs f) = f.iter
loop_iter (backfill b) = b.in_progress_iter

pub record Stable (q q' : Queue) : Type 0 where
  pub pending : q'.pending ≡ q.pending
  pub active : q'.sched_loop_active ≡ q.sched_loop_active
  pub iter : loop_iter q'.derived ≡ loop_iter q.derived

-- The stability of a call from the state `q`.
abbrev pub Stably {ℓ} : {A : Type ℓ} → Queue → Queue × A → Type 0
Stably q r = Stable q r.0

Stable-refl : (q : Queue) → Stable q q
Stable-refl q = record { pending = refl; active = refl; iter = refl }

Stable-trans : (a b c : Queue) → Stable a b → Stable b c → Stable a c
Stable-trans a b c f g = record {
  pending = g.pending ∙ f.pending;
  active = g.active ∙ f.active;
  iter = g.iter ∙ f.iter;
}

cancel_sched_loop-Stable : (q : Queue) → Stable q (cancel_sched_loop q).0
unfolding cancel_sched_loop cancel_sched_loop_of
cancel_sched_loop-Stable q = by_class q.derived refl
  where
    by_class : (d : Derived) → q.derived ≡ d → Stable q (cancel_sched_loop_of q d).0
    by_class (fcfs f) e =
        if_intro (Stably q) q.sched_loop_active (λ _. Stable-refl q) (λ _. Stable-refl q)
    by_class (backfill b) e =
        if_intro (Stably q) q.sched_loop_active
          (λ _. record { pending = refl; active = refl; iter = rw e refl }) (λ _. Stable-refl q)

-- A loop that is active cannot be canceled at once.
cancel_sched_loop_fails :
    (q : Queue) → q.sched_loop_active ≡ true → failed (cancel_sched_loop q).1 ≡ true
unfolding cancel_sched_loop cancel_sched_loop_of
cancel_sched_loop_fails q active = by_class q.derived
  where
    by_class : (d : Derived) → failed (cancel_sched_loop_of q d).1 ≡ true
    by_class (fcfs f) = rw active refl
    by_class (backfill b) = rw active refl

module _ (q : Queue) (active : q.sched_loop_active ≡ true) where
  reconsider_blocked_jobs-Stable : Stable q (reconsider_blocked_jobs q)
  unfolding reconsider_blocked_jobs
  reconsider_blocked_jobs-Stable =
      if_intro (Stable q) q.sched_loop_active
        (λ _. record { pending = refl; active = refl; iter = refl }) (λ idle. absurd (cc))

  cancel_or_defer-Stable : (j : Job) → Stable q (cancel_or_defer j q).0
  unfolding cancel_or_defer defer_cancel
  cancel_or_defer-Stable j =
      if_intro (Stably q) q.sched_loop_active
        (λ _.
          if_intro (Stably q) (failed (cancel_sched_loop q).1)
            (λ _.
              let s = cancel_sched_loop-Stable q in
              record { pending = s.pending; active = s.active; iter = s.iter })
            (λ e. absurd (ground (arith, cancel_sched_loop_fails q active))))
        (λ idle. absurd (cc))

  reprio_pending-Stable : (id p : ℕ) → Stable q (reprio_pending id p q).0
  unfolding reprio_pending defer_reprio reprio_or_wait
  reprio_pending-Stable id p =
      if_intro (Stably q) (defer_reprio id p q).1
        (λ _.
          if_intro (Stably q) q.sched_loop_active
            (λ _.
              let s = cancel_sched_loop-Stable (defer_reprio id p q).0 in
              if_intro (Stably q) (failed (cancel_sched_loop (defer_reprio id p q).0).1)
                (λ _. record { pending = s.pending; active = s.active; iter = s.iter })
                (λ e.
                  absurd (ground (arith, cancel_sched_loop_fails (defer_reprio id p q).0 active))))
            (λ idle. absurd (cc)))
        (λ _. record { pending = refl; active = refl; iter = refl })

remove_pending-Stable :
    (q : Queue) → q.sched_loop_active ≡ true → (id : ℕ) → Stable q (remove_pending id q).0
unfolding remove_pending write_job
remove_pending-Stable q active id = elim (Option-cases (find id q.jobs)) [
  | inl absent ↦ rw (absent, remove_pending) (Stable-refl q)
  | inr (j, found) ↦
      let s = cancel_or_defer-Stable (stamp_job id j q) active (stamped q j) in
      rw (found, remove_pending)
        (if_intro (Stably q) (is_pending j.state)
          (λ _. record { pending = s.pending; active = s.active; iter = s.iter })
          (λ _. Stable-refl q))
]

pending_reprioritize-Stable :
    (q : Queue) → q.sched_loop_active ≡ true → (id p : ℕ) → Stable q (pending_reprioritize id p q).0
unfolding pending_reprioritize
pending_reprioritize-Stable q active id p = elim (Option-cases (find id q.jobs)) [
  | inl absent ↦ rw (absent, pending_reprioritize) (Stable-refl q)
  | inr (j, found) ↦
      rw (found, pending_reprioritize)
        (if_intro (Stably q) (is_pending j.state) (λ _. reprio_pending-Stable q active j.id p)
          (λ _. Stable-refl q))
]

insert_job-Stable : (q : Queue) (o : Option Job) → Stable q (insert_job q o).0
unfolding insert_job
insert_job-Stable q none = Stable-refl q
insert_job-Stable q (some j) = elim (Option-cases (find j.id q.jobs)) [
  | inl absent ↦ rw (absent, insert_job) (record { pending = refl; active = refl; iter = refl })
  | inr (i, e) ↦ rw (e, insert_job) (Stable-refl q)
]

after_cancel-Stable :
    (q : Queue) (j : Job) (full_removal final : Bool)
    → Stable q (after_cancel j full_removal final q).0
unfolding after_cancel complete
after_cancel-Stable q j full_removal final =
    if_intro (Stably q) (full_removal || final)
      (λ _. record { pending = refl; active = refl; iter = refl })
      (λ _. record { pending = refl; active = refl; iter = refl })

pub release-Stable :
    (q : Queue) (api : Reapi) (j : Job) (final : Bool) (r : String)
    → Stable q (release api j final r q).0
unfolding release
release-Stable q api j final r =
    if_intro (Stably q) final
      (λ _.
        if_intro (Stably q) (failed (api.cancel j.id true)) (λ _. Stable-refl q)
          (λ _. after_cancel-Stable q j true final))
      (λ _.
        if_intro (Stably q) (failed (api.cancel_partial j.id r true).0) (λ _. Stable-refl q)
          (λ _. after_cancel-Stable q j (api.cancel_partial j.id r true).1 final))

remove_found-Stable :
    (q : Queue)
    → q.sched_loop_active ≡ true
    → (api : Reapi) (id : ℕ) (j : Job) (st : JobState) (final : Bool) (r : String)
    → Stable q (remove_found api id j st final r q).0
unfolding remove_found
remove_found-Stable q active api id j JobState.pending final r = remove_pending-Stable q active id
remove_found-Stable q active api id j JobState.alloc_running final r =
    release-Stable q api j final r
remove_found-Stable q active api id j JobState.running final r = release-Stable q api j final r
remove_found-Stable q active api id j _ final r = Stable-refl q

remove_by_state-Stable :
    (q : Queue)
    → q.sched_loop_active ≡ true
    → (api : Reapi) (id : ℕ) (final : Bool) (r : String)
    → Stable q (remove_by_state api id final r q).0
unfolding remove_by_state
remove_by_state-Stable q active api id final r = elim (Option-cases (find id q.jobs)) [
  | inl absent ↦ rw (absent, remove_by_state) (Stable-refl q)
  | inr (j, found) ↦
      rw (found, remove_by_state) (remove_found-Stable q active api id j j.state final r)
]

remove-Stable :
    (q : Queue)
    → q.sched_loop_active ≡ true
    → (api : Reapi) (id : ℕ) (final : Bool) (r : String) → Stable q (remove api id final r q).0
unfolding remove
remove-Stable q active api id final r =
    let q1 : Queue = (remove_by_state api id final r q).0 in
    let s1 = remove_by_state-Stable q active api id final r in
    let s2 = cancel_sched_loop-Stable q1 in
    Stable-trans q q1 _ s1 (
      Stable-trans q1 (cancel_sched_loop q1).0 _ s2
        (reconsider_blocked_jobs-Stable (cancel_sched_loop q1).0 (s2.active ∙ s1.active ∙ active)))

run_sched_loop-Stable :
    (q : Queue) → q.sched_loop_active ≡ true → (api : Reapi) → Stable q (run_sched_loop api q).0
unfolding run_sched_loop
run_sched_loop-Stable q active api = by_class q.derived
  where
    by_class : (d : Derived) → Stable q (run_sched_loop_of api d q).0
    by_class (fcfs f) =
        if_intro (Stably q) q.sched_loop_active (λ _. Stable-refl q) (λ idle. absurd (cc))
    by_class (backfill b) =
        if_intro (Stably q) q.sched_loop_active
          (λ _. if_intro (Stably q) q.sched_loop_active (λ _. Stable-refl q) (λ idle. absurd (cc)))
          (λ idle. absurd (cc))

reconstruct_queue-Stable : (q : Queue) (j : Job) → Stable q (reconstruct_queue (some j) q).0
unfolding reconstruct_queue
reconstruct_queue-Stable q j = elim (Option-cases (find j.id q.jobs)) [
  | inr (i, known) ↦ rw (known, reconstruct_queue) (Stable-refl q)
  | inl absent ↦
      rw (absent, reconstruct_queue)
        (if_intro (Stably q) (insert q.rq_cnt j.id q.running).1
          (λ _. record { pending = refl; active = refl; iter = refl })
          (λ _. record { pending = refl; active = refl; iter = refl }))
]

resume-Stable : (q : Queue) (rc : Rc) (j : Job) → Stable q (resume rc j q).0
unfolding resume
resume-Stable q (err e) j = Stable-refl q
resume-Stable q ok j = reconstruct_queue-Stable q j

pub reconstruct-Stable : (q : Queue) (api : Reapi) (j : Job) → Stable q (reconstruct api j q).0
unfolding reconstruct
reconstruct-Stable q api j =
    let (rc, r_out, at, ov) = api.update_allocate j.id j.schedule.r j.schedule.at j.schedule.ov in
    resume-Stable q rc (record j { schedule = record (j.schedule) { at = at; ov = ov } })

pub alloced_pop-Stable : (q : Queue) → Stable q (alloced_pop q).0
unfolding alloced_pop
alloced_pop-Stable q = elim (Option-cases (first_job q.alloced q)) [
  | inl empty ↦ rw (empty, alloced_pop) (Stable-refl q)
  | inr ((id, j), e) ↦ rw (e, alloced_pop) (record { pending = refl; active = refl; iter = refl })
]

pub rejected_pop-Stable : (q : Queue) → Stable q (rejected_pop q).0
unfolding rejected_pop
rejected_pop-Stable q = elim (Option-cases (first_job q.rejected q)) [
  | inl empty ↦ rw (empty, rejected_pop) (Stable-refl q)
  | inr ((id, j), e) ↦ rw (e, rejected_pop) (record { pending = refl; active = refl; iter = refl })
]

-- The calls other than the answers of the resource module and `pending_pop`.
unfoldable pub is_outside : Call → Bool
is_outside (Call.answer a) = false
is_outside Call.pop_pending = false
is_outside _ = true

-- While a loop is active, every call other than pending_pop and the answers of the resource
-- module leaves m_pending, the loop's iterator and the activity of the loop as they were.
pub perform-Stable :
    (api : Reapi) (c : Call) (q : Queue)
    → is_outside c ≡ true
    → q.sched_loop_active ≡ true
    → Stable q (perform api c q)
unfolding perform is_outside
perform-Stable api (Call.alloc j) q out active = insert_job-Stable q (some j)
perform-Stable api (Call.hello j) q out active =
    reconstruct-Stable q api (record j { state = JobState.running })
perform-Stable api (Call.free id final r) q out active = remove-Stable q active api id final r
perform-Stable api (Call.cancel id) q out active = remove_pending-Stable q active id
perform-Stable api (Call.prioritize id p) q out active = pending_reprioritize-Stable q active id p
perform-Stable api Call.reconsider q out active = reconsider_blocked_jobs-Stable q active
perform-Stable api Call.run q out active = run_sched_loop-Stable q active api
perform-Stable api (Call.answer a) q out active = absurd (cc)
perform-Stable api Call.pop_pending q out active = absurd (cc)
perform-Stable api Call.pop_alloced q out active = alloced_pop-Stable q
perform-Stable api Call.pop_rejected q out active = rejected_pop-Stable q
