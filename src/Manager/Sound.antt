-- ===== src/Manager/Sound.antt =====
-- qmanager/modules/qmanager_callbacks.cpp: the callbacks keep all queues sound.
use flux_sched.Common.{
  ℕ, ◌+◌, ◌<◌, List, [], ◌∷◌, Option, none, some, if_intro, if◌then◌else◌, Option-cases, inl, inr,
}
use flux_sched.Queue.Job.{u64_mod, is_pending, calc_priority}
use flux_sched.Queue.State.{Queue, Rc, Reapi, failed}
use flux_sched.Queue.Pending.{lookup, insert_job}
use flux_sched.Queue.Provisional.{pending_reprioritize}
use flux_sched.Queue.Remove.{remove}
use flux_sched.Queue.Frame.{remove_pending-Frame}
use flux_sched.Queue.Frame.Calls.{insert_job-Frame, pending_reprioritize-Frame}
use flux_sched.Queue.Invariant.Pending.{insert_job-IsValid, remove_pending-IsValid}
use flux_sched.Queue.Invariant.Provisional.{pending_reprioritize-IsValid}
use flux_sched.Queue.Invariant.Remove.{IsSound, Frame-IsSound, remove-IsSound}
use flux_sched.Queue.Params.{Str, same_str}
use flux_sched.Manager.{
  Queues, at_job, at_name, jobmanager_free_cb, cancel_if_pending, jobmanager_cancel_cb, ends_loop,
  jobmanager_prioritize_cb, Naming, Alloc, alloc_job, queue_for, alloc_in, jobmanager_alloc_cb,
  Request, serve, Reply,
}

-- Every queue has the property.
abbrev pub AllQueues : (Queue → Type 0) → Queues → Type 0
AllQueues P [] = Unit
AllQueues P ((n, q) ∷ qs) = P q × AllQueues P qs

abbrev pub HasPendingRoom : Queue → Type 0
HasPendingRoom q = q.pq_cnt + 1 < u64_mod

at_job-AllQueues :
    (P : Queue → Type 0) (id : ℕ) (f : Queue → Queue × Rc)
    → ((q : Queue) → P q → P (f q).0)
    → (qs : Queues) → AllQueues P qs
    → AllQueues P (at_job id f qs).0
unfolding at_job
at_job-AllQueues P id f h [] a = tt
at_job-AllQueues P id f h ((n, q) ∷ qs) a = elim (Option-cases (lookup q id)) [
  | inl e ↦ rw (e, at_job) (a.0, at_job-AllQueues P id f h qs a.1)
  | inr (j, e) ↦ rw (e, at_job) (h q a.0, a.1)
]

-- A result of `at_name`.
abbrev AllFound : (Queue → Type 0) → Option (Queues × Rc) → Type 0
AllFound P none = Unit
AllFound P (some (qs, rc)) = AllQueues P qs

AllFound-cons :
    (P : Queue → Type 0) (n : Str) (q : Queue) (o : Option (Queues × Rc))
    → P q
    → AllFound P o
    → AllFound P (elim o [ none ↦ none | some (qs, rc) ↦ some ((n, q) ∷ qs, rc) ])
AllFound-cons P n q none p a = tt
AllFound-cons P n q (some (qs, rc)) p a = (p, a)

at_name-AllFound :
    (P R : Queue → Type 0) (name : Str) (f : Queue → Queue × Rc)
    → ((q : Queue) → P q → R q → P (f q).0)
    → (qs : Queues) → AllQueues P qs
    → AllQueues R qs
    → AllFound P (at_name name f qs)
unfolding at_name
at_name-AllFound P R name f h [] a r = tt
at_name-AllFound P R name f h ((n, q) ∷ qs) a r =
    if_intro (AllFound P) (same_str n name) (λ _. (h q a.0 r.0, a.1))
      (λ _. AllFound-cons P n q (at_name name f qs) a.0 (at_name-AllFound P R name f h qs a.1 r.1))

cancel_if_pending-IsSound : (id : ℕ) (q : Queue) → IsSound q → IsSound (cancel_if_pending id q).0
unfolding cancel_if_pending
cancel_if_pending-IsSound id q s = elim (Option-cases (lookup q id)) [
  | inl e ↦ rw (e, cancel_if_pending) s
  | inr (j, e) ↦
      rw (e, cancel_if_pending)
        (if_intro (λ (r : Queue × Rc). IsSound r.0) (is_pending j.state)
          (λ _. Frame-IsSound (remove_pending-Frame q id) (remove_pending-IsValid id s.valid) s)
          (λ _. s))
]

prioritize-AllQueues :
    (l : List (Option (ℕ × ℕ))) (qs : Queues)
    → AllQueues IsSound qs
    → AllQueues IsSound (jobmanager_prioritize_cb l qs)
unfolding jobmanager_prioritize_cb
prioritize-AllQueues [] qs a = a
prioritize-AllQueues (none ∷ l) qs a = a
prioritize-AllQueues (some (id, p) ∷ l) qs a =
    let a' =
      at_job-AllQueues IsSound id (pending_reprioritize id (calc_priority p))
        (λ q s.
          Frame-IsSound (pending_reprioritize-Frame q id (calc_priority p))
            (pending_reprioritize-IsValid id (calc_priority p) s.valid) s)
        qs a in
    let r = at_job id (pending_reprioritize id (calc_priority p)) qs in
    if_intro (AllQueues IsSound) (ends_loop r.1) (λ _. a') (λ _. prioritize-AllQueues l r.0 a')

module _ (qs : Queues) (a : AllQueues IsSound qs) (room : AllQueues HasPendingRoom qs) where
  alloc_in-AllQueues : (m : Alloc) (name : Str) → AllQueues IsSound (alloc_in m name qs).0
  unfolding alloc_in
  alloc_in-AllQueues m name = by_result (at_name name (λ q. insert_job q (some (alloc_job m))) qs) (
      at_name-AllFound IsSound HasPendingRoom name (λ q. insert_job q (some (alloc_job m)))
        (λ q s small.
          Frame-IsSound (insert_job-Frame q (some (alloc_job m)))
            (insert_job-IsValid (some (alloc_job m)) s.valid small) s)
        qs a room)
    where
      by_result :
          (o : Option (Queues × Rc))
          → AllFound IsSound o
          → AllQueues IsSound (
              (elim o as (λ _. Queues × Reply) [
                | none ↦ (qs, Reply.denied)
                | some (qs', rc) ↦ (qs', if failed rc then Reply.denied else Reply.accepted)
              ]).0)
      by_result none f = a
      by_result (some (qs', rc)) f = f

  alloc_cb-AllQueues :
      (o : Naming) (m : Option Alloc) → AllQueues IsSound (jobmanager_alloc_cb o m qs).0
  unfolding jobmanager_alloc_cb
  alloc_cb-AllQueues o none = a
  alloc_cb-AllQueues o (some m) = elim (Option-cases (o.jobspec_queue m.jobspec)) [
    | inl e ↦ rw (e, jobmanager_alloc_cb) a
    | inr (name, e) ↦ rw (e, jobmanager_alloc_cb) (alloc_in-AllQueues m (queue_for o name))
  ]

  -- Where all queues are sound and have room for one more pending job, they all are sound after
  -- any alloc, free, cancel or prioritize request, whatever the message holds.
  pub serve-AllQueues :
      (api : Reapi) (o : Naming) (r : Request) → AllQueues IsSound (serve api o r qs)
  unfolding serve jobmanager_free_cb jobmanager_cancel_cb
  serve-AllQueues api o (Request.alloc m) = alloc_cb-AllQueues o m
  serve-AllQueues api o (Request.free none) = a
  serve-AllQueues api o (Request.free (some (id, final, r))) =
      at_job-AllQueues IsSound id (λ q. remove api id final r q)
        (λ q s. remove-IsSound api id final r s) qs a
  serve-AllQueues api o (Request.cancel none) = a
  serve-AllQueues api o (Request.cancel (some id)) =
      at_job-AllQueues IsSound id (cancel_if_pending id) (λ q s. cancel_if_pending-IsSound id q s)
        qs a
  serve-AllQueues api o (Request.prioritize l) = prioritize-AllQueues l qs a
