-- ===== src/Manager/Requests.antt =====
-- qmanager/modules/qmanager_callbacks.cpp: where an alloc request puts a job, and what the prepare watcher
-- asks for.
use flux_sched.Common.{
  ℕ, ◌-◌, ◌≡◌, ◌≢◌, ◌≤◌, ◌⊎◌, ◌↔◌, refl, ap, ◌∙◌, Bool, true, false, ◌||◌, [], ◌∷◌, ◌++◌, none,
  some, if◌then◌else◌, inl, inr, arith, Bool-cases,
}
use flux_sched.Queue.Job.{Job, JobState, calc_priority}
use flux_sched.Queue.State.{Queue, Rc, ok}
use flux_sched.Queue.Pending.{lookup, insert_job}
use flux_sched.Queue.Transitions.{insert_job-Enters}
use flux_sched.Queue.Params.{Str, same_str}
use flux_sched.Manager.{
  Queues, at_name, Naming, Alloc, alloc_job, queue_for, alloc_in, jobmanager_alloc_cb, Reply,
  any_schedulable, any_scheduled, prep_watcher_cb, Watch,
}

same_str_refl : (s : Str) → same_str s s ≡ true
unfolding same_str
same_str_refl [] = refl
same_str_refl (c ∷ s) = ground (arith, same_str_refl s)

same_str-eq : (s t : Str) → same_str s t ≡ true → s ≡ t
unfolding same_str
same_str-eq [] [] h = refl
same_str-eq [] (c ∷ t) h = cc
same_str-eq (c ∷ s) [] h = cc
same_str-eq (c ∷ s) (d ∷ t) h = ground (arith, h, same_str-eq s t)

-- No queue of the list has the name.
abbrev pub Unnamed : Str → Queues → Type 0
Unnamed name [] = Unit
Unnamed name ((n, _) ∷ qs) = (n ≢ name) × Unnamed name qs

at_name-found :
    (name : Str) (f : Queue → Queue × Rc) (before after : Queues) (q : Queue)
    → Unnamed name before
    → at_name name f (before ++ ((name, q) ∷ after))
      ≡ some (before ++ ((name, (f q).0) ∷ after), (f q).1)
unfolding at_name
at_name-found name f [] after q u = rw (same_str_refl name) refl
at_name-found name f ((n, p) ∷ before) after q u = elim (Bool-cases (same_str n name)) [
  | inl same ↦ absurd (u.0 (same_str-eq n name same))
  | inr other ↦ rw (other, at_name-found name f before after q u.1) refl
]

-- The name that a job goes by: the default where the jobspec names no queue.
abbrev pub named : Naming → Str → Str
named o [] = o.default_queue_name
named o (c ∷ s) = c ∷ s

queue_for-named : (o : Naming) (s : Str) → queue_for o s ≡ o.resolve_queue_name (named o s)
unfolding queue_for
queue_for-named o [] = refl
queue_for-named o (c ∷ s) = refl

-- The job of an alloc request is pending in a queue, under the adjusted priority.
pub record IsQueued (a : Alloc) (j : Job) : Type 0 where
  pub pending : j.state ≡ JobState.pending
  pub priority : j.priority ≡ 4294967295 - a.priority
  pub id : j.id ≡ a.id
  pub userid : j.userid ≡ a.userid
  pub t_submit : j.t_submit ≡ a.t_submit
  pub jobspec : j.jobspec ≡ a.jobspec
  pub msg : j.msg ≡ a.msg

calc_priority-plain : (p : ℕ) → p ≤ 4294967295 → calc_priority p ≡ 4294967295 - p
unfolding calc_priority
calc_priority-plain p h = ground (arith, h)

jobmanager_alloc_cb-alloc_in :
    (o : Naming) (a : Alloc) (s : Str) (qs : Queues)
    → o.jobspec_queue a.jobspec ≡ some s
    → jobmanager_alloc_cb o (some a) qs ≡ alloc_in a (queue_for o s) qs
unfolding jobmanager_alloc_cb
jobmanager_alloc_cb-alloc_in o a s qs reads = rw (reads, jobmanager_alloc_cb) refl

alloc_in-found :
    (a : Alloc) (name : Str) (before after : Queues) (q : Queue)
    → Unnamed name before
    → (insert_job q (some (alloc_job a))).1 ≡ ok
    → alloc_in a name (before ++ ((name, q) ∷ after))
      ≡ (before ++ ((name, (insert_job q (some (alloc_job a))).0) ∷ after), Reply.accepted)
unfolding alloc_in
alloc_in-found a name before after q first good =
    rw (at_name-found name (λ x. insert_job x (some (alloc_job a))) before after q first, alloc_in)
      (rw good refl)

-- An alloc request whose jobspec can be read, whose priority is at most 4294967295, whose id is
-- not in use in the queue of the name that its jobspec resolves to (or the default queue where the
-- jobspec names none), is accepted: the job is then pending in that queue as the message gives it,
-- under the adjusted priority, every other job of that queue is found as before, and the other
-- queues are as they were.
pub jobmanager_alloc_cb-IsQueued :
    (o : Naming) (a : Alloc) (s name : Str) (before after : Queues) (q : Queue)
    → o.jobspec_queue a.jobspec ≡ some s
    → o.resolve_queue_name (named o s) ≡ name
    → Unnamed name before
    → lookup q a.id ≡ none
    → a.priority ≤ 4294967295
    → (q' : Queue) × (j : Job) × (jobmanager_alloc_cb o (some a) (before ++ ((name, q) ∷ after))
        ≡ (before ++ ((name, q') ∷ after), Reply.accepted))
      × (lookup q' a.id ≡ some j)
      × IsQueued a j
      × ((i : ℕ) → i ≢ a.id → lookup q' i ≡ lookup q i)
unfolding alloc_job
jobmanager_alloc_cb-IsQueued o a s name before after q reads resolves first absent small =
    let (good, entered, others, _, _, _) = insert_job-Enters q (alloc_job a) absent in
    (
      (insert_job q (some (alloc_job a))).0,
      _,
      jobmanager_alloc_cb-alloc_in o a s (before ++ ((name, q) ∷ after)) reads
          ∙ ap (λ n. alloc_in a n (before ++ ((name, q) ∷ after))) (queue_for-named o s ∙ resolves)
          ∙ alloc_in-found a name before after q first good,
      entered,
      record {
        pending = refl;
        priority = calc_priority-plain a.priority small;
        id = refl;
        userid = refl;
        t_submit = refl;
        jobspec = refl;
        msg = refl;
      },
      others,
    )

clash : false ≡ true → ⊥
clash h = cc

-- One of the queues has the property.
abbrev pub AnyQueue : (Queue → Type 0) → Queues → Type 0
AnyQueue P [] = ⊥
AnyQueue P ((n, q) ∷ qs) = P q ⊎ AnyQueue P qs

abbrev pub Schedulable : Queue → Type 0
Schedulable q = q.schedulable ≡ true

abbrev pub HasNews : Queue → Type 0
HasNews q = (q.scheduled ≡ true) ⊎ (q.annotation_dirty ≡ true)

any_schedulable_iff : (qs : Queues) → (any_schedulable qs ≡ true) ↔ AnyQueue Schedulable qs
unfolding any_schedulable
any_schedulable_iff [] = ground arith
any_schedulable_iff ((n, q) ∷ qs) = ground (arith, any_schedulable_iff qs)

any_scheduled_iff : (qs : Queues) → (any_scheduled qs ≡ true) ↔ AnyQueue HasNews qs
unfolding any_scheduled
any_scheduled_iff [] = ground arith
any_scheduled_iff ((n, q) ∷ qs) = ground (arith, any_scheduled_iff qs)

either_iff :
    (a b c : Bool) {A B : Type 0}
    → ((a ≡ true) ↔ A)
    → ((b ≡ true) ↔ B)
    → ((if a || b then true else c) ≡ true) ↔ (A ⊎ B ⊎ (c ≡ true))
either_iff true b c {A} {B} sa sb = (λ _. inl (sa.0 refl), λ _. refl)
either_iff false true c {A} {B} sa sb = (λ _. inr (inl (sb.0 refl)), λ _. refl)
either_iff false false c {A} {B} sa sb = (λ h. inr (inr h), neither)
  where
    neither : A ⊎ B ⊎ (c ≡ true) → c ≡ true
    neither (inl x) = absurd (clash (sa.1 x))
    neither (inr (inl x)) = absurd (clash (sb.1 x))
    neither (inr (inr h)) = h

-- The prepare watcher asks for a scheduling loop exactly where one of the queues is schedulable,
-- and for the messages to the job manager exactly where one of them has scheduled a job or has an
-- annotation to send; the idle watcher runs afterwards exactly where one of the two is asked for
-- or it ran before.
pub prep_watcher_cb-asks :
    (qs : Queues) (w : Watch)
    → (((prep_watcher_cb qs w).pls_sched_loop ≡ true) ↔ AnyQueue Schedulable qs)
      × (((prep_watcher_cb qs w).pls_post_loop ≡ true) ↔ AnyQueue HasNews qs)
      × (((prep_watcher_cb qs w).idle ≡ true)
          ↔ (AnyQueue Schedulable qs ⊎ AnyQueue HasNews qs ⊎ (w.idle ≡ true)))
unfolding prep_watcher_cb
prep_watcher_cb-asks qs w =
    let sched = any_schedulable_iff qs in
    let news = any_scheduled_iff qs in
    (sched, news, either_iff (any_schedulable qs) (any_scheduled qs) w.idle sched news)
