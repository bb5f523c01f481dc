-- ===== src/Calls/Callers.antt =====
-- qmanager/modules/qmanager_callbacks.cpp: a backfill queue has its loop's iterator at an entry
-- through all calls but `pending_pop`.
use Prim.Native.String.{String}
use flux_sched.Common.{
  ℕ, ◌≡◌, ◌≢◌, refl, ◌∙◌, sym, subst, true, false, Bool, some, if_intro, Option-cases, Bool-cases,
  inl, inr, arith,
}
use flux_sched.OrdMap.{find, nat_key}
use flux_sched.Queue.Job.{Job, JobState, pending_key}
use flux_sched.Queue.State.{Queue, Reapi, failed, backfill, Backfill}
use flux_sched.Queue.Pending.{cancel_sched_loop}
use flux_sched.Queue.Provisional.{set_sched_loop_active}
use flux_sched.Queue.Frame.{
  remove_pending-Frame, reconsider_blocked_jobs-Frame, cancel_sched_loop-Frame,
}
use flux_sched.Queue.Frame.Calls.{insert_job-Frame, pending_reprioritize-Frame}
use flux_sched.Queue.Remove.{remove, remove_by_state, remove_found}
use flux_sched.Queue.Invariant.Remove.{IsSound}
use flux_sched.Policy.Dispatch.{
  run_sched_loop, run_sched_loop_of, Answer, success, failure, match_allocate_multi_cont,
  handle_match_success, handle_match_failure, handle_match_success_of, handle_match_failure_of,
}
use flux_sched.Calls.{Call, perform}
use flux_sched.Calls.Stability.{
  Stable, is_outside, perform-Stable, release-Stable, reconstruct-Stable, alloced_pop-Stable,
  rejected_pop-Stable,
}
use flux_sched.Calls.Iterator.{
  IsIterating, idle_lem, set_idle-IsIterating, handle_match_success_bf-IsIterating,
  handle_match_failure_bf-IsIterating, run_sched_loop_bf-IsIterating,
}

remove_found-active :
    (q : Queue) (api : Reapi) (id : ℕ) (j : Job) (st : JobState) (final : Bool) (r : String)
    → (remove_found api id j st final r q).0.sched_loop_active ≡ q.sched_loop_active
unfolding remove_found
remove_found-active q api id j JobState.pending final r = (remove_pending-Frame q id).active
remove_found-active q api id j JobState.alloc_running final r =
    (release-Stable q api j final r).active
remove_found-active q api id j JobState.running final r = (release-Stable q api j final r).active
remove_found-active q api id j _ final r = refl

remove-active :
    (q : Queue) (api : Reapi) (id : ℕ) (final : Bool) (r : String)
    → (remove api id final r q).0.sched_loop_active ≡ q.sched_loop_active
unfolding remove remove_by_state
remove-active q api id final r =
    let q1 : Queue = (remove_by_state api id final r q).0 in
    (reconsider_blocked_jobs-Frame (cancel_sched_loop q1).0).active
    ∙ (cancel_sched_loop-Frame q1).active
    ∙ (elim (Option-cases (find id q.jobs)) [
      | inl absent ↦ rw (absent, remove_by_state) refl
      | inr (j, found) ↦
          rw (found, remove_by_state) (remove_found-active q api id j j.state final r)
    ])

-- A loop starts by `run_sched_loop` alone.
outside-active :
    (api : Reapi) (q : Queue) (c : Call)
    → is_outside c ≡ true
    → c ≢ Call.run
    → (perform api c q).sched_loop_active ≡ q.sched_loop_active
unfolding perform is_outside
outside-active api q (Call.alloc j) out h = (insert_job-Frame q (some j)).active
outside-active api q (Call.hello j) out h =
    (reconstruct-Stable q api (record j { state = JobState.running })).active
outside-active api q (Call.free id final r) out h = remove-active q api id final r
outside-active api q (Call.cancel id) out h = (remove_pending-Frame q id).active
outside-active api q (Call.prioritize id p) out h = (pending_reprioritize-Frame q id p).active
outside-active api q Call.reconsider out h = (reconsider_blocked_jobs-Frame q).active
outside-active api q Call.run out h = absurd (h refl)
outside-active api q (Call.answer a) out h = absurd (cc)
outside-active api q Call.pop_pending out h = absurd (cc)
outside-active api q Call.pop_alloced out h = (alloced_pop-Stable q).active
outside-active api q Call.pop_rejected out h = (rejected_pop-Stable q).active

module _ (api : Reapi) (q : Queue) (b : Backfill) (class : q.derived ≡ backfill b) (s : IsSound q)
    (it : IsIterating q) where
  Stable-IsIterating : (q' : Queue) → q.sched_loop_active ≡ true → Stable q q' → IsIterating q'
  Stable-IsIterating q' active st b' class' active' =
      let (k, i, hit) = it b class active in
      (k, ground (arith, st.iter, class, class', i), rw (st.pending) hit)

  outside-IsIterating :
      (c : Call) → is_outside c ≡ true → c ≢ Call.run → IsIterating (perform api c q)
  outside-IsIterating c out h = elim (Bool-cases q.sched_loop_active) [
    | inl active ↦ Stable-IsIterating (perform api c q) active (perform-Stable api c q out active)
    | inr idle ↦ idle_lem (perform api c q) (outside-active api q c out h ∙ idle)
  ]

  answer-IsIterating : (a : Answer) → IsIterating (match_allocate_multi_cont api a q)
  unfolding match_allocate_multi_cont handle_match_success handle_match_failure
  answer-IsIterating (success m) =
      if_intro IsIterating (failed (handle_match_success api m q).1)
        (λ _.
          idle_lem (set_sched_loop_active false (handle_match_success api m q).0).0
            (set_idle-IsIterating (handle_match_success api m q).0))
        (λ _.
          subst (λ d. IsIterating (handle_match_success_of api m d q).0) (sym class)
            (handle_match_success_bf-IsIterating api m b q s it))
  answer-IsIterating (failure e) =
      subst (λ d. IsIterating (handle_match_failure_of api e d q).0) (sym class)
        (handle_match_failure_bf-IsIterating api e b q s it)

  run-IsIterating : IsIterating (run_sched_loop api q).0
  unfolding run_sched_loop
  run-IsIterating =
      subst (λ d. IsIterating (run_sched_loop_of api d q).0) (sym class)
        (run_sched_loop_bf-IsIterating api b q it)

  -- Of a sound backfill queue, every call other than pending_pop (and canceled_pop, which is no
  -- such call) keeps that the iterator of an active loop is at an entry of m_pending.
  pub perform-IsIterating : (c : Call) → c ≢ Call.pop_pending → IsIterating (perform api c q)
  unfolding perform is_outside
  perform-IsIterating (Call.answer a) h = answer-IsIterating a
  perform-IsIterating Call.run h = run-IsIterating
  perform-IsIterating Call.pop_pending h = absurd (h refl)
  perform-IsIterating (Call.alloc j) h = outside-IsIterating (Call.alloc j) refl (λ e. cc)
  perform-IsIterating (Call.hello j) h = outside-IsIterating (Call.hello j) refl (λ e. cc)
  perform-IsIterating (Call.free id final r) h =
      outside-IsIterating (Call.free id final r) refl (λ e. cc)
  perform-IsIterating (Call.cancel id) h = outside-IsIterating (Call.cancel id) refl (λ e. cc)
  perform-IsIterating (Call.prioritize id p) h =
      outside-IsIterating (Call.prioritize id p) refl (λ e. cc)
  perform-IsIterating Call.reconsider h = outside-IsIterating Call.reconsider refl (λ e. cc)
  perform-IsIterating Call.pop_alloced h = outside-IsIterating Call.pop_alloced refl (λ e. cc)
  perform-IsIterating Call.pop_rejected h = outside-IsIterating Call.pop_rejected refl (λ e. cc)
