-- ===== src/Calls/Invariant.antt =====
-- qmanager/modules/qmanager_callbacks.cpp: the invariants of a queue hold in every state that the
-- calls from outside lead to.
use flux_sched.Common.{◌≡◌, refl, false, some, if_intro}
use flux_sched.OrdMap.{nat_key}
use flux_sched.Queue.Job.{Job, JobState, is_pending, pending_key}
use flux_sched.Queue.State.{Queue, Reapi, Rc, ok, err, failed, Derived, fcfs, backfill}
use flux_sched.Queue.Running.{reconstruct, resume}
use flux_sched.Queue.Frame.{remove_pending-Frame}
use flux_sched.Queue.Frame.Calls.{insert_job-Frame, pending_reprioritize-Frame}
use flux_sched.Queue.Invariant.Pending.{insert_job-IsValid, remove_pending-IsValid}
use flux_sched.Queue.Invariant.Provisional.{pending_reprioritize-IsValid}
use flux_sched.Queue.Invariant.Pop.{
  pending_pop-IsSound, alloced_pop-IsSound, rejected_pop-IsSound, reconstruct_queue-IsSound,
}
use flux_sched.Queue.Invariant.Remove.{
  IsSound, Frame-IsSound, remove-IsSound, reconsider_blocked_jobs-IsSound,
}
use flux_sched.Policy.Dispatch.{
  run_sched_loop, run_sched_loop_of, handle_match_success, handle_match_success_of,
  handle_match_failure, handle_match_failure_of, Answer, success, failure,
  match_allocate_multi_cont,
}
use flux_sched.Policy.Invariant.{set_sched_loop_active-IsSound}
use flux_sched.Policy.FcfsInvariant.{
  run_sched_loop_fcfs-IsSound, handle_match_success_fcfs-IsSound, handle_match_failure_fcfs-IsSound,
}
use flux_sched.Policy.BackfillInvariant.{
  run_sched_loop_bf-IsSound, handle_match_success_bf-IsSound, handle_match_failure_bf-IsSound,
}
use flux_sched.Calls.{Call, perform, HasRoom, Reachable, begun, called}

run_sched_loop-IsSound : {q : Queue} (api : Reapi) → IsSound q → IsSound (run_sched_loop api q).0
unfolding run_sched_loop
run_sched_loop-IsSound {q} api s = by_class q.derived
  where
    by_class : (d : Derived) → IsSound (run_sched_loop_of api d q).0
    by_class (fcfs f) = run_sched_loop_fcfs-IsSound api f s
    by_class (backfill b) = run_sched_loop_bf-IsSound api b s

module _ {q : Queue} (api : Reapi) (room : HasRoom q) (s : IsSound q) where
  match_allocate_multi_cont-IsSound : (a : Answer) → IsSound (match_allocate_multi_cont api a q)
  unfolding match_allocate_multi_cont handle_match_success handle_match_failure
  match_allocate_multi_cont-IsSound (success m) =
      if_intro IsSound (failed (handle_match_success api m q).1)
        (λ _. set_sched_loop_active-IsSound false (by_class q.derived)) (λ _. by_class q.derived)
    where
      by_class : (d : Derived) → IsSound (handle_match_success_of api m d q).0
      by_class (fcfs f) = handle_match_success_fcfs-IsSound m f room.rq_lt s
      by_class (backfill b) = handle_match_success_bf-IsSound api m b room.rq_lt s
  match_allocate_multi_cont-IsSound (failure e) = by_class q.derived
    where
      by_class : (d : Derived) → IsSound (handle_match_failure_of api e d q).0
      by_class (fcfs f) = handle_match_failure_fcfs-IsSound e f room.dq_lt s
      by_class (backfill b) = handle_match_failure_bf-IsSound api e b room.dq_lt s

  resume-IsSound : (rc : Rc) (j : Job) → is_pending j.state ≡ false → IsSound (resume rc j q).0
  unfolding resume
  resume-IsSound (err e) j active = s
  resume-IsSound ok j active = reconstruct_queue-IsSound j active room.rq_lt s

  reconstruct-IsSound : (j : Job) → is_pending j.state ≡ false → IsSound (reconstruct api j q).0
  unfolding reconstruct
  reconstruct-IsSound j active =
      let (rc, r_out, at, ov) = api.update_allocate j.id j.schedule.r j.schedule.at j.schedule.ov in
      resume-IsSound rc (record j { schedule = record (j.schedule) { at = at; ov = ov } }) active

  -- Every call keeps the invariants, where no sequence number wraps.
  pub perform-IsSound : (c : Call) → IsSound (perform api c q)
  unfolding perform is_pending
  perform-IsSound (Call.alloc j) =
      Frame-IsSound (insert_job-Frame q (some j)) (insert_job-IsValid (some j) s.valid room.pq_lt) s
  perform-IsSound (Call.hello j) = reconstruct-IsSound (record j { state = JobState.running }) refl
  perform-IsSound (Call.free id final r) = remove-IsSound api id final r s
  perform-IsSound (Call.cancel id) =
      Frame-IsSound (remove_pending-Frame q id) (remove_pending-IsValid id s.valid) s
  perform-IsSound (Call.prioritize id p) =
      Frame-IsSound (pending_reprioritize-Frame q id p) (pending_reprioritize-IsValid id p s.valid)
        s
  perform-IsSound Call.reconsider = reconsider_blocked_jobs-IsSound s
  perform-IsSound Call.run = run_sched_loop-IsSound api s
  perform-IsSound (Call.answer a) = match_allocate_multi_cont-IsSound a
  perform-IsSound Call.pop_pending = pending_pop-IsSound s
  perform-IsSound Call.pop_alloced = alloced_pop-IsSound s
  perform-IsSound Call.pop_rejected = rejected_pop-IsSound s

-- From a sound state, every state that the calls from outside lead to is sound, where no 64-bit
-- sequence number wraps and canceled_pop is not called: each pending job has exactly one entry,
-- under its own key, in one of the three pending queues, each entry is that of a pending job,
-- the queues are in order, and the running and rejected queues hold old sequence numbers only.
pub Reachable-IsSound :
    (api : Reapi) (start : Queue) → IsSound start → (q : Queue) → Reachable api start q → IsSound q
Reachable-IsSound api start s q begun = s
Reachable-IsSound api start s q (called q' c r room) =
    perform-IsSound api room (Reachable-IsSound api start s q' r) c
