-- ===== src/Policy/Dispatch.antt =====
-- The virtual calls on a queue, dispatched on its class, and the continuation of
-- `match_allocate_multi` in resource/reapi/bindings/c++/reapi_module_impl.hpp, which makes them.
use flux_sched.Common.{false, if◌then◌else◌}
use flux_sched.Queue.State.{Queue, Derived, fcfs, backfill, Errno, Rc, Reapi, failed}
use flux_sched.Queue.Provisional.{set_sched_loop_active}
use flux_sched.Policy.Fcfs.{
  Loop, returned, Match, run_sched_loop_fcfs, handle_match_success_fcfs, handle_match_failure_fcfs,
}
use flux_sched.Policy.Backfill.{run_sched_loop_bf, handle_match_success_bf, handle_match_failure_bf}

abbrev pub run_sched_loop_of : Reapi → Derived → Queue → Queue × Loop
run_sched_loop_of api (fcfs f) q = run_sched_loop_fcfs api f q
run_sched_loop_of api (backfill b) q = let (q', rc) = run_sched_loop_bf api b q in (q', returned rc)

unfoldable pub run_sched_loop : Reapi → Queue → Queue × Loop
unfolding run_sched_loop_fcfs run_sched_loop_bf
run_sched_loop api q = run_sched_loop_of api q.derived q

abbrev pub handle_match_success_of : Reapi → Match → Derived → Queue → Queue × Rc
handle_match_success_of api m (fcfs f) q = handle_match_success_fcfs m f q
handle_match_success_of api m (backfill b) q = handle_match_success_bf api m b q

unfoldable pub handle_match_success : Reapi → Match → Queue → Queue × Rc
unfolding handle_match_success_fcfs handle_match_success_bf
handle_match_success api m q = handle_match_success_of api m q.derived q

abbrev pub handle_match_failure_of : Reapi → Errno → Derived → Queue → Queue × Rc
handle_match_failure_of api e (fcfs f) q = handle_match_failure_fcfs e f q
handle_match_failure_of api e (backfill b) q = handle_match_failure_bf api e b q

unfoldable pub handle_match_failure : Reapi → Errno → Queue → Queue × Rc
unfolding handle_match_failure_fcfs handle_match_failure_bf
handle_match_failure api e q = handle_match_failure_of api e q.derived q

-- An answer of the resource module: a match, or the error with which the stream of answers ends.
pub data Answer : Type 0 where
  success : Match → Answer
  failure : Errno → Answer

unfoldable pub match_allocate_multi_cont : Reapi → Answer → Queue → Queue
unfolding handle_match_success handle_match_failure set_sched_loop_active
match_allocate_multi_cont api (success m) q =
    let (q', rc) = handle_match_success api m q in
    if failed rc then (set_sched_loop_active false q').0 else q'
match_allocate_multi_cont api (failure e) q = (handle_match_failure api e q).0
