-- ===== src/Calls.antt =====
-- qmanager/modules/qmanager_callbacks.cpp and resource/reapi/bindings/c++/reapi_module_impl.hpp: the
-- calls that reach a queue from outside, as one step of its state.
pub mod Invariant
pub mod Stability
pub mod Iterator
pub mod Progress
pub mod Callers
pub mod Safety
use Prim.Native.String.{String}
use flux_sched.Common.{ℕ, ◌+◌, ◌<◌, Bool, some}
use flux_sched.Queue.Job.{Job, JobState, u64_mod}
use flux_sched.Queue.State.{Queue, Reapi}
use flux_sched.Queue.Pending.{insert_job, remove_pending, reconsider_blocked_jobs}
use flux_sched.Queue.Provisional.{pending_reprioritize}
use flux_sched.Queue.Remove.{remove}
use flux_sched.Queue.Running.{reconstruct}
use flux_sched.Queue.Pop.{pending_pop, alloced_pop, rejected_pop}
use flux_sched.Policy.Dispatch.{run_sched_loop, Answer, match_allocate_multi_cont}

pub data Call : Type 0 where
  alloc : Job → Call
  hello : Job → Call
  free : ℕ → Bool → String → Call
  cancel : ℕ → Call
  prioritize : ℕ → ℕ → Call
  reconsider run : Call
  answer : Answer → Call
  pop_pending pop_alloced pop_rejected : Call

-- The state after a call. `hello` gives the job the state RUNNING first, as its callback does.
unfoldable pub perform : Reapi → Call → Queue → Queue
unfolding insert_job reconstruct remove remove_pending pending_reprioritize reconsider_blocked_jobs
    run_sched_loop match_allocate_multi_cont pending_pop alloced_pop rejected_pop
perform api (Call.alloc j) q = (insert_job q (some j)).0
perform api (Call.hello j) q = (reconstruct api (record j { state = JobState.running }) q).0
perform api (Call.free id final r) q = (remove api id final r q).0
perform api (Call.cancel id) q = (remove_pending id q).0
perform api (Call.prioritize id p) q = (pending_reprioritize id p q).0
perform api Call.reconsider q = reconsider_blocked_jobs q
perform api Call.run q = (run_sched_loop api q).0
perform api (Call.answer a) q = match_allocate_multi_cont api a q
perform api Call.pop_pending q = (pending_pop q).0
perform api Call.pop_alloced q = (alloced_pop q).0
perform api Call.pop_rejected q = (rejected_pop q).0

-- No 64-bit sequence number wraps at the next call.
pub record HasRoom (q : Queue) : Type 0 where
  pub pq_lt : q.pq_cnt + 1 < u64_mod
  pub rq_lt : q.rq_cnt + 1 < u64_mod
  pub dq_lt : q.dq_cnt + 1 < u64_mod

-- The states that a queue goes through, from a state `start` on.
pub data Reachable (api : Reapi) (start : Queue) : Queue → Type 0 where
  begun : Reachable api start start
  called :
      (q : Queue) (c : Call)
      → Reachable api start q
      → HasRoom q
      → Reachable api start (perform api c q)
