-- ===== src/Lib.antt =====
-- The queue manager of flux-sched, its queues of jobs and its scheduling loops; the planner, which
-- keeps how much of a resource is free when; and the namespace remapper of the resource readers.
--
-- A queue (qmanager/policies/base/queue_policy_base.hpp) holds the jobs of the job manager: pending
-- ones in m_pending, m_blocked and m_pending_provisional, started and rejected ones in queues by
-- sequence number. A policy (qmanager/policies) walks m_pending in a loop: it asks the resource
-- module to match jobs and goes on when the answers arrive, so that other calls come in while a
-- loop is active. Those calls are put off, and done when the loop ends.
--
-- A planner (resource/planner) has a total of one resource, and spans: quantities that are planned
-- from a start time to a last time. It keeps scheduled points, the times at which a span starts or
-- ends, with what is scheduled and what remains from there on, in a tree by time and in a tree by
-- quantity.
--
--   Common      Boolean tests on the native numbers, list and option helpers
--   OrdMap      std::map: a sorted list of entries; find, insert, erase, merge, iterators by key
--   Queue       queue_policy_base_t
--     Job, State            job_t, its keys and states; the members of a queue; the resource API
--     Pending, Provisional  insert, remove_pending, erase_pending_job; what a loop puts off:
--                           process_provisional_cancel, _reprio, _reconsider, set_sched_loop_active,
--                           pending_reprioritize
--     Remove, Pop, Running  remove; the pops; to_running, to_rejected, reconstruct_queue
--     Params                set_params, set_param, is_number, apply_params
--     Ledger, Invariant     the invariant of the pending side on lookups, and its preservation
--     Frame                 what the operations on the pending side leave alone
--     Behaviour             the final free of a job, and the adjusted priority
--     Transitions, Stuck    to_running, to_rejected, insert and the reconsideration of blocked jobs,
--                           told by lookups; a deferred cancellation that can never be processed
--   Policy      queue_policy_fcfs_impl.hpp (Fcfs), queue_policy_bf_base_impl.hpp (Backfill), the
--               parameters of the three backfill classes (Params), and the virtual calls with
--               match_allocate_multi_cont of
--               resource/reapi/bindings/c++/reapi_module_impl.hpp (Dispatch)
--   Calls       the calls from qmanager/modules/qmanager_callbacks.cpp as steps of one queue, with
--               the invariants over sequences of calls
--   Manager     the callbacks of qmanager/modules/qmanager_callbacks.cpp over the queues by name
--     Sound, Requests, Settled  the invariant of all queues; where an alloc request puts a job;
--                           requests on jobs that are not pending; the prepare watcher
--   Planner     resource/planner/c++/planner.cpp and resource/planner/c/planner_c_interface.cpp
--     State, Points         the members of a planner, its points and spans; the helpers on points
--     Avail, Spans          the queries; planner_add_span, planner_rem_span, planner_reduce_span
--     Lifecycle             planner_new, planner_reset, update_total, the readers of spans
--     Usage                 the reference: the sum over the spans whose window holds a time
--     Describes, Steps      what the points tell against that sum, and how writes change it
--     View, Walk, Window, Release    lemmas on the operations on points
--     Sound, Attach         the invariant, and a reference to a point
--     Fits, Entering, AddSpan, Adding, Subtract, RemSpan, Reduce   the operations on spans
--     Answers, Least        the queries
--     Search, Found, Reaching, Succeeds  planner_avail_time_first: what it answers, and where it
--                           finds a time
--     Fresh, Total, Serve   planner_new and planner_reset; update_total; the calls in any order
--     Tree                  scheduled_point_tree.cpp and mintime_resource_tree.cpp: the searches
--   Remapper    resource/readers/resource_namespace_remapper.cpp
--   Tests       small queues, and each theorem at a concrete input
--
-- The state is passed explicitly, and a call returns the new state with its result; errno is part
-- of a failure. A shared pointer to a job is the job's id in m_jobs. An iterator into m_pending is
-- the key of its element, or none at the end; a read through the end or through a missing job is
-- the result `fault`. Counters of type uint64_t wrap at 2^64 and int counters are 32-bit patterns;
-- where a theorem needs that no sequence number wraps, it says so. All loops of a queue are
-- structural recursion over a map, so that no fuel is needed. The calls of the resource module, and
-- json_loads, are the fields of the record Reapi, an argument of the definitions.
--
-- In a planner a time, an int64_t, stands as its value plus 2^63, which keeps the order, and a
-- quantity or an id as its 64 bits; sums wrap at 2^64. A pointer to a scheduled point is the point's
-- time. The red-black trees are a copied library: the planner uses them as maps by time, and the
-- searches that the repository programs on their nodes are functions on binary trees that are
-- assumed ordered. The maps compare times exactly, where get_state takes the sign of a difference
-- that can overflow between times more than 2^63 apart; Tree/State writes the difference out. The
-- search of avail_at runs on fuel for each entry of the mintime tree and one more, which is enough
-- since each turn takes an entry out; what the loop leaves in its variable `at` is carried from turn
-- to turn, and -1 is the time 2^63 - 1 here. A count of references, an int, is a natural number. A
-- read through a null pointer is the result `crash`. Calls with a null planner are left out.
--
-- Not modelled: the JSON output and the logging of a queue, the rest of the resource module
-- (traversal, planner_multi, the comparison and the copies of planners, readers, writers), the
-- jobspec library, the command line tools, and the libraries copied from other projects. A double
-- is the bit pattern of a finite non-negative number. Failures of memory allocation are left out.
pub mod Common
pub mod OrdMap
pub mod Queue
pub mod Policy
pub mod Calls
pub mod Tests
pub mod Manager
pub mod Remapper
pub mod Planner
