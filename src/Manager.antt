-- ===== src/Manager.antt =====
-- qmanager/modules/qmanager_callbacks.cpp: the callbacks of the job manager over the queues by name.
-- A message is what `flux_msg_unpack` reads from it, `none` where it fails; logging is left out.
pub mod Sound
pub mod Requests
pub mod Settled
use Prim.Native.String.{String}
use flux_sched.Common.{ℕ, Bool, true, false, ◌||◌, List, [], ◌∷◌, Option, none, some, if◌then◌else◌}
use flux_sched.OrdMap.{find, nat_key}
use flux_sched.Queue.Job.{Job, JobState, JobSelection, calc_priority, is_pending}
use flux_sched.Queue.State.{Queue, Rc, ok, err, einval, enoent, Reapi, failed}
use flux_sched.Queue.Pending.{lookup, insert_job, remove_pending}
use flux_sched.Queue.Provisional.{pending_reprioritize}
use flux_sched.Queue.Remove.{remove}
use flux_sched.Queue.Running.{reconstruct}
use flux_sched.Queue.Params.{Str, same_str}

-- The queues in the order of their names.
abbrev pub Queues : Type 0
Queues = List (Str × Queue)

-- What follows `find_queue`: a call on the first queue that knows the job.
unfoldable pub at_job : ℕ → (Queue → Queue × Rc) → Queues → Queues × Rc
unfolding lookup
at_job id f [] = ([], err enoent)
at_job id f ((n, q) ∷ qs) =
    let (qs', rc') = at_job id f qs in
    elim (lookup q id) [
      | none ↦ ((n, q) ∷ qs', rc')
      | some _ ↦ let (q', rc) = f q in ((n, q') ∷ qs, rc)
    ]

-- A call on `queues.at (name)`; `none` where there is no such queue.
unfoldable pub at_name : Str → (Queue → Queue × Rc) → Queues → Option (Queues × Rc)
unfolding same_str
at_name name f [] = none
at_name name f ((n, q) ∷ qs) =
    let rest = at_name name f qs in
    if same_str n name
    then (let (q', rc) = f q in some ((n, q') ∷ qs, rc))
    else elim rest [ none ↦ none | some (qs', rc) ↦ some ((n, q) ∷ qs', rc) ]

unfoldable pub jobmanager_free_cb : Reapi → Option (ℕ × Bool × String) → Queues → Queues
unfolding at_job remove
jobmanager_free_cb api none qs = qs
jobmanager_free_cb api (some (id, final, r)) qs = (at_job id (λ q. remove api id final r q) qs).0

-- A job that is no longer pending is left alone.
unfoldable pub cancel_if_pending : ℕ → Queue → Queue × Rc
unfolding lookup remove_pending is_pending
cancel_if_pending id q = elim (lookup q id) [
  | none ↦ (q, ok)
  | some j ↦ if is_pending j.state then remove_pending id q else (q, ok)
]

unfoldable pub jobmanager_cancel_cb : Option ℕ → Queues → Queues
unfolding at_job cancel_if_pending
jobmanager_cancel_cb none qs = qs
jobmanager_cancel_cb (some id) qs = (at_job id (cancel_if_pending id) qs).0

-- The failures other than ENOENT and EINVAL end the loop of `jobmanager_prioritize_cb`.
abbrev pub ends_loop : Rc → Bool
ends_loop ok = false
ends_loop (err enoent) = false
ends_loop (err einval) = false
ends_loop (err _) = true

-- An entry that cannot be unpacked ends the loop.
unfoldable pub jobmanager_prioritize_cb : List (Option (ℕ × ℕ)) → Queues → Queues
unfolding at_job pending_reprioritize calc_priority
jobmanager_prioritize_cb [] qs = qs
jobmanager_prioritize_cb (none ∷ l) qs = qs
jobmanager_prioritize_cb (some (id, p) ∷ l) qs =
    let (qs', rc) = at_job id (pending_reprioritize id (calc_priority p)) qs in
    let later = jobmanager_prioritize_cb l qs' in if ends_loop rc then qs' else later

-- What the code uses of the jobspec library and of its options: the queue that a jobspec names,
-- the name that stands for a virtual queue, and the default.
pub record Naming : Type 0 where
  -- `none` is the exception `parse_error`, and the empty string names no queue
  pub jobspec_queue : String → Option Str
  pub resolve_queue_name : Str → Str
  pub default_queue_name : Str

-- `denied` where the job manager is told that there will be no allocation.
pub data Reply : Type 0 where
  accepted denied ignored : Reply

-- The fields of an `alloc` request; `msg` is the copy of the message.
pub record Alloc : Type 0 where
  pub msg : ℕ
  pub id : ℕ
  pub priority : ℕ
  pub userid : ℕ
  pub t_submit : ℕ
  pub jobspec : String

unfoldable pub alloc_job : Alloc → Job
unfolding calc_priority
alloc_job a = record {
  msg = a.msg;
  state = JobState.init;
  id = a.id;
  userid = a.userid;
  priority = calc_priority a.priority;
  t_submit = a.t_submit;
  jobspec = a.jobspec;
  note = "";
  t_stamps = record {
    pending_ts = 0;
    running_ts = 0;
    rejected_ts = 0;
    complete_ts = 0;
    canceled_ts = 0;
  };
  schedule = record {
    r = "";
    reserved = false;
    was_reserved = false;
    selection_type = JobSelection.unknown;
    at = 0;
    old_at = 0;
    ov = 0;
  };
}

unfoldable pub queue_for : Naming → Str → Str
queue_for o [] = o.resolve_queue_name o.default_queue_name
queue_for o name = o.resolve_queue_name name

unfoldable pub alloc_in : Alloc → Str → Queues → Queues × Reply
unfolding at_name insert_job alloc_job
alloc_in a name qs = elim (at_name name (λ q. insert_job q (some (alloc_job a))) qs) [
  | none ↦ (qs, denied)
  | some (qs', rc) ↦ (qs', if failed rc then denied else accepted)
]

unfoldable pub jobmanager_alloc_cb : Naming → Option Alloc → Queues → Queues × Reply
unfolding alloc_in queue_for
jobmanager_alloc_cb o none qs = (qs, ignored)
jobmanager_alloc_cb o (some a) qs = elim (o.jobspec_queue a.jobspec) [
  | none ↦ (qs, denied)
  | some name ↦ alloc_in a (queue_for o name) qs
]

-- The flags that the prepare watcher computes, and whether it starts the idle watcher.
unfoldable pub any_schedulable : Queues → Bool
any_schedulable [] = false
any_schedulable ((n, q) ∷ qs) = q.schedulable || any_schedulable qs

unfoldable pub any_scheduled : Queues → Bool
any_scheduled [] = false
any_scheduled ((n, q) ∷ qs) = q.scheduled || q.annotation_dirty || any_scheduled qs

pub record Watch : Type 0 where
  pub pls_sched_loop : Bool
  pub pls_post_loop : Bool
  pub idle : Bool

unfoldable pub prep_watcher_cb : Queues → Watch → Watch
unfolding any_schedulable any_scheduled
prep_watcher_cb qs w = record {
  pls_sched_loop = any_schedulable qs;
  pls_post_loop = any_scheduled qs;
  idle = if any_schedulable qs || any_scheduled qs then true else w.idle;
}

pub data Request : Type 0 where
  alloc : Option Alloc → Request
  free : Option (ℕ × Bool × String) → Request
  cancel : Option ℕ → Request
  prioritize : List (Option (ℕ × ℕ)) → Request

unfoldable pub serve : Reapi → Naming → Request → Queues → Queues
unfolding jobmanager_alloc_cb jobmanager_free_cb jobmanager_cancel_cb jobmanager_prioritize_cb
serve api o (Request.alloc m) qs = (jobmanager_alloc_cb o m qs).0
serve api o (Request.free m) qs = jobmanager_free_cb api m qs
serve api o (Request.cancel m) qs = jobmanager_cancel_cb m qs
serve api o (Request.prioritize l) qs = jobmanager_prioritize_cb l qs
