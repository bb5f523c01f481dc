-- ===== src/Queue/State.antt =====
-- qmanager/policies/base/queue_policy_base.hpp: the fields of a queue, and those that the policy
-- classes of qmanager/policies add to it. An iterator into `m_pending` is the key of its element,
-- and `none` is `m_pending.end ()`.
use Prim.Native.String.{String}
use flux_sched.Common.{ℕ, Bool, true, false, Option, List}
use flux_sched.OrdMap.{OrdMap}
use flux_sched.Queue.Job.{Job, PendingKey}

-- `errno` where a call returns -1: `unchanged` where the code leaves it as it was, and `fault` where
-- the code has no defined result, since it reads through `m_pending.end ()` or a null pointer.
pub data Errno : Type 0 where
  einval enoent eexist enomem erange eproto ebusy enodata enodev unchanged fault : Errno
  other : ℕ → Errno

pub data Rc : Type 0 where
  ok : Rc
  err : Errno → Rc

abbrev pub failed : Rc → Bool
failed ok = false
failed (err _) = true

-- The members that `queue_policy_fcfs_t` adds.
pub record Fcfs : Type 0 where
  pub queue_depth_limit : Bool
  pub iter : Option PendingKey

pub data BackfillKind : Type 0 where
  easy hybrid conservative : BackfillKind

-- The members that `queue_policy_bf_base_t` adds. The two counters are of type `int`, here their
-- 32-bit patterns.
pub record Backfill : Type 0 where
  pub kind : BackfillKind
  pub reservation_depth : ℕ
  pub max_reservation_depth : ℕ
  pub reserved : OrdMap ℕ ℕ
  pub reservation_cnt : ℕ
  pub scheduled_cnt : ℕ
  pub try_reserve : Bool
  pub in_progress_iter : Option PendingKey

pub data Derived : Type 0 where
  fcfs : Fcfs → Derived
  backfill : Backfill → Derived

pub record Queue : Type 0 where
  pub schedulable : Bool
  pub scheduled : Bool
  pub annotation_dirty : Bool
  pub sched_loop_active : Bool
  pub pq_cnt : ℕ
  pub rq_cnt : ℕ
  pub dq_cnt : ℕ
  pub cq_cnt : ℕ
  pub oq_cnt : ℕ
  pub cancel_cnt : ℕ
  pub reprio_cnt : ℕ
  pub queue_depth : ℕ
  pub max_queue_depth : ℕ
  pub blocked : OrdMap PendingKey ℕ
  pub pending : OrdMap PendingKey ℕ
  pub pending_provisional : OrdMap PendingKey ℕ
  pub pending_cancel_provisional : OrdMap ℕ ℕ
  pub pending_reconsider : Bool
  pub pending_reprio_provisional : OrdMap ℕ (ℕ × ℕ)
  pub running : OrdMap ℕ ℕ
  pub alloced : OrdMap ℕ ℕ
  pub rejected : OrdMap ℕ ℕ
  pub canceled : OrdMap ℕ ℕ
  pub jobs : OrdMap ℕ Job
  pub qparams : OrdMap (List ℕ) (List ℕ)
  pub pparams : OrdMap (List ℕ) (List ℕ)
  pub pending_iter : Option PendingKey
  pub iter_valid : Bool
  pub derived : Derived

-- The calls of the template parameter `reapi_type`, which talk to the resource module.
pub record Reapi : Type 0 where
  -- `match_allocate_multi (h, orelse_reserve, jobs, adapter)`, here of the packed job ids.
  pub match_allocate_multi : Bool → List ℕ → Rc
  -- `cancel (h, id, noent_ok)`
  pub cancel : ℕ → Bool → Rc
  -- `cancel (h, id, R, noent_ok, full_removal)`, with the flag that it writes
  pub cancel_partial : ℕ → String → Bool → Rc × Bool
  -- `update_allocate (h, id, R, at, ov, R_out)`, with what it writes to `R_out`, `at` and `ov`
  pub update_allocate : ℕ → String → ℕ → ℕ → Rc × String × ℕ × ℕ
  -- `json_loads` of a jobspec succeeds
  pub json_loads : String → Bool
