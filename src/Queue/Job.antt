-- ===== src/Queue/Job.antt =====
-- qmanager/policies/base/queue_policy_base.hpp: a job, its states and its place in the order.
-- A `double` is the bit pattern of a non-negative finite number, on which the order of the
-- patterns is the order of the numbers; an `int64_t` is its bit pattern.
use Prim.Native.String.{String}
use flux_sched.Common.{ℕ, ◌+◌, ◌-◌, ◌%◌, ◌^◌, ◌≡◌, true, false, Bool, not, ◌&&◌, ◌||◌, ltb, arith}
use flux_sched.OrdMap.{Key}

-- `uint64_t` counters are post-incremented modulo 2^64.
abbrev pub u64_mod : ℕ
u64_mod = 2 ^ 64

abbrev pub incr64 : ℕ → ℕ
incr64 n = (n + 1) % u64_mod

pub data JobState : Type 0 where
  init pending rejected running alloc_running canceled complete : JobState

pub data JobSelection : Type 0 where
  unknown immediate backfill reserved : JobSelection

pub job_selection_type_str : JobSelection → String
job_selection_type_str immediate = "immediate"
job_selection_type_str backfill = "backfill"
job_selection_type_str reserved = "reserved"
job_selection_type_str unknown = "unknown"

pub record Schedule : Type 0 where
  pub r : String
  pub reserved : Bool
  pub was_reserved : Bool
  pub selection_type : JobSelection
  pub at : ℕ
  pub old_at : ℕ
  pub ov : ℕ

pub record Stamps : Type 0 where
  pub pending_ts : ℕ
  pub running_ts : ℕ
  pub rejected_ts : ℕ
  pub complete_ts : ℕ
  pub canceled_ts : ℕ

pub record Job : Type 0 where
  pub msg : ℕ
  pub state : JobState
  pub id : ℕ
  pub userid : ℕ
  pub priority : ℕ
  pub t_submit : ℕ
  pub jobspec : String
  pub note : String
  pub t_stamps : Stamps
  pub schedule : Schedule

pub record PendingKey : Type 0 where
  pub priority : ℕ
  pub t_submit : ℕ
  pub pending_ts : ℕ

unfoldable pub is_pending : JobState → Bool
is_pending pending = true
is_pending _ = false

abbrev pub get_key : Job → PendingKey
get_key j = record {
  priority = j.priority;
  t_submit = j.t_submit;
  pending_ts = j.t_stamps.pending_ts;
}

-- The order of `std::tuple`.
abbrev pub key_less : PendingKey → PendingKey → Bool
key_less a b =
    ltb a.priority b.priority
    || (not (ltb b.priority a.priority)
        && (ltb a.t_submit b.t_submit
            || (not (ltb b.t_submit a.t_submit) && ltb a.pending_ts b.pending_ts)))

pub key_irrefl : (a : PendingKey) → key_less a a ≡ false
key_irrefl a = ground arith

pub key_trans :
    (a b c : PendingKey) → key_less a b ≡ true → key_less b c ≡ true → key_less a c ≡ true
key_trans a b c h k = ground arith

pub key_incomparable : (a b : PendingKey) → key_less a b ≡ false → key_less b a ≡ false → a ≡ b
key_incomparable a b h k = ground arith

instance abbrev pub pending_key : Key PendingKey
pending_key = record {
  less = key_less;
  less_irrefl = key_irrefl;
  less_trans = key_trans;
  eq_of_incomparable = key_incomparable;
}

-- qmanager_callbacks.cpp: 4294967295 is the greatest priority of a job, and the least key is
-- scheduled first.
unfoldable pub calc_priority : ℕ → ℕ
calc_priority priority = (4294967295 + 2 ^ 32 - priority) % 2 ^ 32
