-- ===== src/Planner/State.antt =====
-- resource/planner/c++/planner.hpp: the state of a planner. A time is an `int64_t` and stands as its
-- value plus 2^63, which keeps the order; a quantity is an `int64_t` or `uint64_t` and stands as its 64
-- bits. A pointer to a scheduled point is the time of the point.
use flux_sched.Common.{ℕ, Bool, Option, ltb, leb, if◌then◌else◌, ◌+◌, ◌-◌, ◌%◌}
use flux_sched.OrdMap.{OrdMap}
use flux_sched.Queue.Params.{Str}

abbrev pub two_63 : ℕ
two_63 = 9223372036854775808

abbrev pub two_64 : ℕ
two_64 = 18446744073709551616

-- `std::numeric_limits<int64_t>::max ()` and -1 as times.
abbrev pub max_time : ℕ
max_time = 18446744073709551615

abbrev pub no_time : ℕ
no_time = 9223372036854775807

-- `static_cast<int64_t> (at + duration)` for a time and an unsigned duration.
unfoldable pub later : ℕ → ℕ → ℕ
later at duration = (at + duration) % two_64

-- `a + b` and `a - b` of quantities.
unfoldable pub add64 : ℕ → ℕ → ℕ
add64 a b = (a + b) % two_64

unfoldable pub sub64 : ℕ → ℕ → ℕ
sub64 a b = if leb b a then a - b else a + two_64 - b

-- `a < b` of quantities as signed numbers.
unfoldable pub less64 : ℕ → ℕ → Bool
less64 a b = ltb ((a + two_63) % two_64) ((b + two_63) % two_64)

-- The values of `errno`.
pub data Errno : Type 0 where
  einval : Errno
  erange : Errno
  ebusy : Errno
  enoent : Errno
  eexist : Errno

-- What a call comes back with: a value, -1 with `errno`, or nothing defined where it reads through a null
-- pointer.
pub data Result (A : Type 0) : Type 0 where
  ok : A → Result A
  error : Errno → Result A
  crash : Result A

pub record Point : Type 0 where
  pub in_mt_resource_tree : Bool
  pub new_point : Bool
  pub ref_count : ℕ
  pub scheduled : ℕ
  pub remaining : ℕ

pub record Span : Type 0 where
  pub start : ℕ
  pub last : ℕ
  pub span_id : ℕ
  pub planned : ℕ
  pub in_system : Bool
  pub start_p : Option ℕ
  pub last_p : Option ℕ

pub record Request : Type 0 where
  pub on_or_after : ℕ
  pub duration : ℕ
  pub count : ℕ

abbrev pub Points : Type 0
Points = OrdMap ℕ Point

-- The tree of scheduled points holds them by time; an entry of the mintime tree holds the quantity its
-- node was inserted with.
pub record Planner : Type 0 where
  pub total_resources : ℕ
  pub resource_type : Str
  pub plan_start : ℕ
  pub plan_end : ℕ
  pub sched_points : Points
  pub mt_resource_tree : OrdMap ℕ ℕ
  pub p0 : Option ℕ
  pub span_lookup : OrdMap ℕ Span
  pub span_lookup_iter : Option ℕ
  pub avail_time_iter : OrdMap ℕ ℕ
  pub avail_time_iter_set : Bool
  pub current_request : Request
  pub span_counter : ℕ
