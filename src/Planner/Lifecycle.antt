-- ===== src/Planner/Lifecycle.antt =====
-- resource/planner/c++/planner.cpp: a planner is made, reset and given another total, and spans are read.
use flux_sched.Common.{
  ℕ, Bool, true, false, not, [], ◌∷◌, Option, none, some, if◌then◌else◌, ltb, leb, ◌==◌, length,
}
use flux_sched.OrdMap.{nat_key, find, add, begin, next}
use flux_sched.Queue.Params.{Str}
use flux_sched.Planner.State.{
  Point, Points, Planner, Result, ok, error, crash, einval, erange, later, less64, sub64, add64,
  two_63,
}
use flux_sched.Planner.Points.{restore_track_points, mt_tree_insert, state_from}

abbrev pub base_point : ℕ → Point
base_point total = record {
  in_mt_resource_tree = false;
  new_point = true;
  ref_count = 1;
  scheduled = 0;
  remaining = total;
}

-- The point at the base time goes into both trees.
unfoldable pub plant : ℕ → Planner → Planner
unfolding add mt_tree_insert
plant base_time s = mt_tree_insert base_time (record s {
  sched_points = add base_time (base_point s.total_resources) s.sched_points;
  p0 = some base_time;
})

-- A planner whose members have their default values.
abbrev pub empty_planner : Planner
empty_planner = record {
  total_resources = 0;
  resource_type = [];
  plan_start = two_63;
  plan_end = two_63;
  sched_points = [];
  mt_resource_tree = [];
  p0 = none;
  span_lookup = [];
  span_lookup_iter = none;
  avail_time_iter = [];
  avail_time_iter_set = false;
  current_request = record { on_or_after = two_63; duration = 0; count = 0 };
  span_counter = 0;
}

-- The resource type is `none` for a null pointer.
unfoldable pub planner_new : ℕ → ℕ → ℕ → Option Str → Result Planner
unfolding plant later
planner_new base_time duration resource_totals none = error einval
planner_new base_time duration resource_totals (some resource_type) =
    if ltb duration 1
    then error einval
    else if leb two_63 resource_totals
    then error erange
    else ok (
        plant base_time (record empty_planner {
          total_resources = resource_totals;
          resource_type = resource_type;
          plan_start = base_time;
          plan_end = later base_time duration;
        }))

unfoldable pub erase_plan : Planner → Planner
unfolding restore_track_points
erase_plan s = record (restore_track_points s) {
  span_lookup = [];
  sched_points = [];
  mt_resource_tree = [];
}

abbrev pub reset_point : ℕ → Point
reset_point total = record (base_point total) { new_point = false }

unfoldable pub reinitialize : ℕ → ℕ → Planner → Planner
unfolding add mt_tree_insert later
reinitialize base_time duration s =
    record (mt_tree_insert base_time (record s {
      plan_start = base_time;
      plan_end = later base_time duration;
      sched_points = add base_time (reset_point s.total_resources) s.sched_points;
      p0 = some base_time;
    })) { avail_time_iter_set = false; span_counter = 0 }

unfoldable pub planner_reset : ℕ → ℕ → Planner → Planner × Result Unit
unfolding erase_plan reinitialize
planner_reset base_time duration s =
    if ltb duration 1
    then (s, error einval)
    else (reinitialize base_time duration (erase_plan s), ok tt)

-- The quantity after `delta` is added to it, not below 0.
abbrev pub shifted : ℕ → ℕ → ℕ
shifted delta q = let tmp = add64 q delta in if not (less64 tmp 0) then tmp else 0

-- The points that the loop of update_total visits.
unfoldable pub shift_points : ℕ → Points → Points
unfolding less64 add64
shift_points delta [] = []
shift_points delta ((j, p) ∷ m) =
    (j, record p { remaining = shifted delta p.remaining }) ∷ shift_points delta m

-- From the point that the state at `at` is taken from on.
unfoldable pub shift_from : ℕ → ℕ → Points → Points
unfolding shift_points state_from
shift_from at delta [] = []
shift_from at delta ((j, p) ∷ m) =
    let rest = (j, p) ∷ shift_from at delta m in
    if ltb at j
    then (j, p) ∷ m
    else elim (state_from at m) [ [] ↦ shift_points delta ((j, p) ∷ m) | _ ∷ _ ↦ rest ]

unfoldable pub update_total : ℕ → Planner → Planner
unfolding shift_from sub64
update_total resource_total s =
    let delta = sub64 resource_total s.total_resources in
    if delta == 0 then s else record s {
      total_resources = resource_total;
      sched_points = shift_from s.plan_start delta s.sched_points;
    }

-- The id in the span that the iterator is at.
unfoldable pub span_at : Option ℕ → Planner → Planner × Result ℕ
unfolding find
span_at it s =
    let s1 = record s { span_lookup_iter = it } in
    elim it [
      | none ↦ (s1, error einval)
      | some k ↦ elim (find k s.span_lookup) [
        | none ↦ (s1, crash)
        | some span ↦ (s1, ok span.span_id)
      ]
    ]

unfoldable pub planner_span_first : Planner → Planner × Result ℕ
unfolding span_at begin
planner_span_first s = span_at (begin s.span_lookup) s

-- An increment of the iterator at the end is not defined.
unfoldable pub planner_span_next : Planner → Planner × Result ℕ
unfolding span_at next
planner_span_next s = elim s.span_lookup_iter [
  | none ↦ (s, crash)
  | some k ↦ span_at (next k s.span_lookup) s
]

unfoldable pub planner_span_size : Planner → ℕ
planner_span_size s = length s.span_lookup

unfoldable pub planner_is_active_span : ℕ → Planner → Bool
unfolding find
planner_is_active_span span_id s = elim (find span_id s.span_lookup) [
  | none ↦ false
  | some span ↦ span.in_system
]

unfoldable pub planner_span_start_time : ℕ → Planner → Result ℕ
unfolding find
planner_span_start_time span_id s = elim (find span_id s.span_lookup) [
  | none ↦ error einval
  | some span ↦ ok span.start
]

unfoldable pub planner_span_duration : ℕ → Planner → Result ℕ
unfolding find sub64
planner_span_duration span_id s = elim (find span_id s.span_lookup) [
  | none ↦ error einval
  | some span ↦ ok (sub64 span.last span.start)
]

unfoldable pub planner_span_resource_count : ℕ → Planner → Result ℕ
unfolding find
planner_span_resource_count span_id s = elim (find span_id s.span_lookup) [
  | none ↦ error einval
  | some span ↦ ok span.planned
]
