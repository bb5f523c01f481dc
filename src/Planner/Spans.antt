-- ===== src/Planner/Spans.antt =====
-- resource/planner/c/planner_c_interface.cpp: spans are added, removed and reduced.
use flux_sched.Common.{
  ℕ, Bool, true, false, not, ◌||◌, none, some, if◌then◌else◌, ltb, ◌==◌, suc, ◌-◌, ◌+◌, ◌%◌,
}
use flux_sched.OrdMap.{nat_key, find, erase, insert, assign}
use flux_sched.Planner.State.{
  Point, Planner, Span, Result, ok, error, crash, einval, erange, eexist, later, less64, sub64,
  two_64,
}
use flux_sched.Planner.Points.{
  modify, fetch_overlap_points, update_points_add_span, update_points_subtract_span,
  update_points_partial_subtract_span, update_mintime_resource_tree, restore_track_points,
  get_or_new_point, mt_tree_remove,
}
use flux_sched.Planner.Avail.{avail_during}

unfoldable pub not_feasible : ℕ → ℕ → Planner → Bool
unfolding later
not_feasible start_time duration s =
    (ltb start_time s.plan_start || ltb duration 1)
    || ltb s.plan_end (later start_time (duration - 1))

unfoldable pub span_input_check : ℕ → ℕ → ℕ → Planner → Result Unit
unfolding not_feasible less64
span_input_check start_time duration request s =
    if not_feasible start_time duration s
    then error einval
    else if less64 s.total_resources request || less64 request 0
    then error erange
    else ok tt

abbrev pub new_span : ℕ → ℕ → ℕ → ℕ → Span
new_span id start_time duration request = record {
  start = start_time;
  last = later start_time duration;
  span_id = id;
  planned = request;
  in_system = false;
  start_p = none;
  last_p = none;
}

abbrev incr_span_counter : Planner → Planner
incr_span_counter s = record s { span_counter = (s.span_counter + 1) % two_64 }

-- The id of the new span.
unfoldable pub span_new : ℕ → ℕ → ℕ → Planner → Planner × Result ℕ
unfolding span_input_check later find insert
span_new start_time duration request s = elim (span_input_check start_time duration request s) [
  | error e ↦ (s, error e)
  | crash ↦ (s, crash)
  | ok _ ↦
      let s1 = incr_span_counter s in
      let id = s1.span_counter in
      elim (find id s1.span_lookup) [
        | some _ ↦ (s1, error eexist)
        | none ↦ (
          record s1 {
            span_lookup = (insert id (new_span id start_time duration request) s1.span_lookup).0;
          },
          ok id,
        )
      ]
]

abbrev pub incr_ref : Point → Point
incr_ref p = record p { ref_count = suc p.ref_count }

abbrev pub decr_ref : Point → Point
decr_ref p = record p { ref_count = p.ref_count - 1 }

abbrev pub not_new : Point → Point
not_new p = record p { new_point = false }

abbrev pub touch : (Point → Point) → ℕ → Planner → Planner
touch f at s = record s { sched_points = modify f at s.sched_points }

-- The points of a span that has both, and the span itself, are brought up to date.
unfoldable pub enter_span : ℕ → Span → ℕ → Planner → Planner
unfolding modify fetch_overlap_points update_points_add_span update_mintime_resource_tree assign
enter_span id span duration s =
    let list = fetch_overlap_points span.start duration s.sched_points in
    let points1 = (update_points_add_span s.total_resources span.planned list s.sched_points).0 in
    let points2 = modify not_new span.last (modify not_new span.start points1) in
    let s1 = update_mintime_resource_tree list (record s { sched_points = points2 }) in
    record s1 {
      span_lookup =
          assign id
            (record span { start_p = some span.start; last_p = some span.last; in_system = true })
            s1.span_lookup;
      avail_time_iter_set = false;
    }

-- The two points of a new span; where one cannot be made, the span stays as it is.
unfoldable pub link_span : ℕ → Span → ℕ → Planner → Planner × Result ℕ
unfolding get_or_new_point modify enter_span
link_span id span duration s =
    let r1 = get_or_new_point span.start s in
    let s1 = touch incr_ref span.start r1.0 in
    let r2 = get_or_new_point span.last s1 in
    let s2 = touch incr_ref span.last r2.0 in
    if not r1.1
    then (r1.0, error einval)
    else if not r2.1
    then (r2.0, error einval)
    else (enter_span id span duration s2, ok id)

unfoldable pub planner_add_span : ℕ → ℕ → ℕ → Planner → Planner × Result ℕ
unfolding avail_during span_new restore_track_points link_span later
planner_add_span start_time duration request s = elim (avail_during start_time duration request s) [
  | error _ ↦ (s, error einval)
  | crash ↦ (s, crash)
  | ok _ ↦
      let r = span_new start_time duration request s in
      elim r.1 [
        | error e ↦ (r.0, error e)
        | crash ↦ (r.0, crash)
        | ok id ↦
            link_span id (new_span id start_time duration request) duration
              (restore_track_points r.0)
      ]
]

-- A point without references goes.
unfoldable pub drop_point : ℕ → Planner → Planner
unfolding find mt_tree_remove erase
drop_point at s = elim (find at s.sched_points) [
  | none ↦ s
  | some p ↦
      if ltb 0 p.ref_count
      then s
      else let s1 = if p.in_mt_resource_tree then mt_tree_remove at s else s in
        record s1 { sched_points = erase at s1.sched_points }
]

unfoldable pub leave_span : ℕ → Span → ℕ → ℕ → Planner → Planner
unfolding modify fetch_overlap_points update_points_subtract_span update_mintime_resource_tree
    drop_point erase sub64
leave_span id span first end s =
    let s1 = touch decr_ref end (touch decr_ref first s) in
    let list = fetch_overlap_points span.start (sub64 span.last span.start) s1.sched_points in
    let points =
      (update_points_subtract_span s1.total_resources span.planned list s1.sched_points).0 in
    let s2 = update_mintime_resource_tree list (record s1 { sched_points = points }) in
    let s3 = drop_point end (drop_point first s2) in
    record s3 { span_lookup = erase id s3.span_lookup; avail_time_iter_set = false }

unfoldable pub planner_rem_span : ℕ → Planner → Planner × Result Unit
unfolding find restore_track_points leave_span
planner_rem_span span_id s = elim (find span_id s.span_lookup) [
  | none ↦ (s, error einval)
  | some span ↦
      let s1 = restore_track_points s in
      elim span.start_p [
        | none ↦ (s1, crash)
        | some first ↦ elim span.last_p [
          | none ↦ (s1, crash)
          | some end ↦ (leave_span span_id span first end s1, ok tt)
        ]
      ]
]

unfoldable pub reduce_partially : ℕ → Span → ℕ → Planner → Planner
unfolding fetch_overlap_points update_points_partial_subtract_span update_mintime_resource_tree
    assign sub64
reduce_partially span_id span to_remove s =
    let list = fetch_overlap_points span.start (sub64 span.last span.start) s.sched_points in
    let points =
      (update_points_partial_subtract_span s.total_resources to_remove list s.sched_points).0 in
    update_mintime_resource_tree list (record s {
      sched_points = points;
      span_lookup =
          assign span_id (record span { planned = sub64 span.planned to_remove }) s.span_lookup;
    })

-- The outcome of the removal of a whole span.
abbrev pub whole_removed : Planner × Result Unit → Planner × Result Bool
whole_removed (s, ok _) = (s, ok true)
whole_removed (s, error e) = (s, error e)
whole_removed (s, crash) = (s, crash)

-- The result, and whether the span was removed.
unfoldable pub planner_reduce_span : ℕ → ℕ → Planner → Planner × Result Bool
unfolding find planner_rem_span restore_track_points reduce_partially less64
planner_reduce_span span_id to_remove s = elim (find span_id s.span_lookup) [
  | none ↦ (s, error einval)
  | some span ↦
      if to_remove == span.planned
      then whole_removed (planner_rem_span span_id s)
      else if to_remove == 0
      then (s, ok false)
      else if less64 to_remove span.planned
      then (reduce_partially span_id span to_remove (restore_track_points s), ok false)
      else (s, error einval)
]
