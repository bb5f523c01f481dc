-- ===== src/Planner/Points.antt =====
-- resource/planner/c++: the trees of scheduled points as the ordered containers they are, and
-- resource/planner/c: the helpers on points.
use flux_sched.Common.{
  ℕ, Bool, true, false, not, ◌&&◌, ◌||◌, List, [], ◌∷◌, Option, none, some, if◌then◌else◌, ltb, leb,
}
use flux_sched.OrdMap.{OrdMap, same, nat_key, find, add, erase, insert}
use flux_sched.Planner.State.{Point, Points, Planner, max_time, later, add64, sub64, less64}

-- A write to the point that `at` is the time of.
unfoldable pub modify : (Point → Point) → ℕ → Points → Points
unfolding same
modify f at [] = []
modify f at ((j, p) ∷ m) = if same j at then (j, f p) ∷ m else (j, p) ∷ modify f at m

abbrev pub or_else_all : Points → Points → Points
or_else_all [] all = all
or_else_all (e ∷ rest) all = e ∷ rest

abbrev pub first_of : Points → Option (ℕ × Point)
first_of [] = none
first_of (e ∷ _) = some e

-- The points from the one that `get_state (at)` returns on: the latest that is not after `at`, which
-- is there where this is not empty, and those that `next` reaches from it.
unfoldable pub state_from : ℕ → Points → Points
state_from at [] = []
state_from at ((j, p) ∷ m) =
    let rest = state_from at m in if ltb at j then [] else or_else_all rest ((j, p) ∷ m)

unfoldable pub get_state : ℕ → Points → Option (ℕ × Point)
unfolding state_from
get_state at points = first_of (state_from at points)

abbrev pub set_in_mt : Bool → Point → Point
set_in_mt b p = record p { in_mt_resource_tree = b }

unfoldable pub mt_tree_insert : ℕ → Planner → Planner
unfolding modify find add
mt_tree_insert at s = elim (find at s.sched_points) [
  | none ↦ s
  | some p ↦ record s {
    mt_resource_tree = add at p.remaining s.mt_resource_tree;
    sched_points = modify (set_in_mt true) at s.sched_points;
  }
]

unfoldable pub mt_tree_remove : ℕ → Planner → Planner
unfolding modify erase
mt_tree_remove at s = record s {
  mt_resource_tree = erase at s.mt_resource_tree;
  sched_points = modify (set_in_mt false) at s.sched_points;
}

-- The earliest entry with at least the request; `find_mintime_anchor` starts from the greatest time, and
-- never finds an entry at that time.
unfoldable pub get_mintime : ℕ → OrdMap ℕ ℕ → Option ℕ
unfolding less64
get_mintime request [] = none
get_mintime request ((at, remaining) ∷ m) =
    if not (less64 remaining request) && ltb at max_time then some at else get_mintime request m

unfoldable pub track_points : ℕ → Planner → Planner
unfolding insert
track_points at s = record s { avail_time_iter = (insert at at s.avail_time_iter).0 }

unfoldable pub insert_all : OrdMap ℕ ℕ → Planner → Planner
unfolding mt_tree_insert
insert_all [] s = s
insert_all ((_, at) ∷ tracked) s = insert_all tracked (mt_tree_insert at s)

unfoldable pub restore_track_points : Planner → Planner
unfolding insert_all
restore_track_points s = record (insert_all s.avail_time_iter s) { avail_time_iter = [] }

unfoldable pub refresh_point : ℕ → Planner → Planner
unfolding mt_tree_insert mt_tree_remove
refresh_point at s = elim (find at s.sched_points) [
  | none ↦ s
  | some p ↦
      let s1 = if p.in_mt_resource_tree then mt_tree_remove at s else s in
      if ltb 0 p.ref_count then mt_tree_insert at s1 else s1
]

unfoldable pub update_mintime_resource_tree : List ℕ → Planner → Planner
unfolding refresh_point
update_mintime_resource_tree [] s = s
update_mintime_resource_tree (at ∷ list) s = update_mintime_resource_tree list (refresh_point at s)

abbrev pub fresh_point : Point → Point
fresh_point state = record {
  in_mt_resource_tree = false;
  new_point = true;
  ref_count = 0;
  scheduled = state.scheduled;
  remaining = state.remaining;
}

-- The planner afterwards, and whether there is a point.
unfoldable pub get_or_new_point : ℕ → Planner → Planner × Bool
unfolding find get_state mt_tree_insert add
get_or_new_point at s = elim (find at s.sched_points) [
  | some _ ↦ (s, true)
  | none ↦ elim (get_state at s.sched_points) [
    | none ↦ (s, false)
    | some (_, state) ↦ (
      mt_tree_insert at (record s { sched_points = add at (fresh_point state) s.sched_points }),
      true,
    )
  ]
]

unfoldable pub overlap : ℕ → ℕ → Points → List ℕ
overlap at until [] = []
overlap at until ((j, p) ∷ m) =
    let rest = overlap at until m in if leb until j then [] else if leb at j then j ∷ rest else rest

unfoldable pub fetch_overlap_points : ℕ → ℕ → Points → List ℕ
unfolding overlap later state_from
fetch_overlap_points at duration points = overlap at (later at duration) (state_from at points)

abbrev pub plus : ℕ → Point → Point
plus planned p = record p {
  scheduled = add64 p.scheduled planned;
  remaining = sub64 p.remaining planned;
}

abbrev pub minus : ℕ → Point → Point
minus planned p = record p {
  scheduled = sub64 p.scheduled planned;
  remaining = add64 p.remaining planned;
}

abbrev pub test_of : (Point → Bool) → Option Point → Bool
test_of fine none = true
test_of fine (some p) = fine p

-- Whether the point at `at` passes a test.
unfoldable pub passes : (Point → Bool) → ℕ → Points → Bool
unfolding find
passes fine at points = test_of fine (find at points)

abbrev pub below_total : ℕ → Point → Bool
below_total total p = not (less64 total p.scheduled || less64 p.remaining 0)

abbrev pub above_zero : ℕ → Point → Bool
above_zero total p = not (less64 p.scheduled 0 || less64 total p.remaining)

-- The points afterwards, and whether the function returns 0.
unfoldable pub update_points_add_span : ℕ → ℕ → List ℕ → Points → Points × Bool
unfolding modify passes less64 add64 sub64
update_points_add_span total planned [] points = (points, true)
update_points_add_span total planned (at ∷ list) points =
    let points1 = modify (plus planned) at points in
    let rest = update_points_add_span total planned list points1 in
    (rest.0, passes (below_total total) at points1 && rest.1)

unfoldable pub update_points_subtract_span : ℕ → ℕ → List ℕ → Points → Points × Bool
unfolding modify passes less64 add64 sub64
update_points_subtract_span total planned [] points = (points, true)
update_points_subtract_span total planned (at ∷ list) points =
    let points1 = modify (minus planned) at points in
    let rest = update_points_subtract_span total planned list points1 in
    (rest.0, passes (above_zero total) at points1 && rest.1)

unfoldable pub update_points_partial_subtract_span : ℕ → ℕ → List ℕ → Points → Points × Bool
unfolding modify passes less64 add64 sub64
update_points_partial_subtract_span total to_remove [] points = (points, true)
update_points_partial_subtract_span total to_remove (at ∷ list) points =
    let points1 = modify (minus to_remove) at points in
    let rest = update_points_partial_subtract_span total to_remove list points1 in
    if passes (above_zero total) at points1 then rest else (points1, false)
