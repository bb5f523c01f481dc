-- ===== src/Planner/Avail.antt =====
-- resource/planner/c/planner_c_interface.cpp: what is free when.
use flux_sched.Common.{
  ℕ, zero, suc, Bool, true, false, not, ◌||◌, [], ◌∷◌, Option, none, some, if◌then◌else◌, ltb, leb,
  length, ◌==◌,
}
use flux_sched.Planner.State.{
  Points, Planner, Request, Result, ok, error, crash, einval, erange, ebusy, enoent, no_time, later,
  less64,
}
use flux_sched.Planner.Points.{
  state_from, get_state, get_mintime, mt_tree_remove, track_points, restore_track_points,
}

-- Whether every point before `until` has the request free.
unfoldable pub holds : ℕ → ℕ → Points → Bool
unfolding less64
holds until request [] = true
holds until request ((j, p) ∷ m) =
    let rest = holds until request m in
    if leb until j then true else if less64 p.remaining request then false else rest

unfoldable pub retire : ℕ → Planner → Planner
unfolding mt_tree_remove track_points
retire at s = track_points at (mt_tree_remove at s)

unfoldable pub span_ok : ℕ → ℕ → ℕ → Planner → Planner × Bool
unfolding holds state_from later retire
span_ok at duration request s =
    if holds (later at duration) request (state_from at s.sched_points)
    then (s, true)
    else (retire at s, false)

-- One turn of the loop of avail_at, with what it leaves in `at`: another turn, or the end of the loop.
pub data Turn : Type 0 where
  again : ℕ → Planner → Turn
  done : ℕ → Planner → Turn

unfoldable pub end_of_turn : ℕ → ℕ → Planner × Bool → Turn
unfolding retire later
end_of_turn at duration (s, true) =
    done (if ltb s.plan_end (later at duration) then no_time else at) (retire at s)
end_of_turn at duration (s, false) = again at s

-- Where the tree has no further point, `at` is what the turn before has left in it.
unfoldable pub avail_turn : ℕ → ℕ → ℕ → ℕ → Planner → Turn
unfolding get_mintime retire span_ok end_of_turn
avail_turn on_or_after duration request at s = elim (get_mintime request s.mt_resource_tree) [
  | none ↦ done at s
  | some start ↦
      if ltb start on_or_after
      then again no_time (retire start s)
      else end_of_turn start duration (span_ok start duration request s)
]

-- The loop on fuel; `none` is that the fuel is used up.
unfoldable pub avail_at : ℕ → ℕ → ℕ → ℕ → ℕ → Planner → Option (Planner × ℕ)
unfolding avail_turn
avail_at zero on_or_after duration request at s = none
avail_at (suc n) on_or_after duration request at s =
    elim (avail_turn on_or_after duration request at s) [
      | again at1 s1 ↦ avail_at n on_or_after duration request at1 s1
      | done at1 s1 ↦ some (s1, at1)
    ]

unfoldable pub avail_during : ℕ → ℕ → ℕ → Planner → Result Unit
unfolding later holds state_from
avail_during at duration request s =
    if ltb s.plan_end (later at duration)
    then error erange
    else if holds (later at duration) request (state_from at s.sched_points)
    then ok tt
    else error ebusy

-- The least quantity of `min` and of the points before `until`.
unfoldable pub least : ℕ → ℕ → Points → ℕ
unfolding less64
least until min [] = min
least until min ((j, p) ∷ m) =
    let rest = least until (if less64 p.remaining min then p.remaining else min) m in
    if leb until j then min else rest

unfoldable pub avail_resources_during : ℕ → ℕ → Planner → Result ℕ
unfolding later state_from least
avail_resources_during at duration s =
    if ltb s.plan_end (later at duration)
    then error erange
    else elim (state_from at s.sched_points) [
      | [] ↦ error einval
      | (j, p) ∷ m ↦ ok (least (later at duration) p.remaining ((j, p) ∷ m))
    ]

unfoldable pub planner_avail_during : ℕ → ℕ → ℕ → Planner → Result Unit
unfolding avail_during less64
planner_avail_during start_time duration request s =
    if ltb duration 1
    then error einval
    else if less64 s.total_resources request
    then error erange
    else avail_during start_time duration request s

unfoldable pub planner_avail_resources_during : ℕ → ℕ → Planner → Result ℕ
unfolding avail_resources_during
planner_avail_resources_during at duration s =
    if ltb s.plan_end at || ltb duration 1
    then error einval
    else avail_resources_during at duration s

unfoldable pub planner_avail_resources_at : ℕ → Planner → Result ℕ
unfolding get_state
planner_avail_resources_at at s =
    if ltb s.plan_end at || ltb at s.plan_start
    then error erange
    else elim (get_state at s.sched_points) [ none ↦ error enoent | some (_, p) ↦ ok p.remaining ]

abbrev pub fuel_of : Planner → ℕ
fuel_of s = suc (length s.mt_resource_tree)

abbrev pub answer : ℕ → Result ℕ
answer t = if t == no_time then error enoent else ok t

-- The planner and the time found, on fuel for every entry of the mintime tree.
unfoldable pub run_avail_at : ℕ → ℕ → ℕ → Planner → Planner × Result ℕ
unfolding avail_at
run_avail_at on_or_after duration request s =
    elim (avail_at (fuel_of s) on_or_after duration request no_time s) [
      | none ↦ (s, crash)
      | some (s1, t) ↦ (s1, answer t)
    ]

abbrev pub copy_req : ℕ → ℕ → ℕ → Request
copy_req on_or_after duration resource_count = record {
  on_or_after = on_or_after;
  duration = duration;
  count = resource_count;
}

unfoldable pub planner_avail_time_first : ℕ → ℕ → ℕ → Planner → Planner × Result ℕ
unfolding run_avail_at restore_track_points less64
planner_avail_time_first on_or_after duration request s =
    if (ltb on_or_after s.plan_start || leb s.plan_end on_or_after) || ltb duration 1
    then (s, error einval)
    else if less64 s.total_resources request
    then (s, error erange)
    else run_avail_at on_or_after duration request (record (restore_track_points s) {
      avail_time_iter_set = true;
      current_request = copy_req on_or_after duration request;
    })

unfoldable pub planner_avail_time_next : Planner → Planner × Result ℕ
unfolding run_avail_at less64
planner_avail_time_next s =
    let r = s.current_request in
    if not s.avail_time_iter_set
    then (s, error einval)
    else if less64 s.total_resources r.count
    then (s, error erange)
    else run_avail_at r.on_or_after r.duration r.count s
