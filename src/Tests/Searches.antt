-- ===== src/Tests/Searches.antt =====
-- resource/planner: searches at times from 0 on, and one that ends with a time that does not fit.
use flux_sched.Common.{ℕ, ◌≡◌, refl, sym, ◌∙◌, subst, true, some, [], ◌∷◌, ◌≤◌, ◌+◌, ◌-◌, arith}
use flux_sched.OrdMap.{find, nat_key}
use flux_sched.Planner.State.{two_63, max_time, Planner, ok, error, einval}
use flux_sched.Planner.Points.{restore_track_points}
use flux_sched.Planner.Avail.{planner_avail_time_first}
use flux_sched.Planner.Spans.{planner_add_span}
use flux_sched.Planner.Lifecycle.{planner_new, empty_planner}
use flux_sched.Planner.Usage.{sum_of}
use flux_sched.Planner.Sound.{IsSound}
use flux_sched.Planner.Fits.{Fits}
use flux_sched.Planner.Adding.{new_id, planner_add_span-IsSound}
use flux_sched.Planner.Fresh.{planner_new-IsSound}
use flux_sched.Planner.Succeeds.{planner_add_span-planner_avail_time_first}
use flux_sched.Tests.Planners.{held, of_result}

-- A planner of ten units over fifty seconds from the time 0 on.
abbrev ahead : Planner
ahead = record empty_planner {
  total_resources = 10;
  plan_start = two_63;
  plan_end = two_63 + 50;
  sched_points = (two_63, record (held 1 0 10) { new_point = true }) ∷ [];
  mt_resource_tree = (two_63, 10) ∷ [];
  p0 = some two_63;
}

ahead_made : planner_new two_63 50 10 (some []) ≡ ok ahead
unfolding planner_new
ahead_made = refl

ahead-IsSound : IsSound ahead
ahead-IsSound =
    let (s, e, h, _) = planner_new-IsSound two_63 50 10 [] (omega arith) (omega arith) in
    subst IsSound (of_result (sym e ∙ ahead_made)) h

abbrev taken : Planner
unfolding planner_add_span
taken = (planner_add_span (two_63 + 10) 10 4 ahead).0

taken-IsSound : IsSound taken
unfolding taken
taken-IsSound =
    planner_add_span-IsSound (two_63 + 10) 10 4 ahead ahead-IsSound (omega arith) (omega arith)

taken-Fits : Fits (two_63 + 20) 10 8 taken
unfolding taken sum_of planner_add_span
taken-Fits = record {
  from_start = omega arith;
  lasting = omega arith;
  in_plan = omega arith;
  free = λ t a b. ground arith;
}

planner_add_span-planner_avail_time_first_example :
    (t : Planner) × (at : ℕ) × (planner_avail_time_first (two_63 + 5) 10 8 taken ≡ (t, ok at))
    × (two_63 + 5 ≤ at)
    × (at ≤ two_63 + 20)
    × ((planner_add_span at 10 8 t).1 ≡ ok (new_id taken))
unfolding taken planner_add_span restore_track_points find
planner_add_span-planner_avail_time_first_example =
    planner_add_span-planner_avail_time_first (two_63 + 5) 10 8 (two_63 + 20) 10 taken taken-IsSound
      taken-Fits (omega arith) (omega arith) (omega arith) (omega arith) (omega arith)
      ((refl, (refl, tt)), ((refl, tt), (tt, tt))) refl refl refl

-- A span up to the greatest time: the point at its end is never found, and the search ends with the
-- start of its last turn, which does not fit.
abbrev endless : Planner
unfolding planner_add_span
endless = (planner_add_span (two_63 + 10) (two_63 - 11) 8 (record ahead { plan_end = max_time })).0

left_over : (planner_avail_time_first two_63 20 5 endless).1 ≡ ok two_63
unfolding planner_avail_time_first endless
left_over = refl

refused_there : (planner_add_span two_63 20 5 endless).1 ≡ error einval
unfolding planner_add_span endless
refused_there = refl
