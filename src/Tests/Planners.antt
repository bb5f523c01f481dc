-- ===== src/Tests/Planners.antt =====
-- resource/planner: a planner of ten units over fifty seconds, empty and with one span.
use flux_sched.Common.{
  ℕ, ◌≡◌, ◌↔◌, ◌⊎◌, refl, sym, ◌∙◌, subst, true, false, none, some, [], ◌∷◌, ◌<◌, ◌≤◌, ◌+◌, ◌-◌,
  arith,
}
use flux_sched.OrdMap.{find, nat_key}
use flux_sched.Planner.State.{
  max_time, Point, Planner, Span, Result, ok, error, Errno, einval, enoent, less64,
}
use flux_sched.Planner.Points.{get_state}
use flux_sched.Planner.Avail.{
  planner_avail_during, planner_avail_resources_at, planner_avail_resources_during,
  planner_avail_time_first,
}
use flux_sched.Planner.Spans.{planner_add_span, planner_rem_span}
use flux_sched.Planner.Lifecycle.{planner_new, update_total, empty_planner}
use flux_sched.Planner.Usage.{usage, sum_of}
use flux_sched.Planner.Sound.{IsSound}
use flux_sched.Planner.Fits.{Fits}
use flux_sched.Planner.Adding.{
  new_id, Adds, planner_add_span-Adds, planner_add_span-IsSound, planner_add_span-refused,
}
use flux_sched.Planner.RemSpan.{Removes, planner_rem_span-Removes}
use flux_sched.Planner.Answers.{
  planner_avail_resources_at-usage, planner_avail_during_iff, planner_rem_span-planner_add_span,
}
use flux_sched.Planner.Least.{IsFree, planner_avail_resources_during-IsFree}
use flux_sched.Planner.Fresh.{planner_new-IsSound}
use flux_sched.Planner.Found.{Finds, planner_avail_time_first-Finds}
use flux_sched.Planner.Serve.{
  rem_span, reduce_span, change_total, serve_planner, made, served, Served-IsSound,
}
use flux_sched.Planner.Tree.State.{PointTree, tree_get_state, in_order, tree_get_state-in_order}
use flux_sched.Planner.Tree.Mintime.{MintimeTree, Entry, tree_get_mintime, earliest}
use flux_sched.Planner.Tree.Search.{tree_get_mintime-earliest}

abbrev pub held : ℕ → ℕ → ℕ → Point
held refs used free = record {
  in_mt_resource_tree = true;
  new_point = false;
  ref_count = refs;
  scheduled = used;
  remaining = free;
}

abbrev idle : Planner
idle = record empty_planner {
  total_resources = 10;
  plan_start = 100;
  plan_end = 150;
  sched_points = (100, record (held 1 0 10) { new_point = true }) ∷ [];
  mt_resource_tree = (100, 10) ∷ [];
  p0 = some 100;
}

abbrev first_span : Span
first_span = record {
  start = 110;
  last = 120;
  span_id = 1;
  planned = 4;
  in_system = true;
  start_p = some 110;
  last_p = some 120;
}

abbrev busy : Planner
busy = record idle {
  sched_points =
      (100, record (held 1 0 10) { new_point = true })
      ∷ (110, held 1 4 6)
      ∷ (120, held 1 0 10)
      ∷ [];
  mt_resource_tree = (100, 10) ∷ (110, 6) ∷ (120, 10) ∷ [];
  span_lookup = (1, first_span) ∷ [];
  span_counter = 1;
}

idle_made : planner_new 100 50 10 (some []) ≡ ok idle
unfolding planner_new
idle_made = refl

busy_made : planner_add_span 110 10 4 idle ≡ (busy, ok 1)
unfolding planner_add_span
busy_made = refl

-- Nothing is left of a span that is removed.
idle_again : planner_rem_span 1 busy ≡ (record idle { span_counter = 1 }, ok tt)
unfolding planner_rem_span
idle_again = refl

full : (planner_add_span 115 10 7 busy).1 ≡ error einval
unfolding planner_add_span
full = refl

-- The mintime tree keeps the quantities of before when the total grows.
stale : (planner_avail_time_first 100 5 11 (update_total 12 idle)).1 ≡ error enoent
unfolding planner_avail_time_first update_total
stale = refl

-- A duration that wraps around is taken.
wrapped : (planner_add_span 105 18446744073709551615 3 idle).1 ≡ ok 1
unfolding planner_add_span
wrapped = refl

planner_new-IsSound_example :
    (s : Planner) × (planner_new 100 50 10 (some []) ≡ ok s) × IsSound s × (s.span_lookup ≡ [])
planner_new-IsSound_example = planner_new-IsSound 100 50 10 [] (omega arith) (omega arith)

pub of_result : {s t : Planner} → ok s ≡ ok t → s ≡ t
of_result e = cc

idle-IsSound : IsSound idle
idle-IsSound =
    let (s, e, h, _) = planner_new-IsSound 100 50 10 [] (omega arith) (omega arith) in
    subst IsSound (of_result (sym e ∙ idle_made)) h

idle-Fits : Fits 110 10 4 idle
unfolding sum_of
idle-Fits = record {
  from_start = omega arith;
  lasting = omega arith;
  in_plan = omega arith;
  free = λ t a b. ground arith;
}

idle_new : find (new_id idle) idle.span_lookup ≡ none
unfolding find
idle_new = refl

planner_add_span-Adds_example :
    ((planner_add_span 110 10 4 idle).1 ≡ ok (new_id idle))
    × Adds (new_id idle) 110 10 4 idle (planner_add_span 110 10 4 idle).0
planner_add_span-Adds_example =
    planner_add_span-Adds 110 10 4 idle idle-IsSound idle-Fits (omega arith) idle_new

busy-IsSound : IsSound busy
busy-IsSound =
    subst (λ (r : Planner × Result ℕ). IsSound r.0) busy_made
      (planner_add_span-IsSound 110 10 4 idle idle-IsSound (omega arith) (omega arith))

too_much : ¬ Fits 115 10 7 busy
unfolding sum_of
too_much f = omega (arith, f.free 116 (omega arith) (omega arith))

planner_add_span-refused_example : (e : Errno) × (planner_add_span 115 10 7 busy ≡ (busy, error e))
planner_add_span-refused_example =
    planner_add_span-refused 115 10 7 busy busy-IsSound (omega arith) (omega arith) too_much

busy_found : find 1 busy.span_lookup ≡ some first_span
unfolding find
busy_found = refl

planner_rem_span-Removes_example :
    ((planner_rem_span 1 busy).1 ≡ ok tt) × Removes 1 first_span busy (planner_rem_span 1 busy).0
planner_rem_span-Removes_example =
    planner_rem_span-Removes 1 first_span busy busy-IsSound busy_found

planner_avail_resources_at-usage_example :
    planner_avail_resources_at 113 busy ≡ ok (10 - usage 113 busy.span_lookup)
planner_avail_resources_at-usage_example =
    planner_avail_resources_at-usage busy busy-IsSound 113 (omega arith) (omega arith)

six_free : planner_avail_resources_at 113 busy ≡ ok 6
unfolding planner_avail_resources_at
six_free = refl

planner_avail_during_iff_example :
    (planner_avail_during 105 10 6 busy ≡ ok tt)
    ↔ ((t : ℕ) → 105 ≤ t → t < 115 → usage t busy.span_lookup + 6 ≤ 10)
planner_avail_during_iff_example =
    planner_avail_during_iff busy busy-IsSound 105 10 6 (omega arith) (omega arith) (omega arith)
      (omega arith)

planner_avail_resources_during-IsFree_example :
    (x : ℕ) × (planner_avail_resources_during 105 10 busy ≡ ok x) × IsFree 105 115 x busy
planner_avail_resources_during-IsFree_example =
    planner_avail_resources_during-IsFree 105 10 busy busy-IsSound (omega arith) (omega arith)
      (omega arith)

planner_rem_span-planner_add_span_example :
    planner_avail_resources_at 113
      (planner_rem_span (new_id idle) (planner_add_span 110 10 4 idle).0).0
    ≡ planner_avail_resources_at 113 idle
planner_rem_span-planner_add_span_example =
    planner_rem_span-planner_add_span 110 10 4 113 idle idle-IsSound idle-Fits (omega arith)
      idle_new (omega arith) (omega arith)

planner_avail_time_first-Finds_example :
    Finds 105 10 8 busy (planner_avail_time_first 105 10 8 busy)
planner_avail_time_first-Finds_example =
    planner_avail_time_first-Finds 105 10 8 busy busy-IsSound (omega arith)

abbrev points_tree : PointTree
points_tree =
    PointTree.node (PointTree.node PointTree.leaf 100 (held 1 0 10) PointTree.leaf) 110 (held 1 4 6)
      (PointTree.node PointTree.leaf 120 (held 1 0 10) PointTree.leaf)

tree_get_state-in_order_example :
    tree_get_state 115 points_tree ≡ get_state 115 (in_order points_tree)
unfolding in_order
tree_get_state-in_order_example =
    tree_get_state-in_order 115 points_tree
      ((tt, tt, tt, tt), (tt, tt, tt, tt), (omega arith, tt), (refl, tt))
      (
        omega arith,
        omega arith,
        (omega arith, omega arith, tt, tt),
        (omega arith, omega arith, tt, tt),
      )

abbrev entry : ℕ → ℕ → ℕ → Entry
entry at remaining least = record { at = at; remaining = remaining; subtree_min = least }

-- Six units at 110, ten at 100 and at 120.
abbrev mintime_tree : MintimeTree
mintime_tree =
    MintimeTree.node (MintimeTree.node MintimeTree.leaf (entry 110 6 110) MintimeTree.leaf)
      (entry 120 10 100) (MintimeTree.node MintimeTree.leaf (entry 100 10 100) MintimeTree.leaf)

tree_get_mintime-earliest_example :
    ((earliest 8 mintime_tree ≡ max_time) × (tree_get_mintime 8 mintime_tree ≡ none))
    ⊎ ((e : Entry) × (tree_get_mintime 8 mintime_tree ≡ some e)
        × (e.at ≡ earliest 8 mintime_tree)
        × (less64 e.remaining 8 ≡ false))
unfolding less64
tree_get_mintime-earliest_example = tree_get_mintime-earliest 8 mintime_tree (
  (tt, tt, tt, tt, refl, omega arith),
  (tt, tt, tt, tt, refl, omega arith),
  (refl, tt, tt),
  (refl, tt, tt),
  refl,
  omega arith,
)

-- One unit of the span is given back, and then the rest.
abbrev cleared : Planner
unfolding serve_planner
cleared = serve_planner (rem_span 1) (serve_planner (reduce_span 1 1) busy)

three_used : usage 113 (serve_planner (reduce_span 1 1) busy).span_lookup ≡ 3
unfolding serve_planner sum_of
three_used = refl

nothing_left : cleared.span_lookup ≡ []
unfolding cleared serve_planner
nothing_left = refl

three_enough : (t : ℕ) → usage t (serve_planner (reduce_span 1 1) busy).span_lookup ≤ 3
unfolding serve_planner sum_of
three_enough t = ground arith

Served-IsSound_example : IsSound (
    serve_planner
      (rem_span 1)
      (serve_planner (change_total 3) (serve_planner (reduce_span 1 1) busy)))
Served-IsSound_example =
    Served-IsSound busy
      (serve_planner (rem_span 1)
        (serve_planner (change_total 3) (serve_planner (reduce_span 1 1) busy)))
      busy-IsSound
      (served (rem_span 1) tt (
        served (change_total 3) (omega arith, three_enough)
          (served (reduce_span 1 1) (omega arith) made)))
