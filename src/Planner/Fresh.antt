-- ===== src/Planner/Fresh.antt =====
-- resource/planner/c/planner_c_interface.cpp: a planner just made is sound.
use flux_sched.Common.{
  Bool, true, false, ℕ, ◌≡◌, ◌<◌, ◌≤◌, refl, [], ◌∷◌, some, if_intro, ltb, leb, arith,
}
use flux_sched.OrdMap.{nat_key, find, same_iff, add}
use flux_sched.Queue.Params.{Str}
use flux_sched.Planner.State.{Result, Planner, ok, two_63, later}
use flux_sched.Planner.Points.{mt_tree_insert}
use flux_sched.Planner.Lifecycle.{
  erase_plan, reinitialize, planner_reset, planner_new, plant, empty_planner, base_point,
}
use flux_sched.Planner.Usage.{sum_of}
use flux_sched.Planner.View.{mt_tree_insert-SameView, restore_track_points-SameView}
use flux_sched.Planner.Sound.{IsSound, Tells, IsSound-SameView}

-- A planner with its first point alone.
abbrev lone : Planner → ℕ → ℕ → Bool → Planner
lone s base_time plan_end new = record s {
  plan_start = base_time;
  plan_end = plan_end;
  sched_points = (base_time, record (base_point s.total_resources) { new_point = new }) ∷ [];
  p0 = some base_time;
  span_lookup = [];
}

lone-Tells :
    (s : Planner) (base_time plan_end : ℕ) (new : Bool)
    → Tells (lone s base_time plan_end new) (λ t. 0) (λ k. 0)
unfolding find
lone-Tells s base_time plan_end new = record {
  sorted = (tt, tt);
  tells = record {
    refs = λ k r c m v. ground (arith, v, same_iff base_time k);
    used = λ k r c m v. ground (arith, v);
    whole = λ k r c m v. ground (arith, v);
    low = λ k r c m v. ground (arith, v, same_iff base_time k);
    gone = λ k v. refl;
    based = λ v. ground (arith, v, same_iff base_time base_time);
  };
  kept = λ k r c m v b. ground (arith, v);
}

lone-IsSound :
    (s : Planner) (base_time duration : ℕ) (new : Bool)
    → s.total_resources < two_63
    → IsSound (lone s base_time (later base_time duration) new)
unfolding find later sum_of
lone-IsSound s base_time duration new small = record {
  small = small;
  end_small = ground arith;
  spans_sorted = tt;
  spans = λ id span e. cc;
  points = lone-Tells s base_time (later base_time duration) new;
}

-- The members that a planner just made differs in from an empty one, but for the point.
abbrev named : ℕ → Str → Planner
named total type = record empty_planner { total_resources = total; resource_type = type }

-- For a duration of at least 1 and a total below 2^63, planner_new makes a planner, which is
-- sound and without spans.
pub planner_new-IsSound :
    (base_time duration total : ℕ) (type : Str)
    → 1 ≤ duration
    → total < two_63
    → (s : Planner) × (planner_new base_time duration total (some type) ≡ ok s)
      × IsSound s
      × (s.span_lookup ≡ [])
unfolding planner_new plant add
planner_new-IsSound base_time duration total type pos small =
    let b = lone (named total type) base_time (later base_time duration) true in
    let v = mt_tree_insert-SameView base_time b in
    (
      mt_tree_insert base_time b,
      if_intro (λ r. r ≡ ok (mt_tree_insert base_time b)) (ltb duration 1)
          (λ bad. absurd (ground (arith, bad, pos)))
          (λ _.
            if_intro (λ r. r ≡ ok (mt_tree_insert base_time b)) (leb two_63 total)
              (λ bad. absurd (ground (arith, bad, small))) (λ _. refl)),
      IsSound-SameView v (lone-IsSound (named total type) base_time duration true small),
      v.frame.same_spans,
    )

pub planner_reset-IsSound :
    (base_time duration : ℕ) (s : Planner)
    → IsSound s
    → IsSound (planner_reset base_time duration s).0
unfolding planner_reset erase_plan reinitialize add
planner_reset-IsSound base_time duration s h =
    if_intro (λ (r : Planner × Result Unit). IsSound r.0) (ltb duration 1) (λ _. h)
      (λ _.
        let e = erase_plan s in
        let b = lone e base_time (later base_time duration) false in
        let r = IsSound-SameView (mt_tree_insert-SameView base_time b) (
          lone-IsSound e base_time duration false
            (ground (arith, h.small, (restore_track_points-SameView s).frame.same_total))) in
        record {
          small = r.small;
          end_small = r.end_small;
          spans_sorted = r.spans_sorted;
          spans = r.spans;
          points = record {
            sorted = r.points.sorted;
            tells = r.points.tells;
            kept = r.points.kept;
          };
        })
