-- ===== src/Planner/Succeeds.antt =====
-- resource/planner/c/planner_c_interface.cpp: planner_avail_time_first finds a time where there is one.
use flux_sched.Common.{
  ℕ, ◌≡◌, ◌<◌, ◌≤◌, ◌+◌, refl, subst, ap, ◌∙◌, ◌%◌, Bool, false, none, some, if◌then◌else◌, ltb,
  leb, arith, ◌||◌,
}
use flux_sched.OrdMap.{nat_key, find}
use flux_sched.OrdMap.Order.{IsSorted}
use flux_sched.Planner.State.{
  Planner, ok, error, einval, erange, max_time, no_time, two_63, two_64, less64,
}
use flux_sched.Planner.Points.{restore_track_points}
use flux_sched.Planner.Avail.{run_avail_at, planner_avail_time_first}
use flux_sched.Planner.Usage.{usage}
use flux_sched.Planner.View.{SameView, SameView-trans}
use flux_sched.Planner.Sound.{IsSound, IsSound-SameView}
use flux_sched.Planner.Spans.{planner_add_span}
use flux_sched.Planner.Adding.{new_id, planner_add_span-Adds}
use flux_sched.Planner.Fits.{Fits}
use flux_sched.Planner.Search.{Fits-back, SameFrame-sym}
use flux_sched.Planner.Reaching.{Ready, Succeeds, run-Succeeds}
use flux_sched.Planner.Found.{started, started-SameView}

affordable_lem :
    (total used request : ℕ)
    → total < two_63
    → used + request ≤ total
    → less64 total request ≡ false
unfolding less64
affordable_lem total used request small le = ground (arith, small, le)

guards_pass :
    {A : Type 0} {c d : Bool} (x y : A) {z : A}
    → c ≡ false
    → d ≡ false
    → (if c then x else if d then y else z) ≡ z
guards_pass x y e h = rw (e, h) refl

-- Where a request below 2^63 fits a sound planner from a time on, which is not before on_or_after
-- nor INT64_MAX, and the mintime tree, in order, has a point at that time with the request once the
-- points of the search before are back in it, planner_avail_time_first finds a time that is neither
-- before on_or_after nor after that point, and, the next id being unused, planner_add_span at the
-- time found succeeds; on_or_after is not negative and not before the start of the plan.
pub planner_add_span-planner_avail_time_first :
    (on_or_after duration request latest free : ℕ) (s : Planner)
    → IsSound s
    → Fits latest duration request s
    → request < two_63
    → on_or_after ≤ latest
    → latest < max_time
    → no_time < on_or_after
    → s.plan_start ≤ on_or_after
    → IsSorted (restore_track_points s).mt_resource_tree
    → find latest (restore_track_points s).mt_resource_tree ≡ some free
    → less64 free request ≡ false
    → find (new_id s) s.span_lookup ≡ none
    → (t : Planner) × (at : ℕ) × (planner_avail_time_first on_or_after duration request s
        ≡ (t, ok at))
      × (on_or_after ≤ at)
      × (at ≤ latest)
      × ((planner_add_span at duration request t).1 ≡ ok (new_id s))
unfolding planner_avail_time_first
planner_add_span-planner_avail_time_first on_or_after duration request latest free s h fits small
      late before_max real begins sorted listed enough fresh =
    added (
      run-Succeeds on_or_after duration request fits.lasting small latest free enough late
        before_max s1 ready real)
  where
    s1 : Planner
    s1 = started on_or_after duration request s

    w : SameView s s1
    w = started-SameView on_or_after duration request s

    valid : ((ltb on_or_after s.plan_start || leb s.plan_end on_or_after) || ltb duration 1) ≡ false
    valid = ground (arith, begins, late, fits.in_plan, fits.lasting)

    affordable : less64 s.total_resources request ≡ false
    affordable =
        affordable_lem s.total_resources (usage latest s.span_lookup) request h.small
          (fits.free latest (omega arith) (ground (arith, fits.lasting)))

    ready :
        Ready on_or_after duration request fits.lasting small latest free enough late before_max s1
    ready = record {
      sound = IsSound-SameView w h;
      begins = ground (arith, begins, w.frame.same_start);
      sorted = sorted;
      listed = listed;
      fits = Fits-back latest duration request (SameFrame-sym w.frame) fits;
    }

    added :
        Succeeds on_or_after duration request fits.lasting small latest free enough late before_max
          s1
          (run_avail_at on_or_after duration request s1)
        → (t : Planner) × (at : ℕ) × (planner_avail_time_first on_or_after duration request s
            ≡ (t, ok at))
          × (on_or_after ≤ at)
          × (at ≤ latest)
          × ((planner_add_span at duration request t).1 ≡ ok (new_id s))
    added (t, at, e, (v, not_early, le, fit)) =
        let same_frame = (SameView-trans w v).frame in
        let t_fits = Fits-back at duration request (SameFrame-sym v.frame) fit in
        let t_fresh : find (new_id t) t.span_lookup ≡ none =
          rw (same_frame.same_spans, same_frame.same_counter) fresh in
        let done_there =
          (planner_add_span-Adds at duration request t (IsSound-SameView (SameView-trans w v) h)
            t_fits small t_fresh).0 in
        (
          t,
          at,
          guards_pass (s, error einval) (s, error erange) valid affordable ∙ e,
          not_early,
          le,
          subst (λ (n : ℕ). (planner_add_span at duration request t).1 ≡ ok n)
              (ap (λ (c : ℕ). (c + 1) % two_64) same_frame.same_counter) done_there,
        )
