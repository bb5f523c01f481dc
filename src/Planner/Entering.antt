-- ===== src/Planner/Entering.antt =====
-- resource/planner/c/planner_c_interface.cpp: the points of a new span are brought up to date.
use flux_sched.Common.{
  ℕ, ◌≡◌, ◌<◌, ◌≤◌, ◌+◌, refl, sym, subst, ◌∙◌, ap, true, List, some, if◌then◌else◌, arith,
}
use flux_sched.OrdMap.{nat_key, assign}
use flux_sched.Planner.State.{Points, Planner, Span, two_63, later, add64, sub64}
use flux_sched.Planner.Points.{modify, fetch_overlap_points, update_points_add_span, plus}
use flux_sched.Planner.Spans.{not_new, enter_span}
use flux_sched.Planner.Walk.{within}
use flux_sched.Planner.View.{
  SameView, SameView-trans, core-modify, modify-IsSorted, update_mintime_resource_tree-SameView,
  update_points_add_span-modify_all,
}
use flux_sched.Planner.Sound.{Tells, Tells-frame}
use flux_sched.Planner.Window.{with_points, window-Tells}

-- The points once the span is entered.
module _ (id duration : ℕ) (span : Span) {s : Planner} {u e : ℕ → ℕ} (h : Tells s u e)
    (small : s.total_resources < two_63) (le : s.plan_start ≤ span.start)
    (free : (k : ℕ)
      → within span.start (later span.start duration) k ≡ true
      → u k + span.planned ≤ s.total_resources) where
  abbrev used_after : ℕ → ℕ
  used_after k = if within span.start (later span.start duration) k then u k + span.planned else u k

  abbrev fetched : List ℕ
  fetched = fetch_overlap_points span.start duration s.sched_points

  abbrev written : Points
  written = (update_points_add_span s.total_resources span.planned fetched s.sched_points).0

  written-Tells : Tells (with_points written s) used_after e
  unfolding add64 sub64
  written-Tells =
      subst (λ (m : Points). Tells (with_points m s) used_after e)
        (sym
          (update_points_add_span-modify_all s.total_resources span.planned fetched s.sched_points))
        (window-Tells (plus span.planned) (λ c. add64 c span.planned) (λ m. sub64 m span.planned)
          (λ p. refl) h span.start duration le used_after
          (λ k c m w hc hm. (
            ground (arith, free k w, w, hc, hm, small),
            ground (arith, free k w, w, hc, hm, small),
          ))
          (λ k w. ground (arith, w)))

  settled :
      (m : Points) (t : Planner)
      → SameView
          (with_points m t)
          (with_points (modify not_new span.last (modify not_new span.start m)) t)
  settled m t = record {
    frame = record {
      same_spans = refl;
      same_total = refl;
      same_start = refl;
      same_end = refl;
      same_counter = refl;
    };
    same_view = λ k.
        core-modify not_new span.last k (modify not_new span.start m) (λ p. refl)
        ∙ core-modify not_new span.start k m (λ p. refl);
    still_sorted = λ q.
        modify-IsSorted not_new span.last (modify not_new span.start m)
          (modify-IsSorted not_new span.start m q);
  }

  pub enter_span-Tells : Tells (enter_span id span duration s) used_after e
  unfolding enter_span
  enter_span-Tells =
      let v = SameView-trans (settled written s) (
        update_mintime_resource_tree-SameView fetched
          (with_points (modify not_new span.last (modify not_new span.start written)) s)) in
      let r = Tells-frame v written-Tells in
      record { sorted = r.sorted; tells = r.tells; kept = r.kept }

-- The span as it is entered.
abbrev pub linked : Span → Span
linked span = record span { start_p = some span.start; last_p = some span.last; in_system = true }

pub record Framed (id : ℕ) (span : Span) (s t : Planner) : Type 0 where
  pub new_spans : t.span_lookup ≡ assign id (linked span) s.span_lookup
  pub kept_total : t.total_resources ≡ s.total_resources
  pub kept_start : t.plan_start ≡ s.plan_start
  pub kept_end : t.plan_end ≡ s.plan_end

pub enter_span-Framed :
    (id duration : ℕ) (span : Span) (s : Planner) → Framed id span s (enter_span id span duration s)
unfolding enter_span
enter_span-Framed id duration span s =
    let f =
      (update_mintime_resource_tree-SameView
        (fetch_overlap_points span.start duration s.sched_points)
        (with_points
          (modify not_new span.last (
            modify not_new span.start
              (update_points_add_span s.total_resources span.planned
                (fetch_overlap_points span.start duration s.sched_points) s.sched_points).0))
          s)).frame in
    record {
      new_spans = ap (assign id (linked span)) f.same_spans;
      kept_total = f.same_total;
      kept_start = f.same_start;
      kept_end = f.same_end;
    }
