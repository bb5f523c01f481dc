-- ===== src/Planner/Subtract.antt =====
-- resource/planner/c/planner_c_interface.cpp: a quantity is subtracted in the window of a span.
use flux_sched.Common.{ℕ, ◌≡◌, ◌<◌, ◌≤◌, ◌+◌, refl, sym, subst, Bool, List, arith}
use flux_sched.OrdMap.{nat_key}
use flux_sched.Planner.State.{Points, Planner, Span, two_63, two_64, later, add64, sub64}
use flux_sched.Planner.Points.{
  minus, fetch_overlap_points, update_points_subtract_span, update_mintime_resource_tree,
}
use flux_sched.Planner.Usage.{use_of}
use flux_sched.Planner.View.{
  SameFrame, modify_all, update_points_subtract_span-modify_all,
  update_mintime_resource_tree-SameView,
}
use flux_sched.Planner.Sound.{TellsBut, Tells-frame}
use flux_sched.Planner.Window.{with_points, window-Tells}

-- The window of the span no longer uses its quantity.
module _ {but : ℕ → Bool} {s : Planner} {u e : ℕ → ℕ} (span : Span) (u' : ℕ → ℕ)
    (h : TellsBut but s u e) (small : s.total_resources < two_63) (le : s.plan_start ≤ span.start)
    (lt : span.start < span.last) (end : span.last < two_64)
    (used : (k : ℕ) → u k ≡ use_of k span + u' k) where
  abbrev fetched : List ℕ
  fetched = fetch_overlap_points span.start (sub64 span.last span.start) s.sched_points

  abbrev written : Points
  written = (update_points_subtract_span s.total_resources span.planned fetched s.sched_points).0

  pub window : later span.start (sub64 span.last span.start) ≡ span.last
  unfolding later sub64
  window = ground (arith, lt, end)

  pub subtracted-TellsBut :
      TellsBut but (with_points (modify_all (minus span.planned) fetched s.sched_points) s) u' e
  unfolding add64 sub64
  subtracted-TellsBut =
      window-Tells (minus span.planned) (λ c. sub64 c span.planned) (λ m. add64 m span.planned)
        (λ p. refl) h span.start (sub64 span.last span.start) le u'
        (λ k c m w hc hm. (
          ground (arith, used k, w, hc, hm, small, window),
          ground (arith, used k, w, hc, hm, small, window),
        ))
        (λ k w. ground (arith, used k, w, window))

  written-TellsBut : TellsBut but (with_points written s) u' e
  written-TellsBut =
      subst (λ (m : Points). TellsBut but (with_points m s) u' e)
        (sym (
          update_points_subtract_span-modify_all s.total_resources span.planned fetched
            s.sched_points))
        subtracted-TellsBut

  pub settled-TellsBut :
      TellsBut but (update_mintime_resource_tree fetched (with_points written s)) u' e
  settled-TellsBut =
      Tells-frame (update_mintime_resource_tree-SameView fetched (with_points written s))
        written-TellsBut

  pub settled-SameFrame : SameFrame s (update_mintime_resource_tree fetched (with_points written s))
  settled-SameFrame =
      let f = (update_mintime_resource_tree-SameView fetched (with_points written s)).frame in
      record {
        same_spans = f.same_spans;
        same_total = f.same_total;
        same_start = f.same_start;
        same_end = f.same_end;
        same_counter = f.same_counter;
      }
