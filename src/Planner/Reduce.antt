-- ===== src/Planner/Reduce.antt =====
-- resource/planner/c/planner_c_interface.cpp: planner_reduce_span on a sound planner.
use flux_sched.Common.{
  ℕ, ◌≡◌, ◌<◌, ◌≤◌, ◌+◌, refl, sym, subst, ◌∙◌, ap, Bool, true, false, List, [], ◌∷◌, Option, none,
  some, if◌then◌else◌, if_intro, ◌==◌, arith, inl, inr, Option-cases,
}
use flux_sched.OrdMap.{OrdMap, nat_key, find, assign, same, same_iff, same_refl}
use flux_sched.OrdMap.Find.{find-assign}
use flux_sched.OrdMap.Order.{IsSorted, assign-IsSorted}
use flux_sched.Planner.State.{
  Point, Points, Planner, Span, Result, ok, error, crash, two_63, later, add64, sub64, less64,
}
use flux_sched.Planner.Points.{
  modify, minus, passes, test_of, above_zero, fetch_overlap_points,
  update_points_partial_subtract_span, restore_track_points,
}
use flux_sched.Planner.Spans.{
  planner_rem_span, reduce_partially, whole_removed, planner_reduce_span,
}
use flux_sched.Planner.Walk.{
  mem, Distinct, within, fetch_overlap_points-Distinct, mem-fetch_overlap_points,
}
use flux_sched.Planner.Usage.{use_of, ends_of, usage, ends, sum_of-assign, sum_of-erase}
use flux_sched.Planner.View.{
  modify_all, find-modify, on_point, update_mintime_resource_tree-SameView,
  restore_track_points-SameView,
}
use flux_sched.Planner.Describes.{less64-small, state-used, view_of-some, view_of-none}
use flux_sched.Planner.Sound.{
  IsSound, IsSpan, Tells, Tells-frame, IsSound-intro, IsSound-SameView, spans-Steady,
}
use flux_sched.Planner.Window.{with_points}
use flux_sched.Planner.Subtract.{subtracted-TellsBut}
use flux_sched.Planner.RemSpan.{planner_rem_span-Removes, planner_rem_span-unknown}

-- A point has the quantity scheduled that is taken away, and no more than the total.
abbrev Holds : ℕ → ℕ → Point → Type 0
Holds total x p = (x ≤ p.scheduled) × (p.scheduled + p.remaining ≡ total)

minus-fine :
    (total x : ℕ) (p : Point)
    → total < two_63
    → Holds total x p
    → above_zero total (minus x p) ≡ true
unfolding less64 add64 sub64
minus-fine total x p small h = ground (arith, small, h)

module _ (total x : ℕ) (small : total < two_63) where
  passes-minus :
      (at : ℕ) (m : Points)
      → ((p : Point) → find at m ≡ some p → Holds total x p)
      → passes (above_zero total) at (modify (minus x) at m) ≡ true
  unfolding passes
  passes-minus at m h =
      ap (test_of (above_zero total)) (
        find-modify (minus x) at at m
        ∙ ap (λ b. if b then on_point (minus x) (find at m) else find at m) (same_refl at))
      ∙ go (find at m) h
    where
      go :
          (o : Option Point)
          → ((p : Point) → o ≡ some p → Holds total x p)
          → test_of (above_zero total) (on_point (minus x) o) ≡ true
      go none h = refl
      go (some p) h = minus-fine total x p small (h p refl)

  -- No point fails, so that all of them are written.
  update_points_partial_subtract_span-modify_all :
      (list : List ℕ) (m : Points)
      → Distinct list
      → ((k : ℕ) (p : Point) → mem k list ≡ true → find k m ≡ some p → Holds total x p)
      → (update_points_partial_subtract_span total x list m).0 ≡ modify_all (minus x) list m
  unfolding update_points_partial_subtract_span modify_all mem
  update_points_partial_subtract_span-modify_all [] m d h = refl
  update_points_partial_subtract_span-modify_all (at ∷ list) m d h =
      rw (passes-minus at m (λ p e. h at p (ground arith) e), update_points_partial_subtract_span)
        (update_points_partial_subtract_span-modify_all list (modify (minus x) at m) d.1 (λ k p i e.
          h k p (ground (arith, i))
            (ground (arith, find-modify (minus x) at k m, e, i, d.0, same_iff at k))))

module _ (id x : ℕ) (span : Span) (s : Planner) (h : IsSound s)
    (found : find id s.span_lookup ≡ some span) where
  -- What is taken away, as a span, and what is left.
  abbrev taken : Span
  taken = record span { planned = x }

  abbrev kept : Span
  kept = record span { planned = sub64 span.planned x }

  abbrev reduced : OrdMap ℕ Span
  reduced = assign id kept s.span_lookup

  found-IsSpan : IsSpan s.plan_start s.plan_end span
  found-IsSpan = h.spans id span found

  total-le : (t : ℕ) → s.plan_start ≤ t → usage t s.span_lookup ≤ s.total_resources
  total-le t le =
      let (_, _, _, _, _, hu, hw) =
        state-used h.points.sorted h.points.tells (spans-Steady s.span_lookup) t le in
      ground (arith, hu, hw)

  use-le : (t : ℕ) → use_of t span ≤ usage t s.span_lookup
  use-le t = ground (arith, sum_of-erase (use_of t) id span s.span_lookup h.spans_sorted found)

  planned-small : span.planned < two_63
  planned-small =
      let i = found-IsSpan in
      ground (arith, use-le span.start, total-le span.start i.starts, i.lasts, h.small)

  module _ (less : x < span.planned) where
    used-less : (t : ℕ) → usage t s.span_lookup ≡ use_of t taken + usage t reduced
    unfolding sub64
    used-less t = ground (arith, less, sum_of-assign (use_of t) id span kept s.span_lookup found)

    ends-same : (k : ℕ) → ends k reduced ≡ ends k s.span_lookup
    ends-same k = ground (arith, sum_of-assign (ends_of k) id span kept s.span_lookup found)

    abbrev list : List ℕ
    list = fetch_overlap_points span.start (sub64 span.last span.start) s.sched_points

    window_end : later span.start (sub64 span.last span.start) ≡ span.last
    unfolding later sub64
    window_end = let i = found-IsSpan in ground (arith, i.lasts, i.ends_by, h.end_small)

    list-within : (k : ℕ) → mem k list ≡ true → within span.start span.last k ≡ true
    list-within k m = elim (Option-cases (find s.plan_start s.sched_points)) [
      | inl n ↦ absurd (h.points.tells.based (view_of-none s.plan_start s.sched_points n))
      | inr (q, eq) ↦ ground (
        arith,
        m,
        mem-fetch_overlap_points span.start (sub64 span.last span.start) s.sched_points
            h.points.sorted s.plan_start k q eq found-IsSpan.starts,
        window_end,
      )
    ]

    point-Holds :
        (k : ℕ) (p : Point)
        → mem k list ≡ true
        → find k s.sched_points ≡ some p
        → Holds s.total_resources x p
    point-Holds k p m e =
        let v = view_of-some k s.sched_points p e in
        (
          ground (
            arith,
            list-within k m,
            less,
            use-le k,
            h.points.tells.used k p.ref_count p.scheduled p.remaining v,
          ),
          h.points.tells.whole k p.ref_count p.scheduled p.remaining v,
        )

    abbrev written : Points
    written = (update_points_partial_subtract_span s.total_resources x list s.sched_points).0

    written-Tells : Tells (with_points written s) (λ t. usage t reduced) (λ k. ends k s.span_lookup)
    written-Tells =
        let i = found-IsSpan in
        subst
          (λ (m : Points).
            Tells (with_points m s) (λ t. usage t reduced) (λ k. ends k s.span_lookup))
          (sym (
            update_points_partial_subtract_span-modify_all s.total_resources x h.small list
              s.sched_points
              (fetch_overlap_points-Distinct span.start (sub64 span.last span.start) s.sched_points
                h.points.sorted)
              point-Holds))
          (subtracted-TellsBut taken (λ t. usage t reduced) h.points h.small i.starts i.lasts
            (ground (arith, i.ends_by, h.end_small)) used-less)

    reduce_partially-IsSound : IsSound (reduce_partially id span x s)
    unfolding reduce_partially
    reduce_partially-IsSound =
        let w : Planner = with_points written s in
        let v = update_mintime_resource_tree-SameView list (record w { span_lookup = reduced }) in
        let t : Tells (record w { span_lookup = reduced }) (λ t. usage t reduced)
            (λ k. ends k s.span_lookup) =
          record {
            sorted = written-Tells.sorted;
            tells = written-Tells.tells;
            kept = written-Tells.kept;
          } in
        IsSound-intro h v.frame.same_total v.frame.same_start v.frame.same_end
          (subst (λ (m : OrdMap ℕ Span). IsSorted m) (sym v.frame.same_spans)
            (assign-IsSorted id kept s.span_lookup h.spans_sorted))
          (λ j other eq.
            spans (same id j) other
              (sym (find-assign id j kept span s.span_lookup found)
                ∙ sym (ap (find j) v.frame.same_spans)
                ∙ eq)
              (h.spans j other))
          (Tells-frame v t) (λ k. ap (usage k) v.frame.same_spans)
          (λ k. ap (ends k) v.frame.same_spans ∙ ends-same k)
      where
        kept-IsSpan : IsSpan s.plan_start s.plan_end kept
        kept-IsSpan =
            let i = found-IsSpan in
            record {
              starts = i.starts;
              lasts = i.lasts;
              ends_by = i.ends_by;
              at_start = i.at_start;
              at_last = i.at_last;
              active = i.active;
            }

        spans :
            {o : Option Span} (b : Bool) (other : Span)
            → (if b then some kept else o) ≡ some other
            → (o ≡ some other → IsSpan s.plan_start s.plan_end other)
            → IsSpan s.plan_start s.plan_end other
        spans true other eq old =
            subst (IsSpan s.plan_start s.plan_end) (ground (arith, eq)) kept-IsSpan
        spans false other eq old = old eq

pub planner_rem_span-IsSound :
    (id : ℕ) (s : Planner) → IsSound s → IsSound (planner_rem_span id s).0
planner_rem_span-IsSound id s h = elim (Option-cases (find id s.span_lookup)) [
  | inl e ↦
      subst (λ (r : Planner × Result Unit). IsSound r.0) (sym (planner_rem_span-unknown id s e)) h
  | inr (span, e) ↦ (planner_rem_span-Removes id span s h e).1.sound
]

whole_removed-first : (r : Planner × Result Unit) → IsSound r.0 → IsSound (whole_removed r).0
whole_removed-first (s, ok _) h = h
whole_removed-first (s, error e) h = h
whole_removed-first (s, crash) h = h

pub planner_reduce_span-IsSound :
    (id x : ℕ) (s : Planner) → IsSound s → x < two_63 → IsSound (planner_reduce_span id x s).0
unfolding planner_reduce_span
planner_reduce_span-IsSound id x s h small = elim (Option-cases (find id s.span_lookup)) [
  | inl e ↦ rw (e, planner_reduce_span) h
  | inr (span, e) ↦
      let v = restore_track_points-SameView s in
      let P : Planner × Result Bool → Type 0 = λ r. IsSound r.0 in
      rw (e, planner_reduce_span)
        (if_intro P (x == span.planned)
          (λ _. whole_removed-first (planner_rem_span id s) (planner_rem_span-IsSound id s h))
          (λ _.
            if_intro P (x == 0) (λ _. h)
              (λ _.
                if_intro P (less64 x span.planned)
                  (λ lt.
                    reduce_partially-IsSound id x span (restore_track_points s)
                      (IsSound-SameView v h) (ap (find id) v.frame.same_spans ∙ e)
                      (ground (
                        arith,
                        lt,
                        less64-small x span.planned small (planned-small id x span s h e),
                      )))
                  (λ _. h))))
]
