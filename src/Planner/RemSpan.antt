-- ===== src/Planner/RemSpan.antt =====
-- resource/planner/c/planner_c_interface.cpp: planner_rem_span on a sound planner.
use flux_sched.Common.{
  ℕ, ◌≡◌, ◌≢◌, ◌<◌, ◌+◌, refl, sym, subst, ◌∙◌, ap, Bool, ◌||◌, none, some, ◌==◌, arith,
}
use flux_sched.OrdMap.{OrdMap, nat_key, find, erase}
use flux_sched.OrdMap.Find.{find-erase, find-erase_self, find-erase_ne}
use flux_sched.OrdMap.Order.{IsSorted, erase-IsSorted}
use flux_sched.Planner.State.{Planner, Span, ok, error, einval, two_64, sub64}
use flux_sched.Planner.Points.{
  fetch_overlap_points, update_points_subtract_span, update_mintime_resource_tree,
  restore_track_points,
}
use flux_sched.Planner.Spans.{touch, decr_ref, drop_point, leave_span, planner_rem_span}
use flux_sched.Planner.Usage.{use_of, ends_of, usage, ends, sum_of-erase}
use flux_sched.Planner.View.{view, SameFrame, SameFrame-trans, restore_track_points-SameView}
use flux_sched.Planner.Steps.{Describes-ext}
use flux_sched.Planner.Sound.{
  IsSound, IsSpan, TellsBut, Tells, never, IsSound-intro, IsSound-SameView,
}
use flux_sched.Planner.Attach.{one_at, touch-SameFrame}
use flux_sched.Planner.Window.{with_points}
use flux_sched.Planner.Release.{decr_ref-TellsBut, drop_point-TellsBut}
use flux_sched.Planner.Subtract.{settled-TellsBut, settled-SameFrame}

-- A span of a planner whose points tell the sums.
module _ (id : ℕ) (span : Span) (s : Planner) (h : IsSound s)
    (found : find id s.span_lookup ≡ some span) where
  abbrev left : OrdMap ℕ Span
  left = erase id s.span_lookup

  abbrev freed : Planner
  freed = touch decr_ref span.last (touch decr_ref span.start s)

  freed-TellsBut :
      TellsBut
        (λ k. (never k || (span.start == k)) || (span.last == k))
        freed
        (λ t. usage t s.span_lookup)
        (λ k. ends k left)
  freed-TellsBut =
      let p = h.points in
      decr_ref-TellsBut span.last (
        decr_ref-TellsBut span.start (record {
          sorted = p.sorted;
          tells =
              Describes-ext p.tells (view s) (λ t. usage t s.span_lookup)
                (λ k. ends k left + one_at span.last k + one_at span.start k) (λ k. refl)
                (λ k. refl)
                (λ k.
                  ground
                    (arith, sum_of-erase (ends_of k) id span s.span_lookup h.spans_sorted found));
          kept = p.kept;
        }))

  freed-SameFrame : SameFrame s freed
  freed-SameFrame =
      SameFrame-trans (touch-SameFrame decr_ref span.start s)
        (touch-SameFrame decr_ref span.last (touch decr_ref span.start s))

  abbrev settled : Planner
  settled =
      let list = fetch_overlap_points span.start (sub64 span.last span.start) freed.sched_points in
      update_mintime_resource_tree list (
        with_points
          (update_points_subtract_span freed.total_resources span.planned list freed.sched_points).0
          freed)

  abbrev gone_but : ℕ → Bool
  gone_but k = (never k || (span.start == k)) || (span.last == k)

  found-IsSpan : IsSpan s.plan_start s.plan_end span
  found-IsSpan = h.spans id span found

  settled_lem :
      TellsBut gone_but settled (λ t. usage t left) (λ k. ends k left) × SameFrame s settled
  settled_lem =
      let i = found-IsSpan in
      let last_small : span.last < two_64 = ground (arith, i.ends_by, h.end_small) in
      let uses = λ (k : ℕ). sum_of-erase (use_of k) id span s.span_lookup h.spans_sorted found in
      (
        settled-TellsBut span (λ t. usage t left) freed-TellsBut h.small i.starts i.lasts last_small
            uses,
        SameFrame-trans freed-SameFrame (
            settled-SameFrame span (λ t. usage t left) freed-TellsBut h.small i.starts i.lasts
              last_small uses),
      )

  abbrev dropped : Planner
  dropped = drop_point span.last (drop_point span.start settled)

  dropped_lem : Tells dropped (λ t. usage t left) (λ k. ends k left) × SameFrame s dropped
  dropped_lem =
      let (p0, f0) = settled_lem in
      let (p1, f1) = drop_point-TellsBut span.start p0 in
      let (p2, f2) = drop_point-TellsBut span.last p1 in
      (
        record {
          sorted = p2.sorted;
          tells = p2.tells;
          kept = λ k r c m v b. p2.kept k r c m v (ground arith);
        },
        SameFrame-trans f0 (SameFrame-trans f1 f2),
      )

-- The planner `t` is without the span `id`, and what it used is free.
pub record Removes (id : ℕ) (span : Span) (s t : Planner) : Type 0 where
  pub sound : IsSound t
  pub uses : (t' : ℕ) → usage t' s.span_lookup ≡ use_of t' span + usage t' t.span_lookup
  pub gone : find id t.span_lookup ≡ none
  pub same_total : t.total_resources ≡ s.total_resources
  pub same_start : t.plan_start ≡ s.plan_start
  pub same_end : t.plan_end ≡ s.plan_end
  pub others : (j : ℕ) → id ≢ j → find j t.span_lookup ≡ find j s.span_lookup

leave_span-Removes :
    (id : ℕ) (span : Span) (s : Planner)
    → IsSound s
    → find id s.span_lookup ≡ some span
    → Removes id span s (leave_span id span span.start span.last s)
unfolding leave_span
leave_span-Removes id span s h found =
    let (p, f) = dropped_lem id span s h found in
    let spans = ap (erase id) f.same_spans in
    record {
      sound =
          IsSound-intro h f.same_total f.same_start f.same_end
            (subst (λ (m : OrdMap ℕ Span). IsSorted m) (sym spans)
              (erase-IsSorted id s.span_lookup h.spans_sorted))
            (λ j v eq.
              h.spans j v (ground (arith, ap (find j) spans, find-erase id j s.span_lookup, eq)))
            (record { sorted = p.sorted; tells = p.tells; kept = p.kept }) (λ k. ap (usage k) spans)
            (λ k. ap (ends k) spans);
      uses = λ k.
          sum_of-erase (use_of k) id span s.span_lookup h.spans_sorted found
          ∙ ap (λ x. use_of k span + x) (sym (ap (usage k) spans));
      gone = ap (find id) spans ∙ find-erase_self id s.span_lookup;
      same_total = f.same_total;
      same_start = f.same_start;
      same_end = f.same_end;
      others = λ j n. ap (find j) spans ∙ find-erase_ne id j s.span_lookup n;
    }

-- Where a sound planner has a span under an id, planner_rem_span succeeds, and afterwards the
-- planner is sound, what the span used at a time is no longer used, the id is not found, and
-- every other id is found as before.
pub planner_rem_span-Removes :
    (id : ℕ) (span : Span) (s : Planner)
    → IsSound s
    → find id s.span_lookup ≡ some span
    → ((planner_rem_span id s).1 ≡ ok tt) × Removes id span s (planner_rem_span id s).0
unfolding planner_rem_span
planner_rem_span-Removes id span s h found =
    let v = restore_track_points-SameView s in
    let i = h.spans id span found in
    let r =
      leave_span-Removes id span (restore_track_points s) (IsSound-SameView v h)
        (ap (find id) v.frame.same_spans ∙ found) in
    rw (found, planner_rem_span, i.at_start, i.at_last)
      (
        refl,
        record {
          sound = r.sound;
          uses = λ k. sym (ap (usage k) v.frame.same_spans) ∙ r.uses k;
          gone = r.gone;
          same_total = r.same_total ∙ v.frame.same_total;
          same_start = r.same_start ∙ v.frame.same_start;
          same_end = r.same_end ∙ v.frame.same_end;
          others = λ j n. r.others j n ∙ ap (find j) v.frame.same_spans;
        },
      )

-- An unknown id is refused, and nothing changes.
pub planner_rem_span-unknown :
    (id : ℕ) (s : Planner)
    → find id s.span_lookup ≡ none
    → planner_rem_span id s ≡ (s, error einval)
unfolding planner_rem_span
planner_rem_span-unknown id s e = rw (e, planner_rem_span) refl
