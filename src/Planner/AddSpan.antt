-- ===== src/Planner/AddSpan.antt =====
-- resource/planner/c/planner_c_interface.cpp: planner_add_span on a sound planner, where the span fits.
use flux_sched.Common.{
  ℕ, ◌≡◌, ◌<◌, ◌≤◌, ◌+◌, ◌%◌, refl, sym, subst, ◌∙◌, ap, Bool, true, false, Option, none, some,
  if◌then◌else◌, arith,
}
use flux_sched.OrdMap.{OrdMap, nat_key, find, add, assign, same}
use flux_sched.OrdMap.Find.{insert_fresh, find-add, find-assign, find-add_self}
use flux_sched.OrdMap.Order.{IsSorted, add-IsSorted, assign-IsSorted}
use flux_sched.Planner.State.{Planner, Span, Result, ok, two_63, two_64, later}
use flux_sched.Planner.Points.{restore_track_points, get_or_new_point}
use flux_sched.Planner.Avail.{avail_during}
use flux_sched.Planner.Spans.{
  touch, incr_ref, new_span, not_feasible, span_input_check, span_new, enter_span, link_span,
  planner_add_span,
}
use flux_sched.Planner.Walk.{within}
use flux_sched.Planner.Usage.{use_of, ends_of, sum_of, usage, ends, sum_of-add, sum_of-assign}
use flux_sched.Planner.View.{SameFrame, SameFrame-trans, restore_track_points-SameView}
use flux_sched.Planner.Describes.{less64-small}
use flux_sched.Planner.Sound.{IsSound, IsSpan, Tells, Tells-frame, spans-Steady, IsSound-intro}
use flux_sched.Planner.Attach.{Attached, get_or_new_point-Attached, one_at, Steady-one}
use flux_sched.Planner.Fits.{Fits, later-plain, avail_during_iff}
use flux_sched.Planner.Entering.{linked, Framed, enter_span-Framed, enter_span-Tells}

module _ (start duration request : ℕ) (s : Planner) (h : IsSound s)
    (fits : Fits start duration request s) (plain : request < two_63) where
  request-le : request ≤ s.total_resources
  request-le = ground (arith, fits.free start, fits.lasting)

  pub fits-avail : avail_during start duration request s ≡ ok tt
  fits-avail =
      (avail_during_iff start duration s h fits.in_plan request fits.from_start fits.lasting
          plain).1
        fits.free

  pub fits-check : span_input_check start duration request s ≡ ok tt
  unfolding span_input_check not_feasible later
  fits-check =
      let a = less64-small s.total_resources request h.small plain in
      let b = less64-small request 0 plain (ground arith) in
      ground (arith, a, b, fits.from_start, fits.lasting, fits.in_plan, h.end_small, request-le)

  abbrev next_id : ℕ
  next_id = (s.span_counter + 1) % two_64

  abbrev entered : Planner
  entered = record s {
    span_counter = next_id;
    span_lookup = add next_id (new_span next_id start duration request) s.span_lookup;
  }

  fits-span_new :
      find next_id s.span_lookup ≡ none → span_new start duration request s ≡ (entered, ok next_id)
  unfolding span_new
  fits-span_new fresh =
      rw
        (
          fits-check,
          span_new,
          fresh,
          insert_fresh next_id (new_span next_id start duration request) s.span_lookup fresh,
        )
        refl

  fits-link :
      find next_id s.span_lookup ≡ none
      → planner_add_span start duration request s
        ≡ link_span next_id
            (new_span next_id start duration request)
            duration
            (restore_track_points entered)
  unfolding planner_add_span
  fits-link fresh =
      rw (fits-avail, planner_add_span, fits-span_new fresh)
        (ap
          (λ (q : Planner × Result ℕ).
            link_span next_id (new_span next_id start duration request) duration
              (restore_track_points q.0))
          (fits-span_new fresh))

  abbrev span_made : Span
  span_made = new_span next_id start duration request

  abbrev base : Planner
  base = restore_track_points entered

  base-Tells : Tells base (λ t. usage t s.span_lookup) (λ k. ends k s.span_lookup)
  base-Tells =
      Tells-frame (restore_track_points-SameView entered)
        (record { sorted = h.points.sorted; tells = h.points.tells; kept = h.points.kept })

  abbrev linked_first : Planner
  linked_first = touch incr_ref span_made.start (get_or_new_point span_made.start base).0

  abbrev linked_both : Planner
  linked_both = touch incr_ref span_made.last (get_or_new_point span_made.last linked_first).0

  base_start : base.plan_start ≡ s.plan_start
  base_start = (restore_track_points-SameView entered).frame.same_start

  first-Attached :
      Attached start base
        (λ t. usage t s.span_lookup)
        (λ k. ends k s.span_lookup)
        (get_or_new_point start base)
  first-Attached =
      get_or_new_point-Attached start base base-Tells (spans-Steady s.span_lookup)
        (ground (arith, base_start, fits.from_start))

  both-Attached :
      Attached span_made.last linked_first
        (λ t. usage t s.span_lookup)
        (λ k. ends k s.span_lookup + one_at start k)
        (get_or_new_point span_made.last linked_first)
  both-Attached =
      get_or_new_point-Attached span_made.last linked_first first-Attached.points
        (Steady-one start (spans-Steady s.span_lookup))
        (ground (
          arith,
          base_start,
          first-Attached.frame.same_start,
          fits.from_start,
          later-plain start duration s h fits.in_plan,
        ))

  linked-SameFrame : SameFrame entered linked_both
  linked-SameFrame =
      SameFrame-trans (restore_track_points-SameView entered).frame
        (SameFrame-trans first-Attached.frame both-Attached.frame)

  pub fits-enter :
      find next_id s.span_lookup ≡ none
      → planner_add_span start duration request s
        ≡ (enter_span next_id span_made duration linked_both, ok next_id)
  unfolding link_span
  fits-enter fresh =
      fits-link fresh ∙ rw (first-Attached.found, link_span, both-Attached.found) refl

  -- Once the span is entered.
  abbrev after : Planner
  after = enter_span next_id span_made duration linked_both

  after-Framed : Framed next_id span_made linked_both after
  after-Framed = enter_span-Framed next_id duration span_made linked_both

  after-spans :
      after.span_lookup ≡ assign next_id (linked span_made) (add next_id span_made s.span_lookup)
  after-spans =
      after-Framed.new_spans ∙ ap (assign next_id (linked span_made)) linked-SameFrame.same_spans

  pub after-SameBounds :
      (after.total_resources ≡ s.total_resources)
      × (after.plan_start ≡ s.plan_start)
      × (after.plan_end ≡ s.plan_end)
  after-SameBounds = (
    after-Framed.kept_total ∙ linked-SameFrame.same_total,
    after-Framed.kept_start ∙ linked-SameFrame.same_start,
    after-Framed.kept_end ∙ linked-SameFrame.same_end,
  )

  -- A sum over the spans counts the new one.
  pub after-sum :
      find next_id s.span_lookup ≡ none
      → (f : Span → ℕ) → f (linked span_made) ≡ f span_made
      → sum_of f after.span_lookup ≡ sum_of f s.span_lookup + f span_made
  after-sum fresh f same = ground (
    arith,
    ap (sum_of f) after-spans,
    same,
    sum_of-add f next_id span_made s.span_lookup,
    sum_of-assign f next_id span_made (linked span_made) (add next_id span_made s.span_lookup)
        (find-add_self next_id span_made s.span_lookup fresh),
  )

  pub after-find :
      find next_id s.span_lookup ≡ none
      → (j : ℕ)
      → find j after.span_lookup
        ≡ (if same next_id j then some (linked span_made) else find j s.span_lookup)
  after-find fresh j =
      ap (find j) after-spans
      ∙ find-assign next_id j (linked span_made) span_made (add next_id span_made s.span_lookup)
          (find-add_self next_id span_made s.span_lookup fresh)
      ∙ hidden (same next_id j) (find-add next_id j span_made s.span_lookup fresh)
    where
      hidden :
          (b : Bool)
          → find j (add next_id span_made s.span_lookup)
            ≡ (if b then some span_made else find j s.span_lookup)
          → (if b then some (linked span_made) else find j (add next_id span_made s.span_lookup))
            ≡ (if b then some (linked span_made) else find j s.span_lookup)
      hidden true e = refl
      hidden false e = e

  after-Tells :
      Tells after
        (λ k.
          if within start (later start duration) k
          then usage k s.span_lookup + request
          else usage k s.span_lookup)
        (λ k. ends k s.span_lookup + one_at start k + one_at span_made.last k)
  after-Tells =
      let p = later-plain start duration s h fits.in_plan in
      enter_span-Tells next_id duration span_made both-Attached.points
        (ground (arith, linked-SameFrame.same_total, h.small))
        (ground (arith, linked-SameFrame.same_start, fits.from_start))
        (λ k w. ground (arith, linked-SameFrame.same_total, fits.free k, p, w))

  pub after-IsSound : find next_id s.span_lookup ≡ none → IsSound after
  after-IsSound fresh =
      let p = later-plain start duration s h fits.in_plan in
      IsSound-intro h after-SameBounds.0 after-SameBounds.1 after-SameBounds.2
        (subst (λ (m : OrdMap ℕ Span). IsSorted m) (sym after-spans)
          (assign-IsSorted next_id (linked span_made) (add next_id span_made s.span_lookup)
            (add-IsSorted next_id span_made s.span_lookup fresh h.spans_sorted)))
        (λ j span eq.
          new_or_old (same next_id j) span (sym (after-find fresh j) ∙ eq) (h.spans j span))
        after-Tells (λ k. ground (arith, after-sum fresh (use_of k) refl))
        (λ k. ground (arith, after-sum fresh (ends_of k) refl))
    where
      made-IsSpan : IsSpan s.plan_start s.plan_end (linked span_made)
      made-IsSpan =
          let p = later-plain start duration s h fits.in_plan in
          record {
            starts = fits.from_start;
            lasts = ground (arith, p, fits.lasting);
            ends_by = ground (arith, p, fits.in_plan);
            at_start = refl;
            at_last = refl;
            active = refl;
          }

      new_or_old :
          {o : Option Span} (b : Bool) (span : Span)
          → (if b then some (linked span_made) else o) ≡ some span
          → (o ≡ some span → IsSpan s.plan_start s.plan_end span)
          → IsSpan s.plan_start s.plan_end span
      new_or_old true span eq old =
          subst (IsSpan s.plan_start s.plan_end) (ground (arith, eq)) made-IsSpan
      new_or_old false span eq old = old eq
