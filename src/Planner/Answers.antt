-- ===== src/Planner/Answers.antt =====
-- resource/planner/c/planner_c_interface.cpp: what the queries answer, and a span that comes and goes.
use flux_sched.Common.{
  ℕ, ◌≡◌, ◌<◌, ◌≤◌, ◌+◌, ◌-◌, ◌↔◌, sym, ◌∙◌, ap, ◌||◌, none, if_intro, ltb, arith,
}
use flux_sched.OrdMap.{nat_key, find}
use flux_sched.Planner.State.{Planner, Result, ok, two_63, less64}
use flux_sched.Planner.Points.{get_state}
use flux_sched.Planner.Avail.{planner_avail_during, planner_avail_resources_at}
use flux_sched.Planner.Spans.{new_span, planner_add_span, planner_rem_span}
use flux_sched.Planner.Usage.{usage}
use flux_sched.Planner.Describes.{state-used, less64-small}
use flux_sched.Planner.Sound.{IsSound, spans-Steady}
use flux_sched.Planner.Fits.{Fits, later-plain, avail_during_iff}
use flux_sched.Planner.Entering.{linked}
use flux_sched.Planner.Adding.{planner_add_span-Adds, new_id}
use flux_sched.Planner.RemSpan.{planner_rem_span-Removes}

module _ (s : Planner) (h : IsSound s) where
  abbrev free_at : ℕ → ℕ
  free_at t = s.total_resources - usage t s.span_lookup

  -- At each time of the plan of a sound planner, planner_avail_resources_at returns the total
  -- less the sum of the quantities of the spans whose window holds the time.
  pub planner_avail_resources_at-usage :
      (t : ℕ)
      → s.plan_start ≤ t
      → t ≤ s.plan_end
      → planner_avail_resources_at t s ≡ ok (s.total_resources - usage t s.span_lookup)
  unfolding planner_avail_resources_at get_state
  planner_avail_resources_at-usage t a b =
      let (j, p, l, eq, c, hu, hw) =
        state-used h.points.sorted h.points.tells (spans-Steady s.span_lookup) t a in
      if_intro (λ r. r ≡ ok (free_at t)) (ltb s.plan_end t || ltb t s.plan_start)
        (λ bad. absurd (ground (arith, bad, a, b))) (λ _. rw (eq) (ap ok (ground (arith, hu, hw))))

  -- For a window in the plan of a sound planner and a request up to the total,
  -- planner_avail_during succeeds exactly where the request is free at every time of the window.
  pub planner_avail_during_iff :
      (start duration request : ℕ)
      → s.plan_start ≤ start
      → 1 ≤ duration
      → start + duration ≤ s.plan_end
      → request ≤ s.total_resources
      → (planner_avail_during start duration request s ≡ ok tt) ↔ (
          (t : ℕ)
          → start ≤ t
          → t < start + duration
          → usage t s.span_lookup + request ≤ s.total_resources)
  unfolding planner_avail_during
  planner_avail_during_iff start duration request a pos fit le =
      let small : request < two_63 = ground (arith, h.small, le) in
      let q = less64-small s.total_resources request h.small small in
      if_intro
        (λ (r : Result Unit). (r ≡ ok tt) ↔ (
          (t : ℕ)
          → start ≤ t
          → t < start + duration
          → usage t s.span_lookup + request ≤ s.total_resources))
        (ltb duration 1) (λ bad. absurd (ground (arith, bad, pos)))
        (λ _.
          if_intro
            (λ (r : Result Unit). (r ≡ ok tt) ↔ (
              (t : ℕ)
              → start ≤ t
              → t < start + duration
              → usage t s.span_lookup + request ≤ s.total_resources))
            (less64 s.total_resources request) (λ bad. absurd (ground (arith, bad, q, le)))
            (λ _. avail_during_iff start duration s h fit request a pos small))

-- After a span that fits a sound planner is added and removed again, planner_avail_resources_at
-- answers at each time of the plan what it answered before.
pub planner_rem_span-planner_add_span :
    (start duration request t : ℕ) (s : Planner)
    → IsSound s
    → Fits start duration request s
    → request < two_63
    → find (new_id s) s.span_lookup ≡ none
    → s.plan_start ≤ t
    → t ≤ s.plan_end
    → planner_avail_resources_at t
        (planner_rem_span (new_id s) (planner_add_span start duration request s).0).0
      ≡ planner_avail_resources_at t s
planner_rem_span-planner_add_span start duration request t s h fits small fresh lo hi =
    let a = (planner_add_span-Adds start duration request s h fits small fresh).1 in
    let r =
      (planner_rem_span-Removes (new_id s) (linked (new_span (new_id s) start duration request))
        (planner_add_span start duration request s).0 a.sound a.entry).1 in
    let back = (planner_rem_span (new_id s) (planner_add_span start duration request s).0).0 in
    planner_avail_resources_at-usage back r.sound t (ground (arith, r.same_start, a.same_start, lo))
      (ground (arith, r.same_end, a.same_end, hi))
    ∙ ap ok (
        ground (
          arith,
          a.uses t,
          r.uses t,
          r.same_total,
          a.same_total,
          later-plain start duration s h fits.in_plan,
        ))
    ∙ sym (planner_avail_resources_at-usage s h t lo hi)
