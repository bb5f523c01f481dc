-- ===== src/Planner/Adding.antt =====
-- resource/planner/c/planner_c_interface.cpp: every outcome of planner_add_span, and the queries against the
-- sum over the spans.
use flux_sched.Common.{
  ℕ, ◌≡◌, ◌≢◌, ◌<◌, ◌≤◌, ◌+◌, ◌%◌, ◌⊎◌, refl, sym, subst, ◌∙◌, ap, true, false, ◌||◌, none, some,
  if◌then◌else◌, if_intro, ltb, arith, inl, inr, Option-cases, Bool-cases,
}
use flux_sched.OrdMap.{nat_key, find, same_refl, same_ne}
use flux_sched.Planner.State.{
  Errno, Planner, Span, Result, ok, error, einval, erange, ebusy, eexist, two_63, two_64, later,
  less64,
}
use flux_sched.Planner.Points.{state_from}
use flux_sched.Planner.Avail.{holds, avail_during}
use flux_sched.Planner.Spans.{new_span, not_feasible, span_input_check, span_new, planner_add_span}
use flux_sched.Planner.Walk.{within}
use flux_sched.Planner.Usage.{use_of, usage}
use flux_sched.Planner.Describes.{holds_iff}
use flux_sched.Planner.Sound.{IsSound, spans-Steady}
use flux_sched.Planner.Fits.{Fits, later-plain}
use flux_sched.Planner.Entering.{linked}
use flux_sched.Planner.AddSpan.{
  after-IsSound, after-sum, after-find, fits-enter, fits-avail, fits-check, after-SameBounds,
}

-- The id that the next span gets.
abbrev pub new_id : Planner → ℕ
new_id s = (s.span_counter + 1) % two_64

-- The planner `t` has one span more, `id`, which uses the request in its window.
pub record Adds (id start duration request : ℕ) (s t : Planner) : Type 0 where
  pub sound : IsSound t
  pub uses :
      (t' : ℕ)
      → usage t' t.span_lookup
        ≡ usage t' s.span_lookup + (if within start (start + duration) t' then request else 0)
  pub same_total : t.total_resources ≡ s.total_resources
  pub same_start : t.plan_start ≡ s.plan_start
  pub same_end : t.plan_end ≡ s.plan_end
  pub entry : find id t.span_lookup ≡ some (linked (new_span id start duration request))
  pub others : (j : ℕ) → id ≢ j → find j t.span_lookup ≡ find j s.span_lookup

-- Where a sound planner's plan holds the window of a span, its request is free at every time of
-- the window, and the id that is next is unused, planner_add_span returns that id, and
-- afterwards the planner is sound, the sum over its spans is more by the request at the times
-- of the window and the same at all others, the new span is found under its id, and every other
-- id is found as before.
pub planner_add_span-Adds :
    (start duration request : ℕ) (s : Planner)
    → IsSound s
    → Fits start duration request s
    → request < two_63
    → find (new_id s) s.span_lookup ≡ none
    → ((planner_add_span start duration request s).1 ≡ ok (new_id s))
      × Adds (new_id s) start duration request s (planner_add_span start duration request s).0
planner_add_span-Adds start duration request s h fits plain fresh =
    let eq = fits-enter start duration request s h fits plain fresh in
    (
      ap (λ (r : Planner × Result ℕ). r.1) eq,
      subst (λ (r : Planner × Result ℕ). Adds (new_id s) start duration request s r.0) (sym eq)
          (record {
            sound = after-IsSound start duration request s h fits plain fresh;
            uses = λ t. ground (
              arith,
              after-sum start duration request s h fits plain fresh (use_of t) refl,
              later-plain start duration s h fits.in_plan,
            );
            same_total = (after-SameBounds start duration request s h fits plain).0;
            same_start = (after-SameBounds start duration request s h fits plain).1;
            same_end = (after-SameBounds start duration request s h fits plain).2;
            entry =
                after-find start duration request s h fits plain fresh (new_id s)
                ∙ rw (same_refl (new_id s)) refl;
            others = λ j n.
                after-find start duration request s h fits plain fresh j
                ∙ rw (same_ne (new_id s) j n) refl;
          }),
    )

module _ (start duration request : ℕ) (s : Planner) where
  refused_avail :
      (e : Errno)
      → avail_during start duration request s ≡ error e
      → planner_add_span start duration request s ≡ (s, error einval)
  unfolding planner_add_span
  refused_avail e h = rw (h, planner_add_span) refl

  refused_new :
      (t : Planner) (e : Errno)
      → avail_during start duration request s ≡ ok tt
      → span_new start duration request s ≡ (t, error e)
      → planner_add_span start duration request s ≡ (t, error e)
  unfolding planner_add_span
  refused_new t e h k =
      rw (h, planner_add_span, k) (ap (λ (r : Planner × Result ℕ). (r.0, error e)) k)

  refused_check :
      (e : Errno)
      → avail_during start duration request s ≡ ok tt
      → span_input_check start duration request s ≡ error e
      → planner_add_span start duration request s ≡ (s, error e)
  unfolding span_new
  refused_check e h k = refused_new s e h (rw (k, span_new) refl)

  avail_during-error :
      holds (later start duration) request (state_from start s.sched_points) ≡ false
      → (e : Errno) × (avail_during start duration request s ≡ error e)
  unfolding avail_during
  avail_during-error h =
      if_intro (λ (r : Result Unit). (e : Errno) × (r ≡ error e))
        (ltb s.plan_end (later start duration)) (λ _. (erange, refl)) (λ _. rw (h) (ebusy, refl))

  avail_during-past :
      ltb s.plan_end (later start duration) ≡ true
      → avail_during start duration request s ≡ error erange
  unfolding avail_during
  avail_during-past h = rw (h) refl

  avail_during-holds :
      ltb s.plan_end (later start duration) ≡ false
      → holds (later start duration) request (state_from start s.sched_points) ≡ true
      → avail_during start duration request s ≡ ok tt
  unfolding avail_during
  avail_during-holds h k = rw (h, k) refl

  check-infeasible :
      not_feasible start duration s ≡ true
      → span_input_check start duration request s ≡ error einval
  unfolding span_input_check
  check-infeasible h = rw (h) refl

  check-out_of_range :
      not_feasible start duration s ≡ false
      → (less64 s.total_resources request || less64 request 0) ≡ true
      → span_input_check start duration request s ≡ error erange
  unfolding span_input_check
  check-out_of_range h k = rw (h, k) refl

  module _ (h : IsSound s) (plain : start + duration < two_64) (bits : request < two_64) where
    not_negative : (less64 s.total_resources request || less64 request 0) ≡ false → request < two_63
    unfolding less64
    not_negative k = ground (arith, k, bits)

    verdict-feasible :
        ltb s.plan_end (later start duration) ≡ false
        → holds (later start duration) request (state_from start s.sched_points) ≡ true
        → not_feasible start duration s ≡ false
        → request < two_63
        → Fits start duration request s
    unfolding not_feasible later
    verdict-feasible past held feasible small =
        let le : s.plan_start ≤ start = ground (arith, feasible) in
        let pos : 1 ≤ duration = ground (arith, feasible) in
        let fit : start + duration ≤ s.plan_end = ground (arith, past, plain) in
        let p = later-plain start duration s h fit in
        record {
          from_start = le;
          lasting = pos;
          in_plan = fit;
          free =
              (holds_iff s.sched_points h.points.sorted h.points.tells (spans-Steady s.span_lookup)
                  h.small start (start + duration) request le small (ground (arith, pos))).0
                (subst (λ (b : ℕ). holds b request (state_from start s.sched_points) ≡ true) p
                  held);
        }

    pub verdict :
        ((request < two_63) × Fits start duration request s)
        ⊎ ((e : Errno) × (planner_add_span start duration request s ≡ (s, error e)))
    verdict = elim (Bool-cases (ltb s.plan_end (later start duration))) [
      | inl past ↦ inr (einval, refused_avail erange (avail_during-past past))
      | inr past ↦
          elim (Bool-cases
            (holds (later start duration) request (state_from start s.sched_points))) [
              | inr busy ↦ let (e, eq) = avail_during-error busy in inr (einval, refused_avail e eq)
              | inl held ↦
                  let free = avail_during-holds past held in
                  elim (Bool-cases (not_feasible start duration s)) [
                    | inl bad ↦ inr (einval, refused_check einval free (check-infeasible bad))
                    | inr feasible ↦
                        elim (Bool-cases (less64 s.total_resources request || less64 request 0)) [
                          | inl out ↦
                              inr (
                                erange,
                                refused_check erange free (check-out_of_range feasible out),
                              )
                          | inr inside ↦ inl (
                            not_negative inside,
                            verdict-feasible past held feasible (not_negative inside),
                          )
                        ]
                  ]
            ]
    ]

    -- Where a span does not fit a sound planner, because its window is empty or not in the plan or
    -- its request is not free at some time of it, planner_add_span fails and changes nothing; the
    -- end of the window is representable.
    pub planner_add_span-refused :
        ¬ Fits start duration request s
        → (e : Errno) × (planner_add_span start duration request s ≡ (s, error e))
    planner_add_span-refused n = elim verdict [ inl (_, f) ↦ absurd (n f) | inr r ↦ r ]

    taken :
        (old : Span)
        → request < two_63
        → Fits start duration request s
        → find (new_id s) s.span_lookup ≡ some old
        → planner_add_span start duration request s
          ≡ (record s { span_counter = new_id s }, error eexist)
    unfolding span_new
    taken old small f eq =
        refused_new (record s { span_counter = new_id s }) eexist
          (fits-avail start duration request s h f small)
          (rw (fits-check start duration request s h f small, span_new, eq) refl)

    -- Planner_add_span keeps a planner sound, whatever it returns, where the end of the window is
    -- representable: every scheduled point has what the spans use at its time and the rest of the
    -- total, and one reference for each end of a span at it.
    pub planner_add_span-IsSound : IsSound (planner_add_span start duration request s).0
    planner_add_span-IsSound = elim verdict [
      | inr (e, eq) ↦ subst (λ (r : Planner × Result ℕ). IsSound r.0) (sym eq) h
      | inl (small, f) ↦ elim (Option-cases (find (new_id s) s.span_lookup)) [
        | inl fresh ↦ (planner_add_span-Adds start duration request s h f small fresh).1.sound
        | inr (old, eq) ↦
            subst (λ (r : Planner × Result ℕ). IsSound r.0) (sym (taken old small f eq))
              (record {
                small = h.small;
                end_small = h.end_small;
                spans_sorted = h.spans_sorted;
                spans = h.spans;
                points = record {
                  sorted = h.points.sorted;
                  tells = h.points.tells;
                  kept = h.points.kept;
                };
              })
      ]
    ]
