-- ===== src/Planner/Sound.antt =====
-- resource/planner: the invariant of a planner, and how a point gets a reference.
use flux_sched.Common.{ℕ, ◌≡◌, ◌<◌, ◌≤◌, refl, sym, subst, ◌∙◌, ap, Bool, true, false, some, arith}
use flux_sched.OrdMap.{OrdMap, nat_key, find}
use flux_sched.OrdMap.Order.{IsSorted}
use flux_sched.Planner.State.{Planner, Span, two_63, two_64}
use flux_sched.Planner.Usage.{usage, ends, usage-steady}
use flux_sched.Planner.View.{view, SameView}
use flux_sched.Planner.Describes.{Describes, Steady}
use flux_sched.Planner.Steps.{Describes-ext}

-- The points of a planner tell `u` and `e`, and each is referred to, but for those at the times `but`.
pub record TellsBut (but : ℕ → Bool) (s : Planner) (u e : ℕ → ℕ) : Type 0 where
  pub sorted : IsSorted s.sched_points
  pub tells : Describes s.plan_start s.total_resources (view s) u e
  pub kept : (k r c m : ℕ) → view s k ≡ some (r, c, m) → but k ≡ false → 0 < r

abbrev pub never : ℕ → Bool
never _ = false

abbrev pub Tells : Planner → (ℕ → ℕ) → (ℕ → ℕ) → Type 0
Tells = TellsBut never

pub record IsSpan (start end : ℕ) (span : Span) : Type 0 where
  pub starts : start ≤ span.start
  pub lasts : span.start < span.last
  pub ends_by : span.last ≤ end
  pub at_start : span.start_p ≡ some span.start
  pub at_last : span.last_p ≡ some span.last
  pub active : span.in_system ≡ true

-- The points tell the sums over the spans.
pub record IsSound (s : Planner) : Type 0 where
  pub small : s.total_resources < two_63
  pub end_small : s.plan_end < two_64
  pub spans_sorted : IsSorted s.span_lookup
  pub spans :
      (id : ℕ) (span : Span)
      → find id s.span_lookup ≡ some span
      → IsSpan s.plan_start s.plan_end span
  pub points : Tells s (λ t. usage t s.span_lookup) (λ k. ends k s.span_lookup)

pub spans-Steady : (m : OrdMap ℕ Span) → Steady (λ t. usage t m) (λ k. ends k m)
spans-Steady m j t le h = usage-steady j t m le h

-- The planners agree on what the points are told of.
pub Tells-frame :
    {but : ℕ → Bool} {s t : Planner} {u e : ℕ → ℕ}
    → SameView s t
    → TellsBut but s u e
    → TellsBut but t u e
Tells-frame {but} {s} {t} {u} {e} v h = record {
  sorted = v.still_sorted h.sorted;
  tells =
      subst (λ (a : ℕ). Describes a t.total_resources (view t) u e) (sym v.frame.same_start)
        (subst (λ (a : ℕ). Describes s.plan_start a (view t) u e) (sym v.frame.same_total)
          (Describes-ext h.tells (view t) u e v.same_view (λ k. refl) (λ k. refl)));
  kept = λ k r c m eq b. h.kept k r c m (sym (v.same_view k) ∙ eq) b;
}

-- A planner with the bounds of a sound one.
pub IsSound-intro :
    {s t : Planner} {u e : ℕ → ℕ}
    → IsSound s
    → t.total_resources ≡ s.total_resources
    → t.plan_start ≡ s.plan_start
    → t.plan_end ≡ s.plan_end
    → IsSorted t.span_lookup
    → ((id : ℕ) (span : Span)
        → find id t.span_lookup ≡ some span
        → IsSpan s.plan_start s.plan_end span)
    → Tells t u e
    → ((k : ℕ) → usage k t.span_lookup ≡ u k)
    → ((k : ℕ) → ends k t.span_lookup ≡ e k)
    → IsSound t
IsSound-intro {s} {t} h total start end srt spans p hu he = record {
  small = ground (arith, h.small, total);
  end_small = ground (arith, h.end_small, end);
  spans_sorted = srt;
  spans = λ id span eq.
      subst (λ (a : ℕ). IsSpan a t.plan_end span) (sym start)
        (subst (λ (a : ℕ). IsSpan s.plan_start a span) (sym end) (spans id span eq));
  points = record {
    sorted = p.sorted;
    tells =
        Describes-ext p.tells (view t) (λ k. usage k t.span_lookup) (λ k. ends k t.span_lookup)
          (λ k. refl) hu he;
    kept = p.kept;
  };
}

pub IsSound-SameView : {s t : Planner} → SameView s t → IsSound s → IsSound t
IsSound-SameView v h =
    IsSound-intro h v.frame.same_total v.frame.same_start v.frame.same_end
      (subst (λ (m : OrdMap ℕ Span). IsSorted m) (sym v.frame.same_spans) h.spans_sorted)
      (λ j span eq. h.spans j span (sym (ap (find j) v.frame.same_spans) ∙ eq))
      (Tells-frame v h.points) (λ k. ap (usage k) v.frame.same_spans)
      (λ k. ap (ends k) v.frame.same_spans)
