-- ===== src/Planner/Fits.antt =====
-- resource/planner/c/planner_c_interface.cpp: when a request is free in a whole window.
use flux_sched.Common.{
  ℕ, ◌≡◌, ◌<◌, ◌≤◌, ◌+◌, ◌↔◌, refl, Bool, true, false, if◌then◌else◌, ltb, arith,
}
use flux_sched.OrdMap.{nat_key}
use flux_sched.Planner.State.{Planner, ok, error, erange, ebusy, two_63, later}
use flux_sched.Planner.Points.{state_from}
use flux_sched.Planner.Avail.{holds, avail_during}
use flux_sched.Planner.Usage.{usage}
use flux_sched.Planner.Describes.{holds_iff}
use flux_sched.Planner.Sound.{IsSound, spans-Steady}

-- A span from `start` on that fits: its window lies in the plan, and the request is free in all of it.
pub record Fits (start duration request : ℕ) (s : Planner) : Type 0 where
  pub from_start : s.plan_start ≤ start
  pub lasting : 1 ≤ duration
  pub in_plan : start + duration ≤ s.plan_end
  pub free :
      (t : ℕ)
      → start ≤ t
      → t < start + duration
      → usage t s.span_lookup + request ≤ s.total_resources

-- The answer is yes exactly where the test holds.
answer :
    (past c : Bool) {W : Type 0}
    → past ≡ false
    → ((c ≡ true) ↔ W)
    → ((if past then error erange else if c then ok tt else error ebusy) ≡ ok tt) ↔ W
answer true c e w = absurd (ground (arith, e))
answer false true e w = (λ _. w.0 refl, λ _. refl)
answer false false e w = (λ bad. absurd (ground (arith, bad)), λ x. absurd (ground (arith, w.1 x)))

module _ (start duration : ℕ) (s : Planner) (h : IsSound s)
    (in_plan : start + duration ≤ s.plan_end) where
  pub later-plain : later start duration ≡ start + duration
  unfolding later
  later-plain = ground (arith, in_plan, h.end_small)

  pub avail_during_iff :
      (request : ℕ)
      → s.plan_start ≤ start
      → 1 ≤ duration
      → request < two_63
      → (avail_during start duration request s ≡ ok tt) ↔ (
          (t : ℕ)
          → start ≤ t
          → t < start + duration
          → usage t s.span_lookup + request ≤ s.total_resources)
  unfolding avail_during
  avail_during_iff request le pos small =
      let w =
        holds_iff s.sched_points h.points.sorted h.points.tells (spans-Steady s.span_lookup) h.small
          start (start + duration) request le small (ground (arith, pos)) in
      rw (later-plain) (
        answer (ltb s.plan_end (start + duration))
          (holds (start + duration) request (state_from start s.sched_points))
          (ground (arith, in_plan)) w)
