-- ===== src/Planner/Window.antt =====
-- resource/planner: the points in the window of a span are written together.
use flux_sched.Common.{
  ℕ, ◌≡◌, ◌<◌, ◌≤◌, ◌+◌, refl, sym, ◌∙◌, ap, Bool, true, false, ◌&&◌, Option, none, some,
  if◌then◌else◌, arith, inl, inr, is_some, Option-cases,
}
use flux_sched.OrdMap.{nat_key, find}
use flux_sched.Planner.State.{Point, Points, Planner, later}
use flux_sched.Planner.Points.{fetch_overlap_points}
use flux_sched.Planner.Walk.{mem, within, fetch_overlap_points-Distinct, mem-fetch_overlap_points}
use flux_sched.Planner.View.{
  Core, core, core_of, on_point, view_of, view, modify_all, find-modify_all, modify_all-IsSorted,
}
use flux_sched.Planner.Describes.{view_of-none}
use flux_sched.Planner.Steps.{moved, Describes-window}
use flux_sched.Planner.Sound.{TellsBut}

abbrev pub with_points : Points → Planner → Planner
with_points m s = record s { sched_points = m }

-- The write `f` changes the two quantities of a point by `fc` and `fm`.
abbrev pub Moves : (Point → Point) → (ℕ → ℕ) → (ℕ → ℕ) → Type 0
Moves f fc fm = (p : Point) → core (f p) ≡ (p.ref_count, fc p.scheduled, fm p.remaining)

module _ (f : Point → Point) (fc fm : ℕ → ℕ) (moves : Moves f fc fm) where
  moved_if :
      (b c : Bool) (o : Option Point)
      → b ≡ (is_some o && c)
      → core_of (if b then on_point f o else o) ≡ (if c then moved fc fm (core_of o) else core_of o)
  moved_if b c none h = ground arith
  moved_if b c (some p) h = rw (h) (go c)
    where
      go :
          (c : Bool)
          → core_of (if c then some (f p) else some p)
            ≡ (if c then moved fc fm (some (core p)) else some (core p))
      go true = ap some (moves p)
      go false = refl

  module _ {but : ℕ → Bool} {s : Planner} {u e : ℕ → ℕ} (h : TellsBut but s u e) (at duration : ℕ)
      (le : s.plan_start ≤ at) where
    view-window :
        (k : ℕ)
        → view_of (modify_all f (fetch_overlap_points at duration s.sched_points) s.sched_points) k
          ≡ (if within at (later at duration) k then moved fc fm (view s k) else view s k)
    view-window k = elim (Option-cases (find s.plan_start s.sched_points)) [
      | inl n ↦ absurd (h.tells.based (view_of-none s.plan_start s.sched_points n))
      | inr (q, eq) ↦
          ap core_of (
            find-modify_all f (fetch_overlap_points at duration s.sched_points) k s.sched_points
              (fetch_overlap_points-Distinct at duration s.sched_points h.sorted))
          ∙ moved_if (mem k (fetch_overlap_points at duration s.sched_points))
              (within at (later at duration) k) (find k s.sched_points)
              (mem-fetch_overlap_points at duration s.sched_points h.sorted s.plan_start k q eq le)
    ]

    pub window-Tells :
        (u' : ℕ → ℕ)
        → ((k c m : ℕ)
            → within at (later at duration) k ≡ true
            → c ≡ u k
            → c + m ≡ s.total_resources
            → (fc c ≡ u' k) × (fc c + fm m ≡ s.total_resources))
        → ((k : ℕ) → within at (later at duration) k ≡ false → u' k ≡ u k)
        → TellsBut but
            (with_points
              (modify_all f (fetch_overlap_points at duration s.sched_points) s.sched_points)
              s)
            u'
            e
    window-Tells u' hu ho = record {
      sorted =
          modify_all-IsSorted f (fetch_overlap_points at duration s.sched_points) s.sched_points
            h.sorted;
      tells =
          Describes-window h.tells
            (view_of
              (modify_all f (fetch_overlap_points at duration s.sched_points) s.sched_points))
            u' at (later at duration) fc fm view-window hu ho;
      kept = λ k r c m eq b.
          kept-moved (within at (later at duration) k) (view s k) (sym (view-window k) ∙ eq)
            (λ r' c' m' old. h.kept k r' c' m' old b);
    }
      where
        kept-moved :
            (b : Bool) (o : Option Core) {r c m : ℕ}
            → (if b then moved fc fm o else o) ≡ some (r, c, m)
            → ((r c m : ℕ) → o ≡ some (r, c, m) → 0 < r)
            → 0 < r
        kept-moved b none eq old = ground (arith, eq)
        kept-moved b (some (r0, c0, m0)) eq old = ground (arith, eq, old r0 c0 m0 refl)
