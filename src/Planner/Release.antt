-- ===== src/Planner/Release.antt =====
-- resource/planner/c/planner_c_interface.cpp: a point loses a reference, and goes with the last one.
use flux_sched.Common.{
  ℕ, ◌≡◌, ◌<◌, ◌+◌, ◌-◌, refl, ◌∙◌, ap, Bool, true, false, not, ◌&&◌, ◌||◌, Option, none, some,
  if◌then◌else◌, if_intro, ltb, ◌==◌, arith, inl, inr, Option-cases,
}
use flux_sched.OrdMap.{nat_key, find, erase, same, same_iff}
use flux_sched.OrdMap.Find.{find-erase}
use flux_sched.OrdMap.Order.{erase-IsSorted}
use flux_sched.Planner.State.{Point, Points, Planner}
use flux_sched.Planner.Points.{modify, mt_tree_remove}
use flux_sched.Planner.Spans.{touch, decr_ref, drop_point}
use flux_sched.Planner.View.{
  core_of, on_point, view_of, view, SameFrame, SameView, SameFrame-refl, SameFrame-trans,
  SameView-refl, find-modify, modify-IsSorted, mt_tree_remove-SameView,
}
use flux_sched.Planner.Describes.{view_of-some, view_of-none}
use flux_sched.Planner.Steps.{Describes-set, Describes-erase}
use flux_sched.Planner.Sound.{TellsBut, Tells-frame}
use flux_sched.Planner.Attach.{on_core, one_at}

core-decr : (o : Option Point) → core_of (on_point decr_ref o) ≡ on_core (λ r. r - 1) (core_of o)
core-decr none = refl
core-decr (some p) = refl

view-touch_decr :
    (at k : ℕ) (m : Points)
    → view_of (modify decr_ref at m) k
      ≡ (if same at k then on_core (λ r. r - 1) (view_of m k) else view_of m k)
view-touch_decr at k m = rw (find-modify decr_ref at k m) (go (same at k) (find k m))
  where
    go :
        (b : Bool) (o : Option Point)
        → core_of (if b then on_point decr_ref o else o)
          ≡ (if b then on_core (λ r. r - 1) (core_of o) else core_of o)
    go true o = core-decr o
    go false o = refl

-- The point that one of the ends counted by `e` stands at loses its reference.
pub decr_ref-TellsBut :
    {but : ℕ → Bool} {s : Planner} {u e : ℕ → ℕ} (at : ℕ)
    → TellsBut but s u (λ k. e k + one_at at k)
    → TellsBut (λ k. but k || (at == k)) (touch decr_ref at s) u e
decr_ref-TellsBut {but} {s} {u} {e} at h = elim (Option-cases (view s at)) [
  | inl n ↦ absurd (ground (arith, h.tells.gone at n))
  | inr ((r0, c0, m0), v) ↦
      let d = h.tells in
      record {
        sorted = modify-IsSorted decr_ref at s.sched_points h.sorted;
        tells =
            Describes-set d (view (touch decr_ref at s)) e at (r0 - 1) c0 m0
              (λ k. ground (arith, view-touch_decr at k s.sched_points, v, same_iff at k))
              (d.low at r0 c0 m0 v) (ground (arith, d.refs at r0 c0 m0 v)) (d.used at r0 c0 m0 v)
              (d.whole at r0 c0 m0 v) (λ k n. ground (arith, n));
        kept = λ k r c m eq b.
            ground
              (arith, view-touch_decr at k s.sched_points, eq, b, h.kept k r c m, same_iff at k);
      }
]

-- The times other than `at`.
abbrev pub but_for : (ℕ → Bool) → ℕ → ℕ → Bool
but_for but at k = but k && not (at == k)

module _ {but : ℕ → Bool} {s : Planner} {u e : ℕ → ℕ} (at : ℕ) (h : TellsBut but s u e) where
  drop_none : find at s.sched_points ≡ none → TellsBut (but_for but at) s u e
  drop_none eq = record {
    sorted = h.sorted;
    tells = h.tells;
    kept = λ k r c m v b. ground (arith, h.kept k r c m v, view_of-none at s.sched_points eq, v, b);
  }

  drop_held :
      (p : Point)
      → find at s.sched_points ≡ some p
      → 0 < p.ref_count
      → TellsBut (but_for but at) s u e
  drop_held p eq pos = record {
    sorted = h.sorted;
    tells = h.tells;
    kept = λ k r c m v b.
        ground (arith, h.kept k r c m v, view_of-some at s.sched_points p eq, v, b, pos);
  }

  view-erase :
      (k : ℕ) → view_of (erase at s.sched_points) k ≡ (if same at k then none else view s k)
  view-erase k = rw (find-erase at k s.sched_points) (go (same at k) (find k s.sched_points))
    where
      go :
          (b : Bool) (o : Option Point)
          → core_of (if b then none else o) ≡ (if b then none else core_of o)
      go true o = refl
      go false o = refl

  drop_free :
      (c0 m0 : ℕ)
      → view s at ≡ some (0, c0, m0)
      → TellsBut (but_for but at) (record s { sched_points = erase at s.sched_points }) u e
  drop_free c0 m0 v0 = record {
    sorted = erase-IsSorted at s.sched_points h.sorted;
    tells =
        Describes-erase h.tells (view_of (erase at s.sched_points)) at c0 m0 (λ k. view-erase k) v0;
    kept = λ k r c m v b. ground (arith, h.kept k r c m, view-erase k, v, b, same_iff at k);
  }

taken_out :
    (at : ℕ) (p : Point) (s : Planner)
    → SameView s (if p.in_mt_resource_tree then mt_tree_remove at s else s)
taken_out at p s =
    if_intro (SameView s) p.in_mt_resource_tree (λ _. mt_tree_remove-SameView at s)
      (λ _. SameView-refl s)

erased-SameFrame :
    (at : ℕ) (s : Planner) → SameFrame s (record s { sched_points = erase at s.sched_points })
erased-SameFrame at s = record {
  same_spans = refl;
  same_total = refl;
  same_start = refl;
  same_end = refl;
  same_counter = refl;
}

-- The point at `at` is dropped where nothing refers to it.
pub drop_point-TellsBut :
    {but : ℕ → Bool} {s : Planner} {u e : ℕ → ℕ} (at : ℕ)
    → TellsBut but s u e
    → TellsBut (but_for but at) (drop_point at s) u e × SameFrame s (drop_point at s)
unfolding drop_point
drop_point-TellsBut {but} {s} {u} {e} at h = elim (Option-cases (find at s.sched_points)) [
  | inl eq ↦ rw (eq, drop_point) (drop_none at h eq, SameFrame-refl s)
  | inr (p, eq) ↦
      rw (eq, drop_point)
        (if_intro (λ (t : Planner). TellsBut (but_for but at) t u e × SameFrame s t)
          (ltb 0 p.ref_count) (λ pos. (drop_held at h p eq (ground (arith, pos)), SameFrame-refl s))
          (λ zero_refs.
            let v = taken_out at p s in
            (
              drop_free at (Tells-frame v h) p.scheduled p.remaining (
                  v.same_view at
                  ∙ view_of-some at s.sched_points p eq
                  ∙ ap (λ r. some (r, p.scheduled, p.remaining)) (ground (arith, zero_refs))),
              SameFrame-trans v.frame
                  (erased-SameFrame at (if p.in_mt_resource_tree then mt_tree_remove at s else s)),
            )))
]
