-- ===== src/Planner/Attach.antt =====
-- resource/planner/c/planner_c_interface.cpp: a point gets a reference, and is made where there is none.
use flux_sched.Common.{
  ℕ, suc, ◌≡◌, ◌≤◌, ◌+◌, refl, sym, subst, ◌∙◌, ap, Bool, true, false, ◌∷◌, Option, none, some,
  if◌then◌else◌, ◌==◌, arith, inl, inr, Option-cases,
}
use flux_sched.OrdMap.{same, same_iff, nat_key, find, add}
use flux_sched.OrdMap.Find.{find-add}
use flux_sched.OrdMap.Order.{IsSorted, add-IsSorted}
use flux_sched.Planner.State.{Point, Points, Planner}
use flux_sched.Planner.Points.{
  modify, state_from, get_state, fresh_point, mt_tree_insert, get_or_new_point,
}
use flux_sched.Planner.Spans.{touch, incr_ref}
use flux_sched.Planner.View.{
  Core, core_of, on_point, view_of, view, find-modify, modify-IsSorted, SameFrame,
  mt_tree_insert-SameView, SameFrame-trans,
}
use flux_sched.Planner.Describes.{
  Describes, Steady, base_ref, state-used, view_of-some, view_of-none,
}
use flux_sched.Planner.Steps.{Describes-set}
use flux_sched.Planner.Sound.{Tells}

abbrev pub on_core : (ℕ → ℕ) → Option Core → Option Core
on_core g none = none
on_core g (some (r, c, m)) = some (g r, c, m)

core-incr : (o : Option Point) → core_of (on_point incr_ref o) ≡ on_core suc (core_of o)
core-incr none = refl
core-incr (some p) = refl

abbrev pub one_at : ℕ → ℕ → ℕ
one_at at k = if at == k then 1 else 0

view-touch_incr :
    (at k : ℕ) (m : Points)
    → view_of (modify incr_ref at m) k
      ≡ (if same at k then on_core suc (view_of m k) else view_of m k)
view-touch_incr at k m = rw (find-modify incr_ref at k m) (go (same at k) (find k m))
  where
    go :
        (b : Bool) (o : Option Point)
        → core_of (if b then on_point incr_ref o else o)
          ≡ (if b then on_core suc (core_of o) else core_of o)
    go true o = core-incr o
    go false o = refl

-- A point at `at` that tells what is used there, now with one reference more.
referred :
    {s t : Planner} {u e : ℕ → ℕ} (at r0 c0 m0 : ℕ)
    → Tells s u e
    → SameFrame s t
    → IsSorted t.sched_points
    → ((k : ℕ) → view t k ≡ (if same at k then some (suc r0, c0, m0) else view s k))
    → s.plan_start ≤ at
    → r0 ≡ e at + base_ref s.plan_start at
    → c0 ≡ u at
    → c0 + m0 ≡ s.total_resources
    → Tells t u (λ k. e k + one_at at k)
referred {s} {t} {u} {e} at r0 c0 m0 h fr srt v le hr hc hm = record {
  sorted = srt;
  tells =
      subst (λ (a : ℕ). Describes a t.total_resources (view t) u (λ k. e k + one_at at k))
        (sym fr.same_start)
        (subst (λ (a : ℕ). Describes s.plan_start a (view t) u (λ k. e k + one_at at k))
          (sym fr.same_total)
          (Describes-set h.tells (view t) (λ k. e k + one_at at k) at (suc r0) c0 m0 v le
            (ground (arith, hr)) hc hm (λ k n. ground (arith, n))));
  kept = λ k r c m eq b. ground (arith, v k, eq, h.kept k r c m);
}

-- What get_or_new_point came back with, `r`, and the planner once the reference is counted.
pub record Attached (at : ℕ) (s : Planner) (u e : ℕ → ℕ) (r : Planner × Bool) : Type 0 where
  pub found : r.1 ≡ true
  pub frame : SameFrame s (touch incr_ref at r.0)
  pub points : Tells (touch incr_ref at r.0) u (λ k. e k + one_at at k)

pub touch-SameFrame : (f : Point → Point) (at : ℕ) (s : Planner) → SameFrame s (touch f at s)
touch-SameFrame f at s = record {
  same_spans = refl;
  same_total = refl;
  same_start = refl;
  same_end = refl;
  same_counter = refl;
}

abbrev with_point : ℕ → Point → Planner → Planner
with_point at p s = record s { sched_points = add at p s.sched_points }

with_point-SameFrame : (at : ℕ) (p : Point) (s : Planner) → SameFrame s (with_point at p s)
with_point-SameFrame at p s = record {
  same_spans = refl;
  same_total = refl;
  same_start = refl;
  same_end = refl;
  same_counter = refl;
}

get_or_new_point-old :
    (at : ℕ) (s : Planner) (p : Point)
    → find at s.sched_points ≡ some p
    → get_or_new_point at s ≡ (s, true)
unfolding get_or_new_point
get_or_new_point-old at s p eq = rw (eq, get_or_new_point) refl

get_or_new_point-new :
    (at j : ℕ) (s : Planner) (q : Point) (l : Points)
    → find at s.sched_points ≡ none
    → state_from at s.sched_points ≡ (j, q) ∷ l
    → get_or_new_point at s ≡ (mt_tree_insert at (with_point at (fresh_point q) s), true)
unfolding get_or_new_point get_state
get_or_new_point-new at j s q l eq st = rw (eq, get_or_new_point, st, get_state) refl

module _ (at : ℕ) (s : Planner) {u e : ℕ → ℕ} (h : Tells s u e) (steady : Steady u e)
    (le : s.plan_start ≤ at) where
  at_old : (p : Point) → find at s.sched_points ≡ some p → Attached at s u e (s, true)
  at_old p eq =
      let v = view_of-some at s.sched_points p eq in
      let d = h.tells in
      record {
        found = refl;
        frame = touch-SameFrame incr_ref at s;
        points =
            referred at p.ref_count p.scheduled p.remaining h (touch-SameFrame incr_ref at s)
              (modify-IsSorted incr_ref at s.sched_points h.sorted)
              (λ k. ground (arith, view-touch_incr at k s.sched_points, v, same_iff at k)) le
              (d.refs at p.ref_count p.scheduled p.remaining v)
              (d.used at p.ref_count p.scheduled p.remaining v)
              (d.whole at p.ref_count p.scheduled p.remaining v);
      }

  at_new :
      (j : ℕ) (q : Point)
      → find at s.sched_points ≡ none
      → q.scheduled ≡ u at
      → q.scheduled + q.remaining ≡ s.total_resources
      → Attached at s u e (mt_tree_insert at (with_point at (fresh_point q) s), true)
  at_new j q eq hu hw =
      let s1 = with_point at (fresh_point q) s in
      let s2 = mt_tree_insert at s1 in
      let v = mt_tree_insert-SameView at s1 in
      let d = h.tells in
      let n = view_of-none at s.sched_points eq in
      let srt = add-IsSorted at (fresh_point q) s.sched_points eq h.sorted in
      let fr =
        SameFrame-trans (with_point-SameFrame at (fresh_point q) s)
          (SameFrame-trans v.frame (touch-SameFrame incr_ref at s2)) in
      record {
        found = refl;
        frame = fr;
        points =
            referred at 0 q.scheduled q.remaining h fr
              (modify-IsSorted incr_ref at s2.sched_points (v.still_sorted srt))
              (λ k. ground (
                arith,
                view-touch_incr at k s2.sched_points,
                v.same_view k,
                view-fresh q eq k,
                same_iff at k,
              ))
              le (ground (arith, d.gone at n, d.based, n)) hu hw;
      }
    where
      view-fresh :
          (q : Point)
          → find at s.sched_points ≡ none
          → (k : ℕ)
          → view (with_point at (fresh_point q) s) k
            ≡ (if same at k then some (0, q.scheduled, q.remaining) else view s k)
      view-fresh q eq k =
          ap core_of (find-add at k (fresh_point q) s.sched_points eq)
          ∙ go (same at k) (find k s.sched_points)
        where
          go :
              (b : Bool) (o : Option Point)
              → core_of (if b then some (fresh_point q) else o)
                ≡ (if b then some (0, q.scheduled, q.remaining) else core_of o)
          go true o = refl
          go false o = refl

  pub get_or_new_point-Attached : Attached at s u e (get_or_new_point at s)
  get_or_new_point-Attached = elim (Option-cases (find at s.sched_points)) [
    | inl eq ↦
        let (j, q, l, st, c, hu, hw) = state-used h.sorted h.tells steady at le in
        subst (Attached at s u e) (sym (get_or_new_point-new at j s q l eq st))
          (at_new j q eq hu hw)
    | inr (p, eq) ↦ subst (Attached at s u e) (sym (get_or_new_point-old at s p eq)) (at_old p eq)
  ]

pub Steady-one : {u e : ℕ → ℕ} (at : ℕ) → Steady u e → Steady u (λ k. e k + one_at at k)
Steady-one at h j t le none_between = h j t le (λ k a b. ground (arith, none_between k a b))
