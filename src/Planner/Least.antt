-- ===== src/Planner/Least.antt =====
-- resource/planner/c/planner_c_interface.cpp: avail_resources_during is the least quantity free in the window.
use flux_sched.Common.{
  ℕ, ◌≡◌, ◌<◌, ◌≤◌, ◌+◌, ◌-◌, ◌⊎◌, refl, sym, ◌∙◌, ap, ◌||◌, [], ◌∷◌, some, if◌then◌else◌, if_intro,
  ltb, leb, arith, inl, inr, Bool-cases,
}
use flux_sched.OrdMap.{nat_key, find, same_iff}
use flux_sched.OrdMap.Order.{IsSorted}
use flux_sched.Planner.State.{Point, Points, Planner, ok, two_63, less64}
use flux_sched.Planner.Avail.{least, avail_resources_during, planner_avail_resources_during}
use flux_sched.Planner.Walk.{Cut, find-walk, Cut-mono, find-Above_lt, find-skip}
use flux_sched.Planner.Usage.{usage}
use flux_sched.Planner.Describes.{state-used, less64-small, view_of-some}
use flux_sched.Planner.Sound.{IsSound, spans-Steady}
use flux_sched.Planner.Fits.{later-plain}

-- `x` is the least of `min` and of the quantities of the points before `until`.
pub record IsLeast (until min : ℕ) (l : Points) (x : ℕ) : Type 0 where
  pub le_min : x ≤ min
  pub le_all : (k : ℕ) (p : Point) → find k l ≡ some p → k < until → x ≤ p.remaining
  pub reached :
      (x ≡ min) ⊎ ((k : ℕ) × (p : Point) × (find k l ≡ some p) × (k < until) × (x ≡ p.remaining))

abbrev Plain : Points → Type 0
Plain [] = Unit
Plain ((_, p) ∷ m) = (p.remaining < two_63) × Plain m

least-IsLeast :
    (until min : ℕ) (l : Points)
    → IsSorted l
    → Plain l
    → min < two_63
    → IsLeast until min l (least until min l)
unfolding least find
least-IsLeast until min [] s pl small = record {
  le_min = ground arith;
  le_all = λ k p e b. cc;
  reached = inl refl;
}
least-IsLeast until min ((j, q) ∷ l) s pl small =
    if_intro (IsLeast until min ((j, q) ∷ l)) (leb until j)
      (λ past. record {
        le_min = ground arith;
        le_all =
            λ k p e b. absurd (ground (arith, past, e, b, same_iff j k, find-Above_lt k j l p s.0));
        reached = inl refl;
      })
      (λ inside.
        let c = less64-small q.remaining min pl.0 small in
        let min2 = if less64 q.remaining min then q.remaining else min in
        let r = least-IsLeast until min2 l s.1 pl.1 (ground (arith, c, pl.0, small)) in
        record {
          le_min = ground (arith, r.le_min, c);
          le_all = λ k p e b. ground (arith, r.le_all k p, r.le_min, c, e, b, same_iff j k);
          reached = elim r.reached [
            | inl e ↦ elim (Bool-cases (less64 q.remaining min)) [
              | inl lower ↦ inr (
                j,
                q,
                ground (arith, same_iff j j),
                ground (arith, inside),
                ground (arith, e, lower),
              )
              | inr kept ↦ inl (ground (arith, e, kept))
            ]
            | inr (k, p, e, b, x) ↦
                inr (k, p, find-skip k j q l (find-Above_lt k j l p s.0 e) ∙ e, b, x)
          ];
        })

Plain-of :
    (l : Points)
    → IsSorted l
    → ((k : ℕ) (p : Point) → find k l ≡ some p → p.remaining < two_63)
    → Plain l
unfolding find
Plain-of [] s h = tt
Plain-of ((j, q) ∷ l) s h = (
  h j q (ground (arith, same_iff j j)),
  Plain-of l s.1 (λ k p e. h k p (find-skip k j q l (find-Above_lt k j l p s.0 e) ∙ e)),
)

-- A quantity that is free in all of the window, and no more at one of its times.
pub record IsFree (at until x : ℕ) (s : Planner) : Type 0 where
  pub always : (t : ℕ) → at ≤ t → t < until → x ≤ s.total_resources - usage t s.span_lookup
  pub once : (t : ℕ) × (at ≤ t) × (t < until) × (x ≡ s.total_resources - usage t s.span_lookup)

module _ (at until : ℕ) (s : Planner) (h : IsSound s) (le : s.plan_start ≤ at)
    (lt : at < until) where
  abbrev u : ℕ → ℕ
  u t = usage t s.span_lookup

  module _ (j : ℕ) (p : Point) (l : Points) (c : Cut at s.sched_points j p l)
      (hu : p.scheduled ≡ u at) where
    -- A point of the walk has what is free at a time from `at` on.
    walked :
        (k : ℕ) (q : Point)
        → find k ((j, p) ∷ l) ≡ some q
        → (t : ℕ) × (at ≤ t) × ((t ≡ at) ⊎ (t ≡ k)) × (q.remaining ≡ s.total_resources - u t)
    unfolding find
    walked k q e =
        let place : (k ≡ j) ⊎ (at < k) =
          ground (arith, same_iff j k, e, find-Above_lt k at l q c.gap) in
        let found =
          sym (find-walk at s.sched_points j p l c k (ground (arith, place, c.not_after))) ∙ e in
        let v = view_of-some k s.sched_points q found in
        let w = h.points.tells.whole k q.ref_count q.scheduled q.remaining v in
        let d = h.points.tells.used k q.ref_count q.scheduled q.remaining v in
        elim place [
          | inl same_key ↦
              (at, ground arith, inl refl, ground (arith, w, hu, e, same_iff j k, same_key))
          | inr later_key ↦ (k, ground (arith, later_key), inr refl, ground (arith, w, d))
        ]

    least-IsFree : IsFree at until (least until p.remaining ((j, p) ∷ l)) s
    least-IsFree =
        let x = least-IsLeast until p.remaining ((j, p) ∷ l) c.sorted walk-Plain (head-plain) in
        record {
          always = λ t a b.
              let (i, q, r, _, c2, hu2, hw2) =
                state-used h.points.sorted h.points.tells (spans-Steady s.span_lookup) t
                  (ground (arith, le, a)) in
              ground (
                arith,
                x.le_all i q (
                    find-walk at s.sched_points j p l c i
                      (Cut-mono at t s.sched_points j i p q l r c c2 a)
                    ∙ c2.here),
                c2.not_after,
                b,
                hu2,
                hw2,
              );
          once = elim x.reached [
            | inl e ↦ (at, ground arith, lt, ground (arith, e, hu, head-whole))
            | inr (k, q, found, b, e) ↦
                let (t, a, place, w) = walked k q found in
                (t, a, ground (arith, place, lt, b), e ∙ w)
          ];
        }
      where
        head-whole : p.scheduled + p.remaining ≡ s.total_resources
        head-whole =
            h.points.tells.whole j p.ref_count p.scheduled p.remaining
              (view_of-some j s.sched_points p c.here)

        head-plain : p.remaining < two_63
        head-plain = ground (arith, head-whole, h.small)

        walk-Plain : Plain ((j, p) ∷ l)
        walk-Plain =
            Plain-of ((j, p) ∷ l) c.sorted
              (λ k q e. let (t, _, _, w) = walked k q e in ground (arith, w, h.small))

-- For a window in the plan of a sound planner, planner_avail_resources_during returns a
-- quantity that is free at every time of the window, and no more is free at one of them.
pub planner_avail_resources_during-IsFree :
    (at duration : ℕ) (s : Planner)
    → IsSound s
    → s.plan_start ≤ at
    → 1 ≤ duration
    → at + duration ≤ s.plan_end
    → (x : ℕ) × (planner_avail_resources_during at duration s ≡ ok x)
      × IsFree at (at + duration) x s
unfolding planner_avail_resources_during avail_resources_during
planner_avail_resources_during-IsFree at duration s h le pos fit =
    let (j, p, l, eq, c, hu, _) =
      state-used h.points.sorted h.points.tells (spans-Steady s.span_lookup) at le in
    let x = least (at + duration) p.remaining ((j, p) ∷ l) in
    (
      x,
      if_intro (λ r. r ≡ ok x) (ltb s.plan_end at || ltb duration 1)
          (λ bad. absurd (ground (arith, bad, pos, fit)))
          (λ _. rw (later-plain at duration s h fit) (
            if_intro (λ r. r ≡ ok x) (ltb s.plan_end (at + duration))
              (λ bad. absurd (ground (arith, bad, fit)))
              (λ _. rw (eq) (
                ap (λ b. ok (least b p.remaining ((j, p) ∷ l)))
                  (later-plain at duration s h fit))))),
      least-IsFree at (at + duration) s h le (ground (arith, pos)) j p l c hu,
    )
