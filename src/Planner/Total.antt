-- ===== src/Planner/Total.antt =====
-- resource/planner/c++/planner.cpp: update_total keeps a planner sound where the new total is enough for the
-- spans.
use flux_sched.Common.{
  ℕ, ◌≡◌, ◌<◌, ◌≤◌, ◌+◌, refl, sym, subst, ap, ◌∙◌, false, [], ◌∷◌, Option, none, some, if_intro,
  ltb, ◌==◌, arith, inl, inr, Bool-cases, Option-cases,
}
use flux_sched.OrdMap.{nat_key, same, same_iff, find}
use flux_sched.OrdMap.Order.{IsSorted, Above}
use flux_sched.Planner.State.{Point, Points, Planner, two_63, less64, add64, sub64}
use flux_sched.Planner.Points.{state_from}
use flux_sched.Planner.Lifecycle.{shifted, shift_points, shift_from, update_total}
use flux_sched.Planner.Usage.{usage}
use flux_sched.Planner.View.{core_of, view_of}
use flux_sched.Planner.Describes.{view_of-some, view_of-none}
use flux_sched.Planner.Sound.{IsSound}

abbrev shifted_of : ℕ → Option Point → Option Point
shifted_of delta none = none
shifted_of delta (some p) = some (record p { remaining = shifted delta p.remaining })

find-shift_points :
    (delta k : ℕ) (m : Points) → find k (shift_points delta m) ≡ shifted_of delta (find k m)
unfolding find shift_points
find-shift_points delta k [] = refl
find-shift_points delta k ((j, p) ∷ m) = elim (Bool-cases (same j k)) [
  | inl here ↦ rw here refl
  | inr elsewhere ↦ rw elsewhere (find-shift_points delta k m)
]

Above-shift_points : (delta k : ℕ) (m : Points) → Above k m → Above k (shift_points delta m)
unfolding shift_points
Above-shift_points delta k [] a = tt
Above-shift_points delta k ((j, p) ∷ m) a = (a.0, Above-shift_points delta k m a.1)

shift_points-IsSorted : (delta : ℕ) (m : Points) → IsSorted m → IsSorted (shift_points delta m)
unfolding shift_points
shift_points-IsSorted delta [] s = tt
shift_points-IsSorted delta ((j, p) ∷ m) s =
    (Above-shift_points delta j m s.0, shift_points-IsSorted delta m s.1)

Above-find : (j k : ℕ) (p : Point) (m : Points) → Above j m → find k m ≡ some p → j < k
unfolding find
Above-find j k p [] above e = cc
Above-find j k p ((i, w) ∷ m) above e =
    ground (arith, e, above.0, same_iff i k, Above-find j k p m above.1)

Above-state_from : (at : ℕ) (m : Points) → Above at m → state_from at m ≡ []
unfolding state_from
Above-state_from at [] a = refl
Above-state_from at ((i, p) ∷ m) a = rw a.0 refl

-- The point at the start of the plan is the first, so that the loop visits all points.
shift_from-all :
    (start delta : ℕ) (m : Points) (q : Point)
    → IsSorted m
    → find start m ≡ some q
    → ((k : ℕ) (p : Point) → find k m ≡ some p → start ≤ k)
    → shift_from start delta m ≡ shift_points delta m
unfolding shift_from find
shift_from-all start delta [] q s e low = cc
shift_from-all start delta ((j, p) ∷ m) q s e low = elim (Bool-cases (same j start)) [
  | inl here ↦ at_first (ground (arith, here, same_iff j start))
  | inr later_on ↦ absurd (
      ground (
        arith,
        Above-find j start q m s.0 (ground (arith, e, later_on)),
        low j p (ground (arith, same_iff j j)),
      ))
]
  where
    not_before : j ≡ start → ltb start j ≡ false
    not_before here = ground (arith, here)

    at_first : j ≡ start → shift_from start delta ((j, p) ∷ m) ≡ shift_points delta ((j, p) ∷ m)
    at_first here =
        rw (Above-state_from start m (subst (λ (x : ℕ). Above x m) here s.0), shift_from)
          (rw (not_before here) refl)

shifted-rest :
    (n total used rest : ℕ)
    → n < two_63
    → total < two_63
    → used + rest ≡ total
    → used ≤ n
    → used + shifted (sub64 n total) rest ≡ n
unfolding add64 sub64 less64
shifted-rest n total used rest small small' whole enough =
    ground (arith, small, small', whole, enough)

module _ (n : ℕ) (s : Planner) (h : IsSound s) (small : n < two_63)
    (enough : (t : ℕ) → usage t s.span_lookup ≤ n) where
  delta : ℕ
  delta = sub64 n s.total_resources

  point_of :
      (k r c m : ℕ)
      → view_of (shift_points delta s.sched_points) k ≡ some (r, c, m)
      → (p : Point) × (find k s.sched_points ≡ some p)
        × (r ≡ p.ref_count)
        × (c ≡ p.scheduled)
        × (m ≡ shifted delta p.remaining)
  point_of k r c m e =
      by_find (find k s.sched_points) refl
        (sym (ap core_of (find-shift_points delta k s.sched_points)) ∙ e)
    where
      by_find :
          (o : Option Point)
          → find k s.sched_points ≡ o
          → core_of (shifted_of delta o) ≡ some (r, c, m)
          → (p : Point) × (find k s.sched_points ≡ some p)
            × (r ≡ p.ref_count)
            × (c ≡ p.scheduled)
            × (m ≡ shifted delta p.remaining)
      by_find none f g = absurd (ground (arith, g))
      by_find (some p) f g = (p, f, ground (arith, g), ground (arith, g), ground (arith, g))

  whole_after :
      (k r c m : ℕ) → view_of (shift_points delta s.sched_points) k ≡ some (r, c, m) → c + m ≡ n
  unfolding delta
  whole_after k r c m e =
      let (p, found, _, scheduled, remaining) = point_of k r c m e in
      let v = view_of-some k s.sched_points p found in
      let used = h.points.tells.used k p.ref_count p.scheduled p.remaining v in
      let whole = h.points.tells.whole k p.ref_count p.scheduled p.remaining v in
      let sum =
        shifted-rest n s.total_resources p.scheduled p.remaining small h.small whole
          (ground (arith, used, enough k)) in
      ap (λ (x : ℕ). x + m) scheduled ∙ ap (λ (x : ℕ). p.scheduled + x) remaining ∙ sum

  same_none :
      (k : ℕ) → view_of (shift_points delta s.sched_points) k ≡ none → find k s.sched_points ≡ none
  same_none k e =
      by_find (find k s.sched_points)
        (sym (ap core_of (find-shift_points delta k s.sched_points)) ∙ e)
    where
      by_find : (o : Option Point) → core_of (shifted_of delta o) ≡ none → o ≡ none
      by_find none g = refl
      by_find (some p) g = absurd (ground (arith, g))

  retotal : Planner
  retotal = record s { total_resources = n; sched_points = shift_points delta s.sched_points }

  retotal-IsSound : IsSound retotal
  unfolding retotal
  retotal-IsSound = record {
    small = small;
    end_small = h.end_small;
    spans_sorted = h.spans_sorted;
    spans = h.spans;
    points = record {
      sorted = shift_points-IsSorted delta s.sched_points h.points.sorted;
      tells = record {
        refs = λ k r c m e.
            let (p, found, refs, _, _) = point_of k r c m e in
            refs
            ∙ h.points.tells.refs k p.ref_count p.scheduled p.remaining
                (view_of-some k s.sched_points p found);
        used = λ k r c m e.
            let (p, found, _, scheduled, _) = point_of k r c m e in
            scheduled
            ∙ h.points.tells.used k p.ref_count p.scheduled p.remaining
                (view_of-some k s.sched_points p found);
        whole = whole_after;
        low = λ k r c m e.
            let (p, found, _, _, _) = point_of k r c m e in
            h.points.tells.low k p.ref_count p.scheduled p.remaining
              (view_of-some k s.sched_points p found);
        gone = λ k e. h.points.tells.gone k (view_of-none k s.sched_points (same_none k e));
        based = λ e.
            h.points.tells.based
              (view_of-none s.plan_start s.sched_points (same_none s.plan_start e));
      };
      kept = λ k r c m e b.
          let (p, found, refs, _, _) = point_of k r c m e in
          subst (λ (x : ℕ). 0 < x) (sym refs)
            (h.points.kept k p.ref_count p.scheduled p.remaining
              (view_of-some k s.sched_points p found) b);
    };
  }

  shift_from-plan : shift_from s.plan_start delta s.sched_points ≡ shift_points delta s.sched_points
  shift_from-plan = elim (Option-cases (find s.plan_start s.sched_points)) [
    | inl none_there ↦
        absurd (h.points.tells.based (view_of-none s.plan_start s.sched_points none_there))
    | inr (q, e) ↦
        shift_from-all s.plan_start delta s.sched_points q h.points.sorted e (λ k p found.
          h.points.tells.low k p.ref_count p.scheduled p.remaining
            (view_of-some k s.sched_points p found))
  ]

  pub update_total-IsSound : IsSound (update_total n s)
  unfolding update_total delta retotal
  update_total-IsSound =
      if_intro IsSound (sub64 n s.total_resources == 0) (λ _. h)
        (λ _.
          subst (λ (m : Points). IsSound (record s { total_resources = n; sched_points = m }))
            (sym shift_from-plan) retotal-IsSound)
