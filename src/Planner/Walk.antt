-- ===== src/Planner/Walk.antt =====
-- resource/planner/c++/scheduled_point_tree.cpp: what the walk from a state on passes.
use flux_sched.Common.{
  ℕ, ◌≡◌, ◌<◌, ◌≤◌, refl, ◌∙◌, Bool, true, false, ◌&&◌, List, [], ◌∷◌, none, some, if◌then◌else◌,
  if_intro, ltb, leb, ◌==◌, arith, is_some,
}
use flux_sched.OrdMap.{same_iff, same_ne, nat_key, find}
use flux_sched.OrdMap.Order.{Above, IsSorted, Above-trans, find-Above}
use flux_sched.Planner.State.{Point, Points, later}
use flux_sched.Planner.Points.{or_else_all, state_from, overlap, fetch_overlap_points}

-- `(j, p)` is the latest point that is not after `at`, and `l` the points after it.
pub record Cut (at : ℕ) (m : Points) (j : ℕ) (p : Point) (l : Points) : Type 0 where
  pub here : find j m ≡ some p
  pub not_after : j ≤ at
  pub gap : Above at l
  pub sorted : Above j l × IsSorted l
  pub rest : (k : ℕ) → j < k → find k m ≡ find k l

abbrev pub CutOf : ℕ → Points → Points → Type 0
CutOf at m [] = Above at m
CutOf at m ((j, p) ∷ l) = Cut at m j p l

pub find-Above_lt : (k a : ℕ) (m : Points) (p : Point) → Above a m → find k m ≡ some p → a < k
unfolding find
find-Above_lt k a [] p s e = cc
find-Above_lt k a ((j, q) ∷ m) p s e = ground (arith, same_iff j k, find-Above_lt k a m p s.1)

pub find-skip : (k j : ℕ) (q : Point) (m : Points) → j < k → find k ((j, q) ∷ m) ≡ find k m
unfolding find
find-skip k j q m h = rw (same_ne j k (ground arith)) refl

extend :
    (at i : ℕ) (q : Point) (m l : Points)
    → i ≤ at
    → Above i m × IsSorted m
    → CutOf at m l
    → CutOf at ((i, q) ∷ m) (or_else_all l ((i, q) ∷ m))
unfolding find
extend at i q m [] le s c = record {
  here = ground (arith, same_iff i i);
  not_after = le;
  gap = c;
  sorted = s;
  rest = λ k h. find-skip k i q m h;
}
extend at i q m ((j, p) ∷ l) le s c = record {
  here = find-skip j i q m (find-Above_lt j i m p s.0 c.here) ∙ c.here;
  not_after = c.not_after;
  gap = c.gap;
  sorted = c.sorted;
  rest =
      λ k h. find-skip k i q m (ground (arith, find-Above_lt j i m p s.0 c.here, h)) ∙ c.rest k h;
}

pub state_from-CutOf : (at : ℕ) (m : Points) → IsSorted m → CutOf at m (state_from at m)
unfolding state_from
state_from-CutOf at [] s = tt
state_from-CutOf at ((i, q) ∷ m) s =
    if_intro (CutOf at ((i, q) ∷ m)) (ltb at i) (λ h. (h, Above-trans at i m h s.0))
      (λ h. extend at i q m (state_from at m) (ground (arith, h)) s (state_from-CutOf at m s.1))

pub find-low : (k at : ℕ) (m : Points) → Above at m → k ≤ at → find k m ≡ none
unfolding find
find-low k at [] s h = refl
find-low k at ((j, p) ∷ m) s h = ground (arith, same_iff j k, find-low k at m s.1)

-- There is a state wherever there is a point that is not after it.
pub state_from-some :
    (b at : ℕ) (m : Points) (q : Point)
    → IsSorted m
    → find b m ≡ some q
    → b ≤ at
    → (j : ℕ) × (p : Point) × (l : Points) × (state_from at m ≡ (j, p) ∷ l) × Cut at m j p l
state_from-some b at m q s e h = pick (state_from at m) refl (state_from-CutOf at m s)
  where
    pick :
        (l : Points)
        → state_from at m ≡ l
        → CutOf at m l
        → (j : ℕ) × (p : Point) × (r : Points) × (state_from at m ≡ (j, p) ∷ r) × Cut at m j p r
    pick [] _ c = absurd (ground (arith, find-low b at m c h, e))
    pick ((j, p) ∷ r) eq c = (j, p, r, eq, c)

-- The walk has the points from its first on.
pub find-walk :
    (at : ℕ) (m : Points) (j : ℕ) (p : Point) (l : Points)
    → Cut at m j p l
    → (k : ℕ) → j ≤ k
    → find k ((j, p) ∷ l) ≡ find k m
unfolding find
find-walk at m j p l c k h = ground (arith, c.here, c.rest k, same_iff j k)

-- The state at a later time is not before the state at `at`.
pub Cut-mono :
    (at t : ℕ) (m : Points) (j i : ℕ) (p q : Point) (l r : Points)
    → Cut at m j p l
    → Cut t m i q r
    → at ≤ t
    → j ≤ i
Cut-mono at t m j i p q l r c c2 h =
    ground (arith, c.here, c.not_after, c2.rest j, find-low j t r c2.gap)

unfoldable pub mem : ℕ → List ℕ → Bool
mem k [] = false
mem k (x ∷ xs) = if x == k then true else mem k xs

abbrev pub Distinct : List ℕ → Type 0
Distinct [] = Unit
Distinct (x ∷ xs) = (mem x xs ≡ false) × Distinct xs

abbrev pub within : ℕ → ℕ → ℕ → Bool
within at until k = leb at k && ltb k until

pub mem-overlap :
    (at until k : ℕ) (l : Points)
    → IsSorted l
    → mem k (overlap at until l) ≡ (is_some (find k l) && within at until k)
unfolding mem overlap find
mem-overlap at until k [] s = refl
mem-overlap at until k ((j, p) ∷ l) s =
    ground
      (arith, mem-overlap at until k l s.1, same_iff j k, find-low k j l s.0, find-Above_lt k j l)

overlap-Distinct : (at until : ℕ) (l : Points) → IsSorted l → Distinct (overlap at until l)
unfolding mem overlap
overlap-Distinct at until [] s = tt
overlap-Distinct at until ((j, p) ∷ l) s =
    if_intro Distinct (leb until j) (λ _. tt)
      (λ _.
        if_intro Distinct (leb at j)
          (λ _. (
            rw (mem-overlap at until j l s.1, find-Above j l s.0) refl,
            overlap-Distinct at until l s.1,
          ))
          (λ _. overlap-Distinct at until l s.1))

module _ (at duration : ℕ) (m : Points) (s : IsSorted m) where
  pub fetch_overlap_points-Distinct : Distinct (fetch_overlap_points at duration m)
  unfolding fetch_overlap_points overlap
  fetch_overlap_points-Distinct = from (state_from at m) (state_from-CutOf at m s)
    where
      from : (l : Points) → CutOf at m l → Distinct (overlap at (later at duration) l)
      from [] c = tt
      from ((j, p) ∷ l) c = overlap-Distinct at (later at duration) ((j, p) ∷ l) c.sorted

  -- Where there is a state, the points in the window are fetched, and only those.
  pub mem-fetch_overlap_points :
      (b k : ℕ) (q : Point)
      → find b m ≡ some q
      → b ≤ at
      → mem k (fetch_overlap_points at duration m)
        ≡ (is_some (find k m) && within at (later at duration) k)
  unfolding fetch_overlap_points find
  mem-fetch_overlap_points b k q e h =
      let (j, p, l, eq, c) = state_from-some b at m q s e h in
      rw (eq, mem-overlap at (later at duration) k ((j, p) ∷ l) c.sorted) (same_window j p l c)
    where
      same_window :
          (j : ℕ) (p : Point) (l : Points)
          → Cut at m j p l
          → (is_some (find k ((j, p) ∷ l)) && within at (later at duration) k)
            ≡ (is_some (find k m) && within at (later at duration) k)
      same_window j p l c = ground (arith, c.not_after, c.here, c.rest k, same_iff j k)
