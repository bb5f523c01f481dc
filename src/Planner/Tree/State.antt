-- ===== src/Planner/Tree/State.antt =====
-- resource/planner/c++/scheduled_point_tree.cpp: get_state on the binary tree is the search in the list of
-- the points in order.
use flux_sched.Common.{
  ℕ, ◌≡◌, ◌<◌, ◌≤◌, refl, sym, subst, ◌∙◌, ap, true, false, [], ◌∷◌, ◌++◌, Option, none, some,
  if◌then◌else◌, if_intro, ltb, leb, ◌+◌, ◌-◌, ◌%◌, arith, Bool-cases, inl, inr,
}
use flux_sched.OrdMap.{nat_key}
use flux_sched.OrdMap.Order.{Above}
use flux_sched.Planner.State.{Point, Points, two_63, two_64}
use flux_sched.Planner.Points.{state_from, get_state, first_of, or_else_all}

pub data PointTree : Type 0 where
  leaf : PointTree
  node : PointTree → ℕ → Point → PointTree → PointTree

unfoldable pub get_recent_state : ℕ → Point → Option (ℕ × Point) → ℕ × Point
get_recent_state at p none = (at, p)
get_recent_state at p (some (old_at, old)) = if ltb old_at at then (at, p) else (old_at, old)

-- The `int64_t` difference of two times: the loop goes left where it is negative, and ends at 0.
unfoldable pub difference : ℕ → ℕ → ℕ
difference at j = (at + two_64 - j) % two_64

-- The loop of get_state, `last` being `last_state`.
unfoldable pub descend : ℕ → PointTree → Option (ℕ × Point) → Option (ℕ × Point)
unfolding get_recent_state difference
descend at leaf last = last
descend at (node l j p r) last =
    let left = descend at l last in
    let right = descend at r (some (get_recent_state j p last)) in
    let result = difference at j in
    if leb two_63 result then left else if ltb 0 result then right else some (j, p)

unfoldable pub tree_get_state : ℕ → PointTree → Option (ℕ × Point)
unfolding descend
tree_get_state at t = descend at t none

unfoldable pub in_order : PointTree → Points
in_order leaf = []
in_order (node l j p r) = in_order l ++ ((j, p) ∷ in_order r)

-- Every key of the list is less than `k`.
abbrev pub Below : ℕ → Points → Type 0
Below k [] = Unit
Below k ((j, _) ∷ m) = (j < k) × Below k m

-- The search order that the library keeps.
abbrev pub IsSearchTree : PointTree → Type 0
IsSearchTree leaf = Unit
IsSearchTree (node l j p r) =
    IsSearchTree l × IsSearchTree r × Below j (in_order l) × Above j (in_order r)

-- The difference of `at` and the time of each point is an `int64_t`.
abbrev pub Near : ℕ → PointTree → Type 0
Near at leaf = Unit
Near at (node l j _ r) = (at < j + two_63) × (j ≤ at + two_63) × Near at l × Near at r

abbrev latest : Option (ℕ × Point) → Option (ℕ × Point) → Option (ℕ × Point)
latest none last = last
latest (some e) last = some e

state_cons :
    (at j : ℕ) (p : Point) (m : Points)
    → j ≤ at
    → get_state at ((j, p) ∷ m) ≡ latest (get_state at m) (some (j, p))
unfolding get_state state_from
state_cons at j p m h =
    if_intro (λ (r : Points). first_of r ≡ latest (get_state at m) (some (j, p))) (ltb at j)
      (λ bad. absurd (ground (arith, bad, h))) (λ _. go (state_from at m))
  where
    go : (l : Points) → first_of (or_else_all l ((j, p) ∷ m)) ≡ latest (first_of l) (some (j, p))
    go [] = refl
    go (e ∷ l) = refl

state-Above : (at : ℕ) (m : Points) → Above at m → get_state at m ≡ none
unfolding get_state state_from
state-Above at [] s = refl
state-Above at ((j, p) ∷ m) s =
    if_intro (λ (r : Points). first_of r ≡ none) (ltb at j) (λ _. refl)
      (λ bad. absurd (ground (arith, bad, s.0)))

state_over : (at j : ℕ) (p : Point) (m : Points) → at < j → get_state at ((j, p) ∷ m) ≡ none
unfolding get_state state_from
state_over at j p m h =
    if_intro (λ (r : Points). first_of r ≡ none) (ltb at j) (λ _. refl)
      (λ bad. absurd (ground (arith, bad, h)))

state_left :
    (at j : ℕ) (p : Point) (xs m : Points)
    → at < j
    → get_state at (xs ++ ((j, p) ∷ m)) ≡ get_state at xs
state_left at j p [] m h = state_over at j p m h ∙ sym (state-Above at [] tt)
state_left at j p ((i, q) ∷ xs) m h = elim (Bool-cases (ltb at i)) [
  | inl over ↦
      state_over at i q (xs ++ ((j, p) ∷ m)) (ground (arith, over))
      ∙ sym (state_over at i q xs (ground (arith, over)))
  | inr under ↦
      state_cons at i q (xs ++ ((j, p) ∷ m)) (ground (arith, under))
      ∙ ap (λ o. latest o (some (i, q))) (state_left at j p xs m h)
      ∙ sym (state_cons at i q xs (ground (arith, under)))
]

state_right :
    (at j : ℕ) (p : Point) (xs m : Points)
    → j ≤ at
    → Below j xs
    → get_state at (xs ++ ((j, p) ∷ m)) ≡ latest (get_state at m) (some (j, p))
state_right at j p [] m h b = state_cons at j p m h
state_right at j p ((i, q) ∷ xs) m h b =
    state_cons at i q (xs ++ ((j, p) ∷ m)) (ground (arith, b.0, h))
    ∙ ap (λ o. latest o (some (i, q))) (state_right at j p xs m h b.1)
    ∙ go (get_state at m)
  where
    go :
        (o : Option (ℕ × Point))
        → latest (latest o (some (j, p))) (some (i, q)) ≡ latest o (some (j, p))
    go none = refl
    go (some e) = refl

abbrev Older : Option (ℕ × Point) → Points → Type 0
Older none m = Unit
Older (some (i, _)) m = Above i m

Older-root :
    (j : ℕ) (p : Point) (xs m : Points) (last : Option (ℕ × Point))
    → Older last (xs ++ ((j, p) ∷ m))
    → get_recent_state j p last ≡ (j, p)
unfolding get_recent_state
Older-root j p xs m none o = refl
Older-root j p [] m (some (i, q)) o = rw (o.0) refl
Older-root j p (e ∷ xs) m (some (i, q)) o = Older-root j p xs m (some (i, q)) o.1

Older-left : (xs ys : Points) (last : Option (ℕ × Point)) → Older last (xs ++ ys) → Older last xs
Older-left xs ys none o = tt
Older-left [] ys (some (i, q)) o = tt
Older-left (e ∷ xs) ys (some (i, q)) o = (o.0, Older-left xs ys (some (i, q)) o.1)

latest-latest :
    (o last : Option (ℕ × Point)) (e : ℕ × Point)
    → latest o (some e) ≡ latest (latest o (some e)) last
latest-latest none last e = refl
latest-latest (some d) last e = refl

goes_left : (at j : ℕ) → at < j + two_63 → j ≤ at + two_63 → leb two_63 (difference at j) ≡ ltb at j
unfolding difference
goes_left at j h k = ground (arith, h, k)

goes_right : (at j : ℕ) → at < j + two_63 → j ≤ at → ltb 0 (difference at j) ≡ ltb j at
unfolding difference
goes_right at j h k = ground (arith, h, k)

-- The state found so far is older than the points of the subtree.
descend-eq :
    (at : ℕ) (t : PointTree) (last : Option (ℕ × Point))
    → IsSearchTree t
    → Near at t
    → Older last (in_order t)
    → descend at t last ≡ latest (get_state at (in_order t)) last
unfolding descend in_order
descend-eq at leaf last b near o = ap (λ r. latest r last) (sym (state-Above at [] tt))
descend-eq at (node l j p r) last b near o =
    if_intro Right (leb two_63 (difference at j))
      (λ less.
        let h : ltb at j ≡ true = ground (arith, less, goes_left at j near.0 near.1) in
        descend-eq at l last b.0 near.2 (Older-left (in_order l) ((j, p) ∷ in_order r) last o)
        ∙ ap (λ x. latest x last)
            (sym (state_left at j p (in_order l) (in_order r) (ground (arith, h)))))
      (λ not_less.
        let h : ltb at j ≡ false = ground (arith, not_less, goes_left at j near.0 near.1) in
        let found = state_right at j p (in_order l) (in_order r) (ground (arith, h)) b.2 in
        if_intro Right (ltb 0 (difference at j))
          (λ greater.
            ap (λ e. descend at r (some e)) (Older-root j p (in_order l) (in_order r) last o)
            ∙ descend-eq at r (some (j, p)) b.1 near.3 b.3
            ∙ latest-latest (get_state at (in_order r)) last (j, p)
            ∙ ap (λ x. latest x last) (sym found))
          (λ not_greater.
            let k : ltb j at ≡ false =
              ground (arith, not_greater, goes_right at j near.0 (ground (arith, h))) in
            ap (λ x. latest (latest x (some (j, p))) last)
              (sym (
                state-Above at (in_order r)
                  (subst (λ (a : ℕ). Above a (in_order r)) (ground (arith, h, k)) b.3)))
            ∙ ap (λ x. latest x last) (sym found)))
  where
    Right : Option (ℕ × Point) → Type 0
    Right x = x ≡ latest (get_state at (in_order l ++ ((j, p) ∷ in_order r))) last

-- In a search tree of scheduled points from whose times the difference of the given time is an
-- int64_t, so that it does not overflow, the descent of get_state finds what the search of the list
-- of its points in order finds.
pub tree_get_state-in_order :
    (at : ℕ) (t : PointTree)
    → IsSearchTree t
    → Near at t
    → tree_get_state at t ≡ get_state at (in_order t)
unfolding tree_get_state
tree_get_state-in_order at t b near =
    descend-eq at t none b near tt ∙ latest_none (get_state at (in_order t))
  where
    latest_none : (o : Option (ℕ × Point)) → latest o none ≡ o
    latest_none none = refl
    latest_none (some e) = refl
