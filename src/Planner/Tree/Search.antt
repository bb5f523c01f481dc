-- ===== src/Planner/Tree/Search.antt =====
-- resource/planner/c++/mintime_resource_tree.cpp: get_mintime finds what the plain search finds.
use flux_sched.Common.{
  ℕ, ◌≡◌, ◌<◌, ◌≤◌, ◌⊎◌, refl, sym, subst, ◌∙◌, ap, true, false, not, none, some, if◌then◌else◌,
  if_intro, ltb, ◌==◌, ==_iff, arith, Bool-cases, inl, inr,
}
use flux_sched.Planner.State.{max_time, less64}
use flux_sched.Planner.Tree.Mintime.{
  Entry, MintimeTree, leaf, node, least_below, right_branch_mintime, find_mintime_anchor, has_least,
  walk_to, find_mintime_point, tree_get_mintime, lesser, earliest, All, IsMintimeTree,
}
use flux_sched.Planner.Tree.Arithmetic.{
  lesser_leaf, lesser_short, lesser_enough, lesser_le, lesser_right, lesser_other, below_max,
  different, too_great, not_true, lesser_both, if_first,
}

-- Where every node has the request, the least of all times is the plain search's.
All-earliest :
    (request : ℕ) (t : MintimeTree)
    → IsMintimeTree t
    → All (λ m. less64 m.remaining request ≡ false) t
    → earliest request t ≡ least_below t
unfolding earliest
All-earliest request leaf b a = refl
All-earliest request (node l n r) b a =
    ground (arith, All-earliest request l b.0 a.1, All-earliest request r b.1 a.2, a.0, b.4)

none-earliest :
    (request : ℕ) (t : MintimeTree)
    → All (λ m. less64 m.remaining request ≡ true) t
    → earliest request t ≡ max_time
unfolding earliest
none-earliest request leaf a = refl
none-earliest request (node l n r) a =
    ground (arith, none-earliest request l a.1, none-earliest request r a.2, a.0)

All-map : (P Q : Entry → Type 0) (t : MintimeTree) → ((m : Entry) → P m → Q m) → All P t → All Q t
All-map P Q leaf f a = tt
All-map P Q (node l n r) f a = (f n a.0, All-map P Q l f a.1, All-map P Q r f a.2)

module _ (request : ℕ) where
  more-enough : (a b : ℕ) → less64 a request ≡ false → less64 b a ≡ false → less64 b request ≡ false
  unfolding less64
  more-enough a b h k = ground (arith, h, k)

  less-short : (a b : ℕ) → less64 a request ≡ true → less64 a b ≡ false → less64 b request ≡ true
  unfolding less64
  less-short a b h k = ground (arith, h, k)

  abbrev Enough : Entry → Type 0
  Enough m = less64 m.remaining request ≡ false

  -- The anchor is the node whose own time or right side has the least time, if any has been found.
  abbrev Anchors : ℕ × MintimeTree → Type 0
  Anchors (m, leaf) = m ≡ max_time
  Anchors (m, node l n r) =
      IsMintimeTree (node l n r) × (m ≡ lesser n.at (least_below r)) × (m < max_time) × Enough n

  abbrev Found : MintimeTree → ℕ → ℕ × MintimeTree → Type 0
  Found t m best = (best.0 ≡ lesser (earliest request t) m) × Anchors best

  find_mintime_anchor-Found :
      (t : MintimeTree) (best : ℕ × MintimeTree)
      → IsMintimeTree t
      → best.0 ≤ max_time
      → Anchors best
      → Found t best.0 (find_mintime_anchor request t best)
  unfolding find_mintime_anchor earliest right_branch_mintime
  find_mintime_anchor-Found leaf best b le a = (lesser_leaf best.0 le, a)
  find_mintime_anchor-Found (node l n r) best b le a =
      elim (Bool-cases (less64 n.remaining request)) [
        | inl short ↦
            let rest = find_mintime_anchor-Found r best b.1 le a in
            let no_left = none-earliest request l (
              All-map (λ m. less64 n.remaining m.remaining ≡ false)
                (λ m. less64 m.remaining request ≡ true) l
                (λ m h. less-short n.remaining m.remaining short h) b.2) in
            rw (short, find_mintime_anchor, earliest)
              (
                rest.0 ∙ lesser_short (earliest request l) (earliest request r) best.0 no_left le,
                rest.1,
              )
        | inr enough ↦
            let here = lesser n.at (least_below r) in
            let better : ℕ × MintimeTree = if ltb here best.0 then (here, node l n r) else best in
            let first = if_first (ltb here best.0) (here, node l n r) best in
            let right_all = All-earliest request r b.1 (
              All-map (λ m. less64 m.remaining n.remaining ≡ false) Enough r
                (λ m h. more-enough n.remaining m.remaining enough h) b.3) in
            let rest =
              find_mintime_anchor-Found l better b.0
                (subst (λ (x : ℕ). x ≤ max_time) (sym first) (lesser_le here best.0 le))
                (if_intro Anchors (ltb here best.0)
                  (λ h. (b, refl, below_max here best.0 h le, enough)) (λ _. a)) in
            rw (enough, find_mintime_anchor, earliest)
              (
                rest.0
                    ∙ ap (lesser (earliest request l)) first
                    ∙ lesser_enough n.at (earliest request l) (earliest request r) (least_below r)
                        best.0 right_all,
                rest.1,
              )
      ]

  walk_to-found :
      (t : MintimeTree) (m : ℕ)
      → IsMintimeTree t
      → All Enough t
      → least_below t ≡ m
      → m < max_time
      → (e : Entry) × (walk_to t m ≡ some e) × (e.at ≡ m) × Enough e
  unfolding walk_to
  walk_to-found leaf m b a h lt = absurd (too_great m h lt)
  walk_to-found (node l n r) m b a h lt = elim (Bool-cases (n.at == m)) [
    | inl here ↦ rw (here, walk_to) (n, refl, (==_iff n.at m).0 here, a.0)
    | inr not_here ↦ elim (Bool-cases (has_least l m)) [
      | inl left ↦ rw (not_here, left, walk_to) (walk_to-found l m b.0 a.1 (least_of l left) lt)
      | inr not_left ↦
          rw (not_here, not_left, walk_to)
            (walk_to-found r m b.1 a.2
              (lesser_right n.subtree_min n.at (least_below l) (least_below r) m h b.4 not_here
                (not_least l not_left) lt)
              lt)
    ]
  ]
    where
      least_of : (t : MintimeTree) → has_least t m ≡ true → least_below t ≡ m
      least_of leaf e = absurd (not_true false refl e)
      least_of (node _ n _) e = (==_iff n.subtree_min m).0 e

      not_least : (t : MintimeTree) → has_least t m ≡ false → least_below t ≡ m → m ≡ max_time
      not_least leaf e h = sym h
      not_least (node _ n _) e h = absurd (different n.subtree_min m e h)

  find_mintime_point-found :
      (anchor : MintimeTree) (m : ℕ)
      → Anchors (m, anchor)
      → ((m ≡ max_time) × (find_mintime_point anchor m ≡ none))
        ⊎ ((e : Entry) × (find_mintime_point anchor m ≡ some e) × (e.at ≡ m) × Enough e)
  unfolding find_mintime_point
  find_mintime_point-found leaf m a = inl (a, refl)
  find_mintime_point-found (node l n r) m (b, h, lt, enough) = elim (Bool-cases (n.at == m)) [
    | inl here ↦ inr (rw (here, find_mintime_point) (n, refl, (==_iff n.at m).0 here, enough))
    | inr not_here ↦ inr (
        rw (not_here, find_mintime_point)
          (walk_to-found r m b.1
            (All-map (λ k. less64 k.remaining n.remaining ≡ false) Enough r
              (λ k g. more-enough n.remaining k.remaining enough g) b.3)
            (lesser_other n.at (least_below r) m h not_here) lt))
  ]

  earliest-le : (t : MintimeTree) → IsMintimeTree t → earliest request t ≤ max_time
  unfolding earliest
  earliest-le leaf b = omega arith
  earliest-le (node l n r) b =
      let both =
        lesser_both (earliest request l) (earliest request r) (earliest-le l b.0)
          (earliest-le r b.1) in
      if_intro (λ (x : ℕ). x ≤ max_time) (not (less64 n.remaining request))
        (λ _. lesser_both n.at (lesser (earliest request l) (earliest request r)) b.5 both)
        (λ _. both)

  -- In a tree ordered by quantity whose nodes know the least time below them, with times of 64
  -- bits, get_mintime finds a node with at least the request and with the least time of all such
  -- nodes, as the plain search over all nodes gives it, or nothing where no node before INT64_MAX
  -- has the request.
  pub tree_get_mintime-earliest :
      (t : MintimeTree)
      → IsMintimeTree t
      → ((earliest request t ≡ max_time) × (tree_get_mintime request t ≡ none))
        ⊎ ((e : Entry) × (tree_get_mintime request t ≡ some e)
            × (e.at ≡ earliest request t)
            × Enough e)
  unfolding tree_get_mintime
  tree_get_mintime-earliest t b =
      let (value, anchor) = find_mintime_anchor-Found t (max_time, leaf) b max_le refl in
      let best = find_mintime_anchor request t (max_time, leaf) in
      elim (find_mintime_point-found best.1 best.0 (split best anchor)) [
        | inl (e, none_found) ↦
            inl (lesser_max (earliest request t) best.0 (earliest-le t b) value e, none_found)
        | inr (n, found, at_min, enough) ↦
            inr (
              n,
              found,
              at_min ∙ value ∙ lesser_bound (earliest request t) (earliest-le t b),
              enough,
            )
      ]
    where
      split : (p : ℕ × MintimeTree) → Anchors p → Anchors (p.0, p.1)
      split (m, leaf) a = a
      split (m, node l n r) a = a

      max_le : max_time ≤ max_time
      max_le = omega arith

      lesser_max : (x m : ℕ) → x ≤ max_time → m ≡ lesser x max_time → m ≡ max_time → x ≡ max_time
      lesser_max x m le h k = ground (arith, le, h, k)

      lesser_bound : (x : ℕ) → x ≤ max_time → lesser x max_time ≡ x
      lesser_bound x h = ground (arith, h)
