-- ===== src/Planner/Tree/Mintime.antt =====
-- resource/planner/c++/mintime_resource_tree.cpp: the search of the earliest point that has the request, in a
-- tree ordered by the quantities whose nodes know the earliest time below them.
use flux_sched.Common.{ℕ, ◌≡◌, ◌≤◌, Bool, false, not, Option, none, some, if◌then◌else◌, ltb, ◌==◌}
use flux_sched.Planner.State.{max_time, less64}

pub record Entry : Type 0 where
  pub at : ℕ
  pub remaining : ℕ
  pub subtree_min : ℕ

pub data MintimeTree : Type 0 where
  leaf : MintimeTree
  node : MintimeTree → Entry → MintimeTree → MintimeTree

abbrev pub least_below : MintimeTree → ℕ
least_below leaf = max_time
least_below (node _ n _) = n.subtree_min

unfoldable pub right_branch_mintime : Entry → MintimeTree → ℕ
right_branch_mintime n right =
    let min_time = least_below right in if ltb n.at min_time then n.at else min_time

-- The loop of find_mintime_anchor, which keeps the least time and its anchor.
unfoldable pub find_mintime_anchor : ℕ → MintimeTree → ℕ × MintimeTree → ℕ × MintimeTree
unfolding right_branch_mintime less64
find_mintime_anchor request leaf best = best
find_mintime_anchor request (node l n r) (min_time, anchor) =
    let right_min_time = right_branch_mintime n r in
    let better =
      find_mintime_anchor request l (
        if ltb right_min_time min_time then (right_min_time, node l n r) else (min_time, anchor)) in
    let right = find_mintime_anchor request r (min_time, anchor) in
    if not (less64 n.remaining request) then better else right

abbrev pub has_least : MintimeTree → ℕ → Bool
has_least leaf min_time = false
has_least (node _ n _) min_time = n.subtree_min == min_time

-- The loop of find_mintime_point.
unfoldable pub walk_to : MintimeTree → ℕ → Option Entry
walk_to leaf min_time = none
walk_to (node l n r) min_time =
    let left = walk_to l min_time in
    let right = walk_to r min_time in
    if n.at == min_time then some n else if has_least l min_time then left else right

-- An anchor that is not there is an empty tree.
unfoldable pub find_mintime_point : MintimeTree → ℕ → Option Entry
unfolding walk_to
find_mintime_point leaf min_time = none
find_mintime_point (node l n r) min_time = if n.at == min_time then some n else walk_to r min_time

unfoldable pub tree_get_mintime : ℕ → MintimeTree → Option Entry
unfolding find_mintime_anchor find_mintime_point
tree_get_mintime request t =
    let best = find_mintime_anchor request t (max_time, leaf) in find_mintime_point best.1 best.0

abbrev pub lesser : ℕ → ℕ → ℕ
lesser a b = if ltb a b then a else b

-- The plain search: the least time of the nodes with at least the request.
unfoldable pub earliest : ℕ → MintimeTree → ℕ
unfolding less64
earliest request leaf = max_time
earliest request (node l n r) =
    let below = lesser (earliest request l) (earliest request r) in
    if not (less64 n.remaining request) then lesser n.at below else below

abbrev pub All : (Entry → Type 0) → MintimeTree → Type 0
All P leaf = Unit
All P (node l n r) = P n × All P l × All P r

-- What the library and the hooks of the nodes keep: the order by quantity, and the least time below a node;
-- and that a time is one of 64 bits.
abbrev pub IsMintimeTree : MintimeTree → Type 0
IsMintimeTree leaf = Unit
IsMintimeTree (node l n r) =
    IsMintimeTree l
    × IsMintimeTree r
    × All (λ m. less64 n.remaining m.remaining ≡ false) l
    × All (λ m. less64 m.remaining n.remaining ≡ false) r
    × (n.subtree_min ≡ lesser n.at (lesser (least_below l) (least_below r)))
    × (n.at ≤ max_time)
