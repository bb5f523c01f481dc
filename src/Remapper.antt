-- ===== src/Remapper.antt =====
-- resource/readers/resource_namespace_remapper.cpp: ranges of execution targets, and the numbers that
-- stand for those of a resource within a range. The map of ranges is ordered by `m_high < o.m_low`, so
-- that ranges that overlap are the same key.
pub mod Query
use flux_sched.Common.{
  ℕ, Bool, true, false, ◌&&◌, List, [], ◌∷◌, Option, none, some, if◌then◌else◌, ltb, ◌==◌,
}
use flux_sched.OrdMap.{OrdMap, find, insert, nat_key}
use flux_sched.Queue.State.{Rc, ok, err, einval, enoent, eexist}
use flux_sched.Queue.Params.{Str, same_str}

pub record DistinctRange : Type 0 where
  pub low : ℕ
  pub high : ℕ

-- `operator<` and `operator==`
abbrev pub before : DistinctRange → DistinctRange → Bool
before a b = ltb a.high b.low

abbrev pub same_range : DistinctRange → DistinctRange → Bool
same_range a b = (a.high == b.high) && (a.low == b.low)

abbrev pub point : ℕ → DistinctRange
point p = record { low = p; high = p }

abbrev pub Names : Type 0
Names = List (Str × OrdMap ℕ ℕ)

abbrev pub Remap : Type 0
Remap = List (DistinctRange × Names)

-- `m_remap.find (x)`: the first range that is not before `x`, where `x` is not before it.
unfoldable pub find_range : DistinctRange → Remap → Option (DistinctRange × Names)
find_range x [] = none
find_range x ((r, v) ∷ m) =
    if before r x then find_range x m else if before x r then none else some (r, v)

-- A write to the entry of `x`, which is new where there is none.
unfoldable pub put_range : DistinctRange → Names → Remap → Remap
put_range x v [] = (x, v) ∷ []
put_range x v ((r, w) ∷ m) =
    if before r x
    then (r, w) ∷ put_range x v m
    else if before x r
    then (x, v) ∷ (r, w) ∷ m
    else (r, v) ∷ m

unfoldable pub find_name : Str → Names → OrdMap ℕ ℕ
unfolding same_str
find_name name [] = []
find_name name ((n, ids) ∷ m) = if same_str n name then ids else find_name name m

unfoldable pub put_name : Str → OrdMap ℕ ℕ → Names → Names
unfolding same_str
put_name name ids [] = (name, ids) ∷ []
put_name name ids ((n, w) ∷ m) =
    if same_str n name then (n, ids) ∷ m else (n, w) ∷ put_name name ids m

-- The entry of `ref_id` in the map of a name, which must be new.
unfoldable pub add_id : DistinctRange → Str → ℕ → ℕ → Names → Remap → Remap × Rc
unfolding find insert find_name put_name put_range
add_id x name ref_id remapped names m =
    let (ids, fresh) = insert ref_id remapped (find_name name names) in
    if fresh then (put_range x (put_name name ids names) m, ok) else (m, err eexist)

-- A range that overlaps another one is that range, or is refused.
unfoldable pub add_found :
    Option (DistinctRange × Names) → DistinctRange → Str → ℕ → ℕ → Remap → Remap × Rc
unfolding add_id
add_found none x name ref_id remapped m = add_id x name ref_id remapped [] m
add_found (some (r, names)) x name ref_id remapped m =
    if same_range x r then add_id x name ref_id remapped names m else (m, err einval)

unfoldable pub add_range : DistinctRange → Str → ℕ → ℕ → Remap → Remap × Rc
unfolding find_range add_found
add_range x name ref_id remapped m = add_found (find_range x m) x name ref_id remapped m

-- A map of a name that is not there is the empty one, as it is for `query`.
unfoldable pub add_remap : ℕ → ℕ → Str → ℕ → ℕ → Remap → Remap × Rc
unfolding add_range
add_remap low high name ref_id remapped m =
    if ltb high low
    then (m, err einval)
    else add_range (record { low = low; high = high }) name ref_id remapped m

-- `none` is the failure with ENOENT.
unfoldable pub query : ℕ → Str → ℕ → Remap → Option ℕ
unfolding find_range find_name find
query target name ref_id m = elim (find_range (point target) m) [
  | none ↦ none
  | some (r, names) ↦ find ref_id (find_name name names)
]

pub is_remapped : Remap → Bool
is_remapped [] = false
is_remapped (x ∷ m) = true
