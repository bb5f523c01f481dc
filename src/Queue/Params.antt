-- ===== src/Queue/Params.antt =====
-- qmanager/policies/base/queue_policy_base.hpp: the parameters of a queue, their parsing and
-- application. A string is the list of its character codes. A parameter map is a list without order.
pub mod Bounds
use flux_sched.Common.{
  ℕ, ◌+◌, ◌*◌, ◌-◌, Bool, true, false, not, ◌&&◌, ◌||◌, List, [], ◌∷◌, Option, none, some,
  if◌then◌else◌, ltb, leb, ◌==◌,
}
use flux_sched.Queue.State.{Queue, Rc, ok, err, einval, failed}

abbrev pub Str : Type 0
Str = List ℕ

abbrev pub Params : Type 0
Params = List (Str × Str)

unfoldable pub same_str : Str → Str → Bool
same_str [] [] = true
same_str (a ∷ s) (b ∷ t) = (a == b) && same_str s t
same_str _ _ = false

-- `p_map.find (k)`
unfoldable pub param : Str → Params → Option Str
unfolding same_str
param k [] = none
param k ((j, v) ∷ m) = if same_str j k then some v else param k m

unfoldable pub drop_param : Str → Params → Params
unfolding same_str
drop_param k [] = []
drop_param k ((j, v) ∷ m) = if same_str j k then drop_param k m else (j, v) ∷ drop_param k m

-- A parameter that is there is erased first.
unfoldable pub put_param : Str → Str → Params → Params
unfolding drop_param
put_param k v m = (k, v) ∷ drop_param k m

-- `::isspace` and `std::isdigit`
abbrev pub is_space : ℕ → Bool
is_space c = (c == 32) || (leb 9 c && leb c 13)

abbrev pub is_digit : ℕ → Bool
is_digit c = leb 48 c && leb c 57

-- `s.erase (std::remove_if (s.begin (), s.end (), ::isspace), s.end ())`
unfoldable pub strip : Str → Str
strip [] = []
strip (c ∷ s) = if is_space c then strip s else c ∷ strip s

-- What stands before and behind the first `d`; `none` is `npos`.
unfoldable pub cut : ℕ → Str → Option (Str × Str)
cut d [] = none
cut d (c ∷ s) =
    let rest = cut d s in
    if c == d then some ([], s) else elim rest [ none ↦ none | some (a, b) ↦ some (c ∷ a, b) ]

-- The key is not empty after its spaces are gone.
unfoldable pub enter_param : Str → Str → Params → Params × Rc
unfolding put_param
enter_param [] v m = (m, err einval)
enter_param k v m = (put_param k v m, ok)

unfoldable pub set_param : Str → Params → Params × Rc
unfolding cut strip enter_param
set_param pair m = elim (cut 61 pair) [
  | none ↦ (m, err einval)
  | some (k, v) ↦ enter_param (strip k) (strip v) m
]

abbrev pub onto_first : ℕ → List Str → List Str
onto_first c [] = (c ∷ []) ∷ []
onto_first c (f ∷ fs) = (c ∷ f) ∷ fs

-- The pairs that the loop of `set_params` cuts off at each comma, and what is left behind the last.
unfoldable pub fields : Str → List Str
fields [] = [] ∷ []
fields (c ∷ s) = if c == 44 then [] ∷ fields s else onto_first c (fields s)

unfoldable pub set_fields : List Str → Params → Params × Rc
unfolding set_param
set_fields [] m = (m, ok)
set_fields (p ∷ ps) m =
    let (m', rc) = set_param p m in
    let later = set_fields ps m' in if failed rc then (m', rc) else later

unfoldable pub set_params : Str → Params → Params × Rc
unfolding fields set_fields
set_params s m = set_fields (fields s) m

unfoldable pub all_digits : Str → Bool
all_digits [] = true
all_digits (c ∷ s) = is_digit c && all_digits s

unfoldable pub is_number : Str → Bool
unfolding all_digits
is_number [] = false
is_number s = all_digits s

-- `std::stoi` of a string of digits, before its test of the range.
unfoldable pub number_from : ℕ → Str → ℕ
number_from n [] = n
number_from n (c ∷ s) = number_from (10 * n + (c - 48)) s

-- A depth parameter as `apply_params` reads it; `out_of_range` is the exception of `std::stoi`.
pub data Depth : Type 0 where
  absent not_number not_positive out_of_range : Depth
  depth : ℕ → Depth

abbrev pub depth_of_number : ℕ → Depth
depth_of_number n =
    if ltb 2147483647 n then out_of_range else if ltb n 1 then not_positive else depth n

unfoldable pub depth_of : Option Str → Depth
unfolding is_number number_from
depth_of none = absent
depth_of (some s) = if is_number s then depth_of_number (number_from 0 s) else not_number

abbrev pub thrown : Depth → Bool
thrown out_of_range = true
thrown _ = false

-- The failure that a parameter adds to the result.
abbrev pub bad : Depth → ℕ
bad not_number = 1
bad not_positive = 1
bad _ = 0

abbrev pub max_queue_depth_key : Str
max_queue_depth_key =
    109 ∷ 97 ∷ 120 ∷ 45 ∷ 113 ∷ 117 ∷ 101 ∷ 117 ∷ 101 ∷ 45 ∷ 100 ∷ 101 ∷ 112 ∷ 116 ∷ 104 ∷ []

abbrev pub queue_depth_key : Str
queue_depth_key = 113 ∷ 117 ∷ 101 ∷ 117 ∷ 101 ∷ 45 ∷ 100 ∷ 101 ∷ 112 ∷ 116 ∷ 104 ∷ []

unfoldable pub set_max_depth : Depth → Queue → Queue
set_max_depth (depth n) q = record q {
  max_queue_depth = n;
  queue_depth = if ltb n q.queue_depth then n else q.queue_depth;
}
set_max_depth _ q = q

unfoldable pub set_depth : Depth → Queue → Queue
set_depth (depth n) q = record q {
  queue_depth = if ltb n q.max_queue_depth then n else q.max_queue_depth;
}
set_depth _ q = q

-- The number that is returned is the negative of the second component.
unfoldable pub apply_params : Queue → Queue × ℕ
unfolding param depth_of set_max_depth set_depth
apply_params q =
    let a = depth_of (param max_queue_depth_key q.qparams) in
    let b = depth_of (param queue_depth_key q.qparams) in
    let q' : Queue = set_max_depth a q in
    if thrown a then (q', 1) else if thrown b then (q', 1) else (set_depth b q', bad a + bad b)
