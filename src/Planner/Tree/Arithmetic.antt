-- ===== src/Planner/Tree/Arithmetic.antt =====
-- The arithmetic of the least time in a tree.
use flux_sched.Common.{
  ℕ, ◌≡◌, ◌≢◌, ◌<◌, ◌≤◌, refl, Bool, true, false, if◌then◌else◌, ltb, ◌==◌, arith,
}
use flux_sched.Planner.State.{max_time}
use flux_sched.Planner.Tree.Mintime.{MintimeTree, lesser}

pub lesser_leaf : (m : ℕ) → m ≤ max_time → m ≡ lesser max_time m
lesser_leaf m h = ground (arith, h)

pub lesser_short :
    (el er m : ℕ) → el ≡ max_time → m ≤ max_time → lesser er m ≡ lesser (lesser el er) m
lesser_short el er m h le = ground (arith, h, le)

pub lesser_enough :
    (at el er lb m : ℕ)
    → er ≡ lb
    → lesser el (if ltb (lesser at lb) m then lesser at lb else m)
      ≡ lesser (lesser at (lesser el er)) m
lesser_enough at el er lb m h = ground (arith, h)

pub lesser_le : (x m : ℕ) → m ≤ max_time → (if ltb x m then x else m) ≤ max_time
lesser_le x m h = ground (arith, h)

pub lesser_right :
    (sm at ll lr m : ℕ)
    → sm ≡ m
    → sm ≡ lesser at (lesser ll lr)
    → (at == m) ≡ false
    → (ll ≡ m → m ≡ max_time)
    → m < max_time
    → lr ≡ m
lesser_right sm at ll lr m h k n l lt = ground (arith, h, k, n, l, lt)

pub lesser_other : (at lb m : ℕ) → m ≡ lesser at lb → (at == m) ≡ false → lb ≡ m
lesser_other at lb m h n = ground (arith, h, n)

pub below_max : (x m : ℕ) → ltb x m ≡ true → m ≤ max_time → x < max_time
below_max x m h le = ground (arith, h, le)

pub different : (a b : ℕ) → (a == b) ≡ false → a ≢ b
different a b h k = ground (arith, h, k)

pub too_great : (m : ℕ) → max_time ≡ m → m < max_time → ⊥
too_great m h lt = omega (arith, h, lt)

pub not_true : (b : Bool) → b ≡ false → b ≡ true → ⊥
not_true b h k = cc

pub lesser_both : (a b : ℕ) → a ≤ max_time → b ≤ max_time → lesser a b ≤ max_time
lesser_both a b h k = ground (arith, h, k)

pub if_first :
    (c : Bool) (x y : ℕ × MintimeTree) → (if c then x else y).0 ≡ (if c then x.0 else y.0)
if_first true x y = refl
if_first false x y = refl
