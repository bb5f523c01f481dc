-- ===== src/Policy/Params.antt =====
-- qmanager/policies/queue_policy_{easy,conservative,hybrid}_impl.hpp: the classes that set the
-- reservation depth of the backfill loop, by their constructors and by `apply_params`.
pub mod Depths
use flux_sched.Common.{
  ℕ, ◌+◌, ◌-◌, ◌%◌, ◌^◌, Bool, true, false, ◌||◌, List, [], ◌∷◌, Option, none, some, if◌then◌else◌,
  ltb, leb, ◌==◌,
}
use flux_sched.OrdMap.{OrdMap}
use flux_sched.Queue.State.{Queue, Backfill, backfill, BackfillKind, easy, hybrid, conservative}
use flux_sched.Queue.Params.{Str, param, is_space, is_digit, number_from, apply_params}

-- The result of `std::stoi`: an `int` as its 32-bit pattern, or one of its two exceptions.
pub data Stoi : Type 0 where
  invalid_argument out_of_range : Stoi
  int : ℕ → Stoi

unfoldable pub skip_spaces : Str → Str
skip_spaces [] = []
skip_spaces (c ∷ s) = if is_space c then skip_spaces s else c ∷ s

-- The digits that a string begins with.
unfoldable pub leading_digits : Str → Str
leading_digits [] = []
leading_digits (c ∷ s) = if is_digit c then c ∷ leading_digits s else []

-- The value after the sign.
unfoldable pub signed : Bool → Str → Stoi
unfolding number_from
signed negative [] = invalid_argument
signed true (c ∷ s) =
    let n = number_from 0 (c ∷ s) in
    if ltb (2 ^ 31) n then out_of_range else int ((2 ^ 32 - n) % 2 ^ 32)
signed false (c ∷ s) =
    let n = number_from 0 (c ∷ s) in if leb (2 ^ 31) n then out_of_range else int n

unfoldable pub after_spaces : Str → Stoi
unfolding signed leading_digits
after_spaces [] = invalid_argument
after_spaces (c ∷ s) =
    if c == 45
    then signed true (leading_digits s)
    else if c == 43
    then signed false (leading_digits s)
    else signed false (leading_digits (c ∷ s))

unfoldable pub stoi : Str → Stoi
unfolding after_spaces skip_spaces
stoi s = after_spaces (skip_spaces s)

-- `depth < 1`
abbrev pub not_positive32 : ℕ → ℕ
not_positive32 n = if (n == 0) || leb (2 ^ 31) n then 1 else 0

abbrev pub max_reservation_depth_key : Str
max_reservation_depth_key =
    109 ∷ 97 ∷ 120 ∷ 45 ∷ 114 ∷ 101 ∷ 115 ∷ 101 ∷ 114 ∷ 118 ∷ 97 ∷ 116 ∷ 105 ∷ 111 ∷ 110 ∷ 45 ∷ 100
    ∷ 101 ∷ 112 ∷ 116 ∷ 104 ∷ []

abbrev pub reservation_depth_key : Str
reservation_depth_key =
    114 ∷ 101 ∷ 115 ∷ 101 ∷ 114 ∷ 118 ∷ 97 ∷ 116 ∷ 105 ∷ 111 ∷ 110 ∷ 45 ∷ 100 ∷ 101 ∷ 112 ∷ 116
    ∷ 104 ∷ []

-- A parameter as the depth that `std::stoi` reads from it.
unfoldable pub read_depth : Option Str → Option Stoi
unfolding stoi
read_depth none = none
read_depth (some s) = some (stoi s)

-- The constructors.
unfoldable pub new_backfill : BackfillKind → Backfill
new_backfill kind = record {
  kind = kind;
  reservation_depth = elim kind [ easy ↦ 1 | hybrid ↦ 64 | conservative ↦ 100000 ];
  max_reservation_depth = 100000;
  reserved = [];
  reservation_cnt = 0;
  scheduled_cnt = 0;
  try_reserve = false;
  in_progress_iter = none;
}

-- The number that each `apply_params` returns is the negative of the last component.
unfoldable pub limit_reservations : ℕ → ℕ → Backfill → Backfill
limit_reservations rc queue_depth b =
    if rc == 0
    then record b {
      reservation_depth =
          if ltb queue_depth b.reservation_depth then queue_depth else b.reservation_depth;
    }
    else b

unfoldable pub max_conservative : Option Stoi → ℕ → Backfill → Backfill × ℕ
max_conservative (some (int n)) rc b = (
  record b {
    max_reservation_depth = n;
    reservation_depth = if ltb n b.reservation_depth then n else b.reservation_depth;
  },
  if not_positive32 n == 0 then rc else 1,
)
max_conservative _ rc b = (b, rc)

unfoldable pub apply_params_conservative : Backfill → Queue → Queue × Backfill × ℕ
unfolding apply_params limit_reservations max_conservative param read_depth
apply_params_conservative b q =
    let (q', rc) = apply_params q in
    let (b', rc') =
      max_conservative (read_depth (param max_reservation_depth_key q'.pparams)) rc
        (limit_reservations rc q'.queue_depth b) in
    (q', b', rc')

-- The second parameter; at the maximum or above, the depth is assigned to itself.
unfoldable pub depth_hybrid : Option Stoi → ℕ → Backfill → Backfill × ℕ
depth_hybrid (some (int n)) rc b = (
  record b { reservation_depth = if ltb n b.max_reservation_depth then n else b.reservation_depth },
  rc + not_positive32 n,
)
depth_hybrid _ rc b = (b, rc)

-- An exception at the first parameter leaves the second one unread.
unfoldable pub max_hybrid : Option Stoi → Option Stoi → ℕ → Backfill → Backfill × ℕ
unfolding depth_hybrid
max_hybrid none second rc b = depth_hybrid second rc b
max_hybrid (some (int n)) second rc b =
    depth_hybrid second (rc + not_positive32 n) (record b { max_reservation_depth = n })
max_hybrid (some _) second rc b = (b, rc)

unfoldable pub apply_params_hybrid : Backfill → Queue → Queue × Backfill × ℕ
unfolding apply_params max_hybrid param read_depth
apply_params_hybrid b q =
    let (q', rc) = apply_params q in
    let (b', rc') =
      max_hybrid (read_depth (param max_reservation_depth_key q'.pparams))
        (read_depth (param reservation_depth_key q'.pparams)) rc b in
    (q', b', rc')

unfoldable pub apply_params_easy : Backfill → Queue → Queue × Backfill × ℕ
unfolding apply_params
apply_params_easy b q = let (q', rc) = apply_params q in (q', b, rc)
