-- ===== src/Policy/Params/Depths.antt =====
-- qmanager/policies: the reservation depths that the parameters lead to.
use flux_sched.Common.{ℕ, ◌≡◌, ◌≤◌, Option, none, some, arith}
use flux_sched.Queue.State.{Queue, Backfill}
use flux_sched.Queue.Params.{param, apply_params}
use flux_sched.Policy.Params.{
  Stoi, invalid_argument, out_of_range, int, read_depth, max_reservation_depth_key,
  limit_reservations, max_conservative, apply_params_conservative,
}

limit_reservations-le :
    (queue_depth : ℕ) (b : Backfill)
    → (limit_reservations 0 queue_depth b).reservation_depth ≤ queue_depth
unfolding limit_reservations
limit_reservations-le queue_depth b = ground arith

max_conservative-le :
    (o : Option Stoi) (rc : ℕ) (b : Backfill)
    → (max_conservative o rc b).0.reservation_depth ≤ b.reservation_depth
unfolding max_conservative
max_conservative-le none rc b = omega arith
max_conservative-le (some (int n)) rc b = ground arith
max_conservative-le (some invalid_argument) rc b = omega arith
max_conservative-le (some out_of_range) rc b = omega arith

-- Where the queue parameters apply without failure, the conservative policy's reservation depth
-- is at most the queue depth afterwards.
pub apply_params_conservative-le :
    (b : Backfill) (q : Queue)
    → (apply_params q).1 ≡ 0
    → (apply_params_conservative b q).1.reservation_depth
      ≤ (apply_params_conservative b q).0.queue_depth
unfolding apply_params_conservative
apply_params_conservative-le b q good =
    let q' : Queue = (apply_params q).0 in
    let b' : Backfill = limit_reservations (apply_params q).1 q'.queue_depth b in
    let h : b'.reservation_depth ≤ q'.queue_depth =
      rw good (limit_reservations-le q'.queue_depth b) in
    omega (
      arith,
      h,
      max_conservative-le (read_depth (param max_reservation_depth_key q'.pparams))
          (apply_params q).1 b',
    )
