-- ===== src/Tests/Parameters.antt =====
-- qmanager/policies: the theorems on the parameters at concrete inputs.
use flux_sched.Common.{◌≡◌, refl, ◌≤◌, [], ◌∷◌, ◌++◌, some, arith}
use flux_sched.Queue.State.{Queue, BackfillKind, ok}
use flux_sched.Queue.Params.{
  param, put_param, set_param, fields, apply_params, max_queue_depth_key, queue_depth_key,
}
use flux_sched.Queue.Params.Bounds.{
  IsBounded, apply_params-IsBounded, set_param-param, join, fields-join,
}
use flux_sched.Policy.Params.{
  Stoi, new_backfill, stoi, apply_params_conservative, apply_params_hybrid,
  max_reservation_depth_key,
}
use flux_sched.Policy.Params.Depths.{apply_params_conservative-le}
use flux_sched.Tests.{empty_queue}

-- max-queue-depth=16 and queue-depth=8, with max-reservation-depth=x.
abbrev tuned : Queue
tuned = record empty_queue {
  qparams = (max_queue_depth_key, 49 ∷ 54 ∷ []) ∷ (queue_depth_key, 56 ∷ []) ∷ [];
  pparams = (max_reservation_depth_key, 120 ∷ []) ∷ [];
}

empty_queue-IsBounded : IsBounded tuned
empty_queue-IsBounded = record { positive = omega arith; ordered = omega arith }

tuned_depth : (apply_params tuned).0.queue_depth ≡ 8
unfolding apply_params
tuned_depth = refl

apply_params-IsBounded_example : IsBounded (apply_params tuned).0
apply_params-IsBounded_example = apply_params-IsBounded tuned empty_queue-IsBounded

-- a=1
set_param-param_example :
    (set_param ((97 ∷ []) ++ (61 ∷ 49 ∷ [])) [] ≡ (put_param (97 ∷ []) (49 ∷ []) [], ok))
    × (param (97 ∷ []) (set_param ((97 ∷ []) ++ (61 ∷ 49 ∷ [])) []).0 ≡ some (49 ∷ []))
set_param-param_example = set_param-param [] (49 ∷ []) [] 97 (refl, tt) (refl, tt) (refl, tt)

fields-join_example :
    fields (join ((97 ∷ 61 ∷ 49 ∷ []) ∷ (98 ∷ 61 ∷ 50 ∷ []) ∷ []))
    ≡ (97 ∷ 61 ∷ 49 ∷ []) ∷ (98 ∷ 61 ∷ 50 ∷ []) ∷ []
fields-join_example =
    fields-join (97 ∷ 61 ∷ 49 ∷ []) ((98 ∷ 61 ∷ 50 ∷ []) ∷ []) (refl, (refl, (refl, tt)))
      ((refl, (refl, (refl, tt))), tt)

tuned_good : (apply_params tuned).1 ≡ 0
unfolding apply_params
tuned_good = refl

apply_params_conservative-le_example :
    (apply_params_conservative (new_backfill BackfillKind.conservative) tuned).1.reservation_depth
    ≤ (apply_params_conservative (new_backfill BackfillKind.conservative) tuned).0.queue_depth
apply_params_conservative-le_example =
    apply_params_conservative-le (new_backfill BackfillKind.conservative) tuned tuned_good

tuned_max : param max_reservation_depth_key (apply_params tuned).0.pparams ≡ some (120 ∷ [])
unfolding apply_params
tuned_max = refl

x_is_no_number : stoi (120 ∷ []) ≡ Stoi.invalid_argument
unfolding stoi
x_is_no_number = refl

-- A depth that is no number is dropped without an error, and the other depth is not read.
hybrid_unread :
    apply_params_hybrid (new_backfill BackfillKind.hybrid) tuned
    ≡ ((apply_params tuned).0, new_backfill BackfillKind.hybrid, 0)
unfolding apply_params_hybrid apply_params
hybrid_unread = refl
