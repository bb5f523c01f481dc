-- ===== src/Queue/Params/Bounds.antt =====
-- qmanager/policies/base/queue_policy_base.hpp: what the parameters of a queue can and cannot do.
use flux_sched.Common.{
  ℕ, ◌≡◌, refl, ◌∙◌, ap, ◌≤◌, true, false, List, [], ◌∷◌, ◌++◌, Option, none, some, if_intro, ltb,
  ◌==◌, arith,
}
use flux_sched.Queue.State.{Queue, Rc, ok}
use flux_sched.Queue.Params.{
  Str, Params, same_str, param, put_param, is_space, strip, cut, enter_param, set_param, fields,
  Depth, depth, depth_of, thrown, max_queue_depth_key, queue_depth_key, set_max_depth, set_depth,
  apply_params, is_number, number_from,
}

-- The two depths of a queue are in order, and both are positive.
pub record IsBounded (q : Queue) : Type 0 where
  pub positive : 1 ≤ q.queue_depth
  pub ordered : q.queue_depth ≤ q.max_queue_depth

-- A depth that was read is positive.
abbrev IsDepth : Depth → Type 0
IsDepth (depth n) = 1 ≤ n
IsDepth _ = Unit

depth_of-IsDepth : (o : Option Str) → IsDepth (depth_of o)
unfolding depth_of
depth_of-IsDepth none = tt
depth_of-IsDepth (some s) =
    if_intro IsDepth (is_number s)
      (λ _.
        if_intro IsDepth (ltb 2147483647 (number_from 0 s)) (λ _. tt)
          (λ _. if_intro IsDepth (ltb (number_from 0 s) 1) (λ _. tt) (λ h. ground (arith, h))))
      (λ _. tt)

set_max_depth-IsBounded :
    (d : Depth) (q : Queue) → IsDepth d → IsBounded q → IsBounded (set_max_depth d q)
unfolding set_max_depth
set_max_depth-IsBounded (depth n) q pos b = record {
  positive = ground (arith, pos, b.positive);
  ordered = ground (arith, b.ordered);
}
set_max_depth-IsBounded _ q pos b = b

set_depth-IsBounded : (d : Depth) (q : Queue) → IsDepth d → IsBounded q → IsBounded (set_depth d q)
unfolding set_depth
set_depth-IsBounded (depth n) q pos b = record {
  positive = ground (arith, pos, b.positive, b.ordered);
  ordered = ground (arith, b.ordered);
}
set_depth-IsBounded _ q pos b = b

-- Whatever the parameter strings are, apply_params keeps that the queue depth is positive and
-- at most the maximum queue depth, also where it fails or throws halfway.
pub apply_params-IsBounded : (q : Queue) → IsBounded q → IsBounded (apply_params q).0
unfolding apply_params
apply_params-IsBounded q b =
    let d1 = depth_of-IsDepth (param max_queue_depth_key q.qparams) in
    let d2 = depth_of-IsDepth (param queue_depth_key q.qparams) in
    let m = depth_of (param max_queue_depth_key q.qparams) in
    let n = depth_of (param queue_depth_key q.qparams) in
    let b1 = set_max_depth-IsBounded m q d1 b in
    if_intro (λ (r : Queue × ℕ). IsBounded r.0) (thrown m) (λ _. b1)
      (λ _.
        if_intro (λ (r : Queue × ℕ). IsBounded r.0) (thrown n) (λ _. b1)
          (λ _. set_depth-IsBounded n (set_max_depth m q) d2 b1))

-- A string without the character `d`.
abbrev pub Lacks : ℕ → Str → Type 0
Lacks d [] = Unit
Lacks d (c ∷ s) = ((c == d) ≡ false) × Lacks d s

abbrev pub IsSolid : Str → Type 0
IsSolid [] = Unit
IsSolid (c ∷ s) = (is_space c ≡ false) × IsSolid s

cut-append : (d : ℕ) (s t : Str) → Lacks d s → cut d (s ++ (d ∷ t)) ≡ some (s, t)
unfolding cut
cut-append d [] t l = ground arith
cut-append d (c ∷ s) t l = ground (arith, l.0, cut-append d s t l.1)

strip_solid : (s : Str) → IsSolid s → strip s ≡ s
unfolding strip
strip_solid [] h = refl
strip_solid (c ∷ s) h = ground (arith, h.0, strip_solid s h.1)

same_str_refl : (s : Str) → same_str s s ≡ true
unfolding same_str
same_str_refl [] = refl
same_str_refl (c ∷ s) = ground (arith, same_str_refl s)

-- Joined by commas.
pub join : List Str → Str
join [] = []
join (f ∷ []) = f
join (f ∷ g ∷ fs) = f ++ (44 ∷ join (g ∷ fs))

abbrev pub AllLack : ℕ → List Str → Type 0
AllLack d [] = Unit
AllLack d (f ∷ fs) = Lacks d f × AllLack d fs

fields_one : (f : Str) → Lacks 44 f → fields f ≡ f ∷ []
unfolding fields
fields_one [] l = refl
fields_one (c ∷ f) l = rw (l.0, fields, fields_one f l.1) refl

fields-append : (f s : Str) → Lacks 44 f → fields (f ++ (44 ∷ s)) ≡ f ∷ fields s
unfolding fields
fields-append [] s l = refl
fields-append (c ∷ f) s l = rw (l.0, fields, fields-append f s l.1) refl

-- Pairs without commas, at least one, joined by commas, are cut into the same pairs.
pub fields-join :
    (f : Str) (fs : List Str) → Lacks 44 f → AllLack 44 fs → fields (join (f ∷ fs)) ≡ f ∷ fs
unfolding join
fields-join f [] l ls = fields_one f l
fields-join f (g ∷ fs) l ls =
    fields-append f (join (g ∷ fs)) l ∙ ap (λ x. f ∷ x) (fields-join g fs ls.0 ls.1)

-- A key without spaces and without the sign =, not empty, and a value without spaces, joined by
-- =, are entered with success, and the key is then found with the value, whatever it had
-- before.
pub set_param-param :
    (k v : Str) (m : Params) (c : ℕ)
    → Lacks 61 (c ∷ k)
    → IsSolid (c ∷ k)
    → IsSolid v
    → (set_param ((c ∷ k) ++ (61 ∷ v)) m ≡ (put_param (c ∷ k) v m, ok))
      × (param (c ∷ k) (set_param ((c ∷ k) ++ (61 ∷ v)) m).0 ≡ some v)
unfolding set_param param enter_param put_param
set_param-param k v m c l sk sv =
    let e : set_param ((c ∷ k) ++ (61 ∷ v)) m ≡ (put_param (c ∷ k) v m, ok) =
      rw (cut-append 61 (c ∷ k) v l, set_param, strip_solid (c ∷ k) sk, strip_solid v sv) refl in
    (e, ap (λ (r : Params × Rc). param (c ∷ k) r.0) e ∙ ground (arith, same_str_refl (c ∷ k)))
