-- ===== src/OrdMap/Defs.antt =====
-- The operations of `std::map` that the source calls.
use flux_sched.Common.{
  ℕ, Bool, true, false, List, [], ◌∷◌, Option, none, some, if◌then◌else◌, is_some,
}
use flux_sched.OrdMap.Less.{Key, same}

abbrev pub OrdMap {ℓ κ} : Type ℓ → Type κ → Type (ℓ ⊔ κ)
OrdMap K V = List (K × V)

module _ {ℓ κ} {K : Type ℓ} {V : Type κ} ⦃o : Key K⦄ where
  -- `m.find (k)`
  unfoldable pub find : K → OrdMap K V → Option V
  unfolding same
  find k [] = none
  find k ((j, v) ∷ m) = if same j k then some v else find k m

  -- A new entry at its place in the order.
  unfoldable pub add : K → V → OrdMap K V → OrdMap K V
  add k v [] = (k, v) ∷ []
  add k v ((j, w) ∷ m) = if o.less k j then (k, v) ∷ (j, w) ∷ m else (j, w) ∷ add k v m

  -- `m.insert ({k, v})` and `m.emplace (k, v)`: a key that is there keeps its value, and the
  -- Boolean is `res.second`.
  unfoldable pub insert : K → V → OrdMap K V → OrdMap K V × Bool
  insert k v m = elim (find k m) [ none ↦ (add k v m, true) | some _ ↦ (m, false) ]

  -- `m.erase (k)`; the number that it returns is `count k m`.
  unfoldable pub erase : K → OrdMap K V → OrdMap K V
  unfolding same
  erase k [] = []
  erase k ((j, v) ∷ m) = if same j k then erase k m else (j, v) ∷ erase k m

  unfoldable pub count : K → OrdMap K V → ℕ
  count k m = if is_some (find k m) then 1 else 0

  -- A write through `m[k]` or through the iterator at a key that is there.
  unfoldable pub assign : K → V → OrdMap K V → OrdMap K V
  unfolding same
  assign k v [] = []
  assign k v ((j, w) ∷ m) = if same j k then (j, v) ∷ m else (j, w) ∷ assign k v m

  -- `m.begin ()`, an iterator being the key of its element and `none` standing for `m.end ()`.
  unfoldable pub begin : OrdMap K V → Option K
  begin [] = none
  begin ((j, v) ∷ m) = some j

  -- `std::next (it)` of the iterator at `k`: the least key above it.
  unfoldable pub next : K → OrdMap K V → Option K
  next k [] = none
  next k ((j, v) ∷ m) = if o.less k j then some j else next k m

  -- `m.insert (other.begin (), other.end ())`, and the target of `m.merge (other)`.
  unfoldable pub absorb : OrdMap K V → OrdMap K V → OrdMap K V
  absorb m [] = m
  absorb m ((k, v) ∷ other) = absorb (insert k v m).0 other

  -- What `m.merge (other)` leaves in `other`: the entries whose key was taken.
  unfoldable pub leftover : OrdMap K V → OrdMap K V → OrdMap K V
  leftover m [] = []
  leftover m ((k, v) ∷ other) =
      if is_some (find k m) then (k, v) ∷ leftover m other else leftover (insert k v m).0 other
