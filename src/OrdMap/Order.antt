-- ===== src/OrdMap/Order.antt =====
-- A map is kept in the strict order of its keys by every operation.
use flux_sched.Common.{◌≡◌, refl, [], ◌∷◌, none, some, Option-cases, inl, inr, arith, true}
use flux_sched.OrdMap.Less.{Key, same_iff}
use flux_sched.OrdMap.Defs.{OrdMap, find, add, insert, erase, assign, absorb, leftover}
use flux_sched.OrdMap.Find.{find-insert}

module _ {ℓ κ} {K : Type ℓ} {V : Type κ} ⦃o : Key K⦄ where
  -- Every key of `m` is greater than `k`.
  abbrev pub Above : K → OrdMap K V → Type 0
  Above k [] = Unit
  Above k ((j, v) ∷ m) = (o.less k j ≡ true) × Above k m

  abbrev pub IsSorted : OrdMap K V → Type 0
  IsSorted [] = Unit
  IsSorted ((j, v) ∷ m) = Above j m × IsSorted m

  pub Above-trans : (a b : K) (m : OrdMap K V) → o.less a b ≡ true → Above b m → Above a m
  Above-trans a b [] h s = tt
  Above-trans a b ((j, v) ∷ m) h s = (o.less_trans a b j h s.0, Above-trans a b m h s.1)

  pub find-Above : (k : K) (m : OrdMap K V) → Above k m → find k m ≡ none
  unfolding find
  find-Above k [] s = refl
  find-Above k ((j, v) ∷ m) s = ground (arith, find-Above k m s.1)

  Above-add :
      (a k : K) (v : V) (m : OrdMap K V) → o.less a k ≡ true → Above a m → Above a (add k v m)
  unfolding add
  Above-add a k v [] h s = (h, tt)
  Above-add a k v ((j, w) ∷ m) h s = ground (arith, Above-add a k v m h s.1)

  Above-erase : (a k : K) (m : OrdMap K V) → Above a m → Above a (erase k m)
  unfolding erase
  Above-erase a k [] s = tt
  Above-erase a k ((j, w) ∷ m) s = ground (arith, Above-erase a k m s.1)

  Above-assign : (a k : K) (v : V) (m : OrdMap K V) → Above a m → Above a (assign k v m)
  unfolding assign
  Above-assign a k v [] s = tt
  Above-assign a k v ((j, w) ∷ m) s = ground (arith, Above-assign a k v m s.1)

  pub add-IsSorted :
      (k : K) (v : V) (m : OrdMap K V) → find k m ≡ none → IsSorted m → IsSorted (add k v m)
  unfolding add find
  add-IsSorted k v [] h s = (tt, tt)
  add-IsSorted k v ((j, w) ∷ m) h s = ground (
    arith,
    add-IsSorted k v m,
    Above-trans k j m,
    Above-add j k v m,
    same_iff j k,
    o.eq_of_incomparable j k,
  )

  pub erase-IsSorted : (k : K) (m : OrdMap K V) → IsSorted m → IsSorted (erase k m)
  unfolding erase
  erase-IsSorted k [] s = tt
  erase-IsSorted k ((j, w) ∷ m) s = ground (arith, erase-IsSorted k m s.1, Above-erase j k m s.0)

  pub assign-IsSorted : (k : K) (v : V) (m : OrdMap K V) → IsSorted m → IsSorted (assign k v m)
  unfolding assign
  assign-IsSorted k v [] s = tt
  assign-IsSorted k v ((j, w) ∷ m) s =
      ground (arith, assign-IsSorted k v m s.1, Above-assign j k v m s.0)

  pub insert-IsSorted : (k : K) (v : V) (m : OrdMap K V) → IsSorted m → IsSorted (insert k v m).0
  unfolding insert
  insert-IsSorted k v m s = elim (Option-cases (find k m)) [
    | inl e ↦ rw (e, insert) (add-IsSorted k v m e s)
    | inr (w, e) ↦ rw (e, insert) s
  ]

  pub absorb-IsSorted : (m other : OrdMap K V) → IsSorted m → IsSorted (absorb m other)
  unfolding absorb
  absorb-IsSorted m [] s = s
  absorb-IsSorted m ((k, v) ∷ other) s =
      absorb-IsSorted (insert k v m).0 other (insert-IsSorted k v m s)

  -- No key of `other` is one of `m`.
  abbrev pub Disjoint : OrdMap K V → OrdMap K V → Type (ℓ ⊔ κ)
  Disjoint m other = (k : K) (v : V) → find k other ≡ some v → find k m ≡ none

  Disjoint-head :
      (k : K) (v : V) (m other : OrdMap K V) → Disjoint m ((k, v) ∷ other) → find k m ≡ none
  unfolding find
  Disjoint-head k v m other d = d k v (ground (arith, same_iff k k))

  Disjoint-tail :
      (k : K) (v : V) (m other : OrdMap K V)
      → Above k other
      → Disjoint m ((k, v) ∷ other)
      → Disjoint (insert k v m).0 other
  unfolding find
  Disjoint-tail k v m other a d j w e =
      ground (arith, d j w, find-insert k j v m, same_iff k j, find-Above k other a)

  -- `m.merge (other)` empties `other` where the two share no key.
  pub leftover-eq-nil :
      (m other : OrdMap K V) → IsSorted other → Disjoint m other → leftover m other ≡ []
  unfolding leftover
  leftover-eq-nil m [] s d = refl
  leftover-eq-nil m ((k, v) ∷ other) s d =
      rw (Disjoint-head k v m other d, leftover)
        (leftover-eq-nil (insert k v m).0 other s.1 (Disjoint-tail k v m other s.0 d))
