-- ===== src/OrdMap/Find.antt =====
-- What a lookup finds after each operation of a map.
use flux_sched.Common.{
  ◌≡◌, refl, [], ◌∷◌, none, some, if◌then◌else◌, Option-cases, inl, inr, arith, Option, true, false,
  ◌≢◌,
}
use flux_sched.OrdMap.Less.{Key, same, same_iff, same_ne, same_refl}
use flux_sched.OrdMap.Defs.{OrdMap, find, add, insert, erase, assign, absorb}

abbrev pub or_else {ℓ} : {A : Type ℓ} → Option A → Option A → Option A
or_else none b = b
or_else (some a) b = some a

module _ {ℓ κ} {K : Type ℓ} {V : Type κ} ⦃o : Key K⦄ where
  pub find-nil : (k : K) → find {K = K} {V = V} k [] ≡ none
  unfolding find
  find-nil k = refl

  pub find-add :
      (k j : K) (v : V) (m : OrdMap K V)
      → find k m ≡ none
      → find j (add k v m) ≡ (if same k j then some v else find j m)
  unfolding find add
  find-add k j v [] h = refl
  find-add k j v ((i, w) ∷ m) h =
      ground (arith, same_iff k j, same_iff i j, same_iff i k, find-add k j v m)

  pub find-erase :
      (k j : K) (m : OrdMap K V) → find j (erase k m) ≡ (if same k j then none else find j m)
  unfolding find erase
  find-erase k j [] = ground arith
  find-erase k j ((i, w) ∷ m) =
      ground (arith, same_iff k j, same_iff i j, same_iff i k, find-erase k j m)

  pub find-assign :
      (k j : K) (v w : V) (m : OrdMap K V)
      → find k m ≡ some w
      → find j (assign k v m) ≡ (if same k j then some v else find j m)
  unfolding find assign
  find-assign k j v w [] h = cc
  find-assign k j v w ((i, u) ∷ m) h =
      ground (arith, same_iff k j, same_iff i j, same_iff i k, find-assign k j v w m)

  pub find-insert :
      (k j : K) (v : V) (m : OrdMap K V)
      → find j (insert k v m).0 ≡ or_else (find j m) (if same k j then some v else none)
  unfolding insert
  find-insert k j v m = elim (Option-cases (find k m)) [
    | inl e ↦ ground (arith, e, find-add k j v m, same_iff k j)
    | inr (w, e) ↦ ground (arith, e, same_iff k j)
  ]

  pub insert_fresh :
      (k : K) (v : V) (m : OrdMap K V) → find k m ≡ none → insert k v m ≡ (add k v m, true)
  unfolding insert
  insert_fresh k v m h = rw (h, insert)

  pub insert_taken :
      (k : K) (v w : V) (m : OrdMap K V) → find k m ≡ some w → insert k v m ≡ (m, false)
  unfolding insert
  insert_taken k v w m h = rw (h, insert)

  -- An entry of the target hides one of the source.
  pub find-absorb :
      (j : K) (m other : OrdMap K V) → find j (absorb m other) ≡ or_else (find j m) (find j other)
  unfolding find absorb
  find-absorb j m [] = ground arith
  find-absorb j m ((k, v) ∷ other) =
      ground (arith, find-absorb j (insert k v m).0 other, find-insert k j v m)

  -- The laws at the key itself and at another one.
  pub find-add_self :
      (k : K) (v : V) (m : OrdMap K V) → find k m ≡ none → find k (add k v m) ≡ some v
  find-add_self k v m h = rw (find-add k k v m h, same_refl k)

  pub find-add_ne :
      (k j : K) (v : V) (m : OrdMap K V) → k ≢ j → find k m ≡ none → find j (add k v m) ≡ find j m
  find-add_ne k j v m n h = rw (find-add k j v m h, same_ne k j n)

  pub find-erase_self : (k : K) (m : OrdMap K V) → find k (erase k m) ≡ none
  find-erase_self k m = rw (find-erase k k m, same_refl k)

  pub find-erase_ne : (k j : K) (m : OrdMap K V) → k ≢ j → find j (erase k m) ≡ find j m
  find-erase_ne k j m n = rw (find-erase k j m, same_ne k j n)
