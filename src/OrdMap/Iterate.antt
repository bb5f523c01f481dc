-- ===== src/OrdMap/Iterate.antt =====
-- Walking a map by its iterators: how many elements an iterator still has before the end.
use flux_sched.Common.{
  ℕ, suc, ◌≡◌, refl, ◌≢◌, [], ◌∷◌, none, some, Option, if◌then◌else◌, arith, true, false, length,
  Bool-cases, inl, inr, ap, ◌∙◌,
}
use flux_sched.OrdMap.Less.{Key, same_iff, less_asymm}
use flux_sched.OrdMap.Defs.{OrdMap, find, erase, begin, next}
use flux_sched.OrdMap.Order.{Above, IsSorted, Above-trans}

module _ {ℓ κ} {K : Type ℓ} {V : Type κ} ⦃o : Key K⦄ where
  -- The elements with a key above `k`.
  pub after : K → OrdMap K V → ℕ
  after k [] = 0
  after k ((j, v) ∷ m) = if o.less k j then suc (after k m) else after k m

  -- The elements from the iterator on, an iterator being the key of its element.
  abbrev pub remaining : Option K → OrdMap K V → ℕ
  remaining none m = 0
  remaining (some k) m = suc (after k m)

  after-Above : (k : K) (m : OrdMap K V) → Above k m → after k m ≡ length m
  unfolding after
  after-Above k [] a = refl
  after-Above k ((j, v) ∷ m) a = ground (arith, after-Above k m a.1)

  next-Above :
      (a k : K) (m : OrdMap K V) (j : K) → Above a m → next k m ≡ some j → o.less a j ≡ true
  unfolding next
  next-Above a k [] j s e = cc
  next-Above a k ((i, v) ∷ m) j s e = ground (arith, next-Above a k m j s.1)

  pub less_of_next : (k : K) (m : OrdMap K V) (j : K) → next k m ≡ some j → o.less k j ≡ true
  unfolding next
  less_of_next k [] j e = cc
  less_of_next k ((i, v) ∷ m) j e = ground (arith, less_of_next k m j)

  -- An element below the iterator is not counted.
  remaining-cons :
      (j : K) (v : V) (m : OrdMap K V) (it : Option K)
      → ((k : K) → it ≡ some k → o.less j k ≡ true)
      → remaining it ((j, v) ∷ m) ≡ remaining it m
  unfolding after
  remaining-cons j v m none h = refl
  remaining-cons j v m (some k) h = rw (less_asymm j k (h k refl))

  -- One step of an iterator leaves the elements above it.
  pub remaining-next : (k : K) (m : OrdMap K V) → IsSorted m → remaining (next k m) m ≡ after k m
  unfolding next after
  remaining-next k [] s = refl
  remaining-next k ((j, v) ∷ m) s = elim (Bool-cases (o.less k j)) [
    | inl above ↦
        rw (above, after)
          (ground (
            arith,
            o.less_irrefl j,
            after-Above j m s.0,
            after-Above k m (Above-trans k j m above s.0),
          ))
    | inr below ↦
        rw (below, after)
          (remaining-cons j v m (next k m) (λ i e. next-Above j k m i s.0 e)
            ∙ remaining-next k m s.1)
  ]

  after-erase : (a k : K) (m : OrdMap K V) → o.less a k ≡ false → after a (erase k m) ≡ after a m
  unfolding erase after
  after-erase a k [] h = refl
  after-erase a k ((j, v) ∷ m) h = ground (arith, after-erase a k m h, same_iff j k)

  -- So does a step after which the element stepped over is erased.
  pub remaining-next-erase :
      (k : K) (m : OrdMap K V) → IsSorted m → remaining (next k m) (erase k m) ≡ after k m
  remaining-next-erase k m s =
      erase_remaining (next k m) (λ j e. less_of_next k m j e) ∙ remaining-next k m s
    where
      erase_remaining :
          (it : Option K)
          → ((j : K) → it ≡ some j → o.less k j ≡ true)
          → remaining it (erase k m) ≡ remaining it m
      erase_remaining none h = refl
      erase_remaining (some j) h = ap suc (after-erase j k m (less_asymm k j (h j refl)))

  pub find-next : (k : K) (m : OrdMap K V) (j : K) → next k m ≡ some j → find j m ≢ none
  unfolding next find
  find-next k [] j e = cc
  find-next k ((i, v) ∷ m) j e = ground (arith, find-next k m j, same_iff i j)

  pub find-begin : (m : OrdMap K V) (j : K) → begin m ≡ some j → find j m ≢ none
  unfolding begin find
  find-begin [] j e = cc
  find-begin ((i, v) ∷ m) j e = ground (arith, same_iff i j)
