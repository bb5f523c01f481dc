-- ===== src/Remapper/Query.antt =====
-- resource/readers/resource_namespace_remapper.cpp: what a query finds after an addition.
use flux_sched.Common.{
  ℕ, ◌≡◌, refl, ◌∙◌, ap, ◌<◌, ◌≤◌, ◌⊎◌, inl, inr, true, [], ◌∷◌, Option, none, some, if_intro, ltb,
  arith, Option-cases,
}
use flux_sched.OrdMap.{OrdMap, find, add, nat_key}
use flux_sched.OrdMap.Find.{find-add_self, insert_fresh, insert_taken}
use flux_sched.Queue.State.{Rc, ok}
use flux_sched.Queue.Params.{Str, same_str}
use flux_sched.Remapper.{
  DistinctRange, same_range, point, Names, Remap, find_range, put_range, find_name, put_name,
  add_id, add_found, add_range, add_remap, query,
}

same_str_refl : (s : Str) → same_str s s ≡ true
unfolding same_str
same_str_refl [] = refl
same_str_refl (c ∷ s) = ground (arith, same_str_refl s)

find_name-put_name :
    (name : Str) (ids : OrdMap ℕ ℕ) (m : Names) → find_name name (put_name name ids m) ≡ ids
unfolding find_name put_name
find_name-put_name name ids [] = ground (arith, same_str_refl name)
find_name-put_name name ids ((n, w) ∷ m) = ground (arith, find_name-put_name name ids m)

-- The names that stand at a target.
abbrev names_at : ℕ → Remap → Option Names
names_at p m = elim (find_range (point p) m) [ none ↦ none | some (r, v) ↦ some v ]

module _ (x : DistinctRange) (v : Names) where
  -- Within the range, the names are those that were written.
  names_at-put_range :
      (p : ℕ) (m : Remap)
      → x.low ≤ p
      → p ≤ x.high
      → ((r : DistinctRange) (w : Names) → find_range x m ≡ some (r, w) → same_range x r ≡ true)
      → names_at p (put_range x v m) ≡ some v
  unfolding find_range put_range
  names_at-put_range p [] l h e = ground (arith, l, h)
  names_at-put_range p ((r, w) ∷ m) l h e = ground (arith, l, h, e r w, names_at-put_range p m)

  -- Outside of the range, the names are those that were there.
  names_at-put_range_other :
      (p : ℕ) (m : Remap)
      → x.low ≤ x.high
      → (p < x.low) ⊎ (x.high < p)
      → ((r : DistinctRange) (w : Names) → find_range x m ≡ some (r, w) → same_range x r ≡ true)
      → names_at p (put_range x v m) ≡ names_at p m
  unfolding find_range put_range
  names_at-put_range_other p [] o out e = ground (arith, o, out)
  names_at-put_range_other p ((r, w) ∷ m) o out e =
      ground (arith, o, out, e r w, names_at-put_range_other p m)

-- What a successful addition has done.
abbrev Written : DistinctRange → Str → ℕ → ℕ → Remap → Remap → Type 0
Written x name ref_id remapped m m' =
    (v : Names) × (find ref_id (find_name name v) ≡ some remapped)
    × (m' ≡ put_range x v m)
    × ((r : DistinctRange) (w : Names) → find_range x m ≡ some (r, w) → same_range x r ≡ true)

module _ (x : DistinctRange) (name : Str) (ref_id remapped : ℕ) (m : Remap) where
  add_id-Written :
      (names : Names)
      → ((r : DistinctRange) (w : Names) → find_range x m ≡ some (r, w) → same_range x r ≡ true)
      → (add_id x name ref_id remapped names m).1 ≡ ok
      → Written x name ref_id remapped m (add_id x name ref_id remapped names m).0
  unfolding add_id
  add_id-Written names exact = elim (Option-cases (find ref_id (find_name name names))) [
    | inl free ↦
        rw (insert_fresh ref_id remapped (find_name name names) free, add_id)
          (λ good. (
            put_name name (add ref_id remapped (find_name name names)) names,
            ap (λ ids. find ref_id ids)
                  (find_name-put_name name (add ref_id remapped (find_name name names)) names)
                ∙ find-add_self ref_id remapped (find_name name names) free,
            refl,
            exact,
          ))
    | inr (i, taken) ↦
        rw (insert_taken ref_id remapped i (find_name name names) taken, add_id)
          (λ good. absurd (cc))
  ]

  add_found-Written :
      (o : Option (DistinctRange × Names))
      → find_range x m ≡ o
      → (add_found o x name ref_id remapped m).1 ≡ ok
      → Written x name ref_id remapped m (add_found o x name ref_id remapped m).0
  unfolding add_found
  add_found-Written none new = add_id-Written [] (λ r w e. absurd (ground (arith, new, e)))
  add_found-Written (some (r, names)) old =
      if_intro (λ (z : Remap × Rc). z.1 ≡ ok → Written x name ref_id remapped m z.0)
        (same_range x r) (λ exact. add_id-Written names (λ r' w e. ground (arith, old, e, exact)))
        (λ _ good. absurd (cc))

  add_range-Written :
      (add_range x name ref_id remapped m).1 ≡ ok
      → Written x name ref_id remapped m (add_range x name ref_id remapped m).0
  unfolding add_range
  add_range-Written = add_found-Written (find_range x m) refl

query_of_names :
    (p : ℕ) (name : Str) (ref_id : ℕ) (m : Remap) (v : Names)
    → names_at p m ≡ some v
    → query p name ref_id m ≡ find ref_id (find_name name v)
unfolding query
query_of_names p name ref_id m v e = ground (arith, e)

query_cong :
    (p : ℕ) (name : Str) (ref_id : ℕ) (m m' : Remap)
    → names_at p m' ≡ names_at p m
    → query p name ref_id m' ≡ query p name ref_id m
unfolding query
query_cong p name ref_id m m' e = ground (arith, e)

-- Where an addition to a range of targets succeeds, the query at any target of the range finds
-- what was added, and the queries at the targets outside of the range find what they found
-- before.
pub add_remap-query :
    (low high : ℕ) (name : Str) (ref_id remapped : ℕ) (m : Remap)
    → (add_remap low high name ref_id remapped m).1 ≡ ok
    → ((p : ℕ)
        → low ≤ p
        → p ≤ high
        → query p name ref_id (add_remap low high name ref_id remapped m).0 ≡ some remapped)
      × ((p : ℕ) (name' : Str) (ref' : ℕ)
          → (p < low) ⊎ (high < p)
          → query p name' ref' (add_remap low high name ref_id remapped m).0 ≡ query p name' ref' m)
unfolding add_remap
add_remap-query low high name ref_id remapped m =
    if_intro
      (λ (z : Remap × Rc).
        z.1 ≡ ok
        → ((p : ℕ) → low ≤ p → p ≤ high → query p name ref_id z.0 ≡ some remapped)
          × ((p : ℕ) (name' : Str) (ref' : ℕ)
              → (p < low) ⊎ (high < p)
              → query p name' ref' z.0 ≡ query p name' ref' m))
      (ltb high low) (λ _ good. absurd (cc))
      (λ in_order good.
        let x : DistinctRange = record { low = low; high = high } in
        let (v, found, e, exact) = add_range-Written x name ref_id remapped m good in
        (
          λ p l h.
              query_of_names p name ref_id (add_range x name ref_id remapped m).0 v
                (ap (names_at p) e ∙ names_at-put_range x v p m l h exact)
              ∙ found,
          λ p name' ref' out. query_cong p name' ref' m (add_range x name ref_id remapped m).0 (
              ap (names_at p) e
              ∙ names_at-put_range_other x v p m (ground (arith, in_order)) out exact),
        ))
