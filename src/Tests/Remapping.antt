-- ===== src/Tests/Remapping.antt =====
-- resource/readers/resource_namespace_remapper.cpp: an addition to a range, and the queries after it.
use flux_sched.Common.{ℕ, ◌≡◌, refl, ◌≤◌, ◌<◌, ◌⊎◌, [], ◌∷◌, some}
use flux_sched.Queue.State.{ok}
use flux_sched.Queue.Params.{Str}
use flux_sched.Remapper.{Remap, add_remap, query}
use flux_sched.Remapper.Query.{add_remap-query}

-- The targets 4 to 7, where core 0 is core 2.
abbrev before_it : Remap
before_it = (add_remap 4 7 (99 ∷ []) 0 2 []).0

added : (add_remap 4 7 (99 ∷ []) 1 3 before_it).1 ≡ ok
unfolding add_remap flux_sched.OrdMap.add
added = refl

add_remap-query_example :
    ((p : ℕ)
      → 4 ≤ p
      → p ≤ 7
      → query p (99 ∷ []) 1 (add_remap 4 7 (99 ∷ []) 1 3 before_it).0 ≡ some 3)
    × ((p : ℕ) (name : Str) (ref : ℕ)
        → (p < 4) ⊎ (7 < p)
        → query p name ref (add_remap 4 7 (99 ∷ []) 1 3 before_it).0 ≡ query p name ref before_it)
add_remap-query_example = add_remap-query 4 7 (99 ∷ []) 1 3 before_it added
