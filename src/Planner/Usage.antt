-- ===== src/Planner/Usage.antt =====
-- resource/planner: what the spans of a planner use at a time, as the plain sum over the spans.
use flux_sched.Common.{
  ℕ, ◌≡◌, ◌<◌, ◌≤◌, ◌+◌, refl, ap, Bool, ◌&&◌, [], ◌∷◌, some, if◌then◌else◌, ltb, leb, ◌==◌, arith,
}
use flux_sched.OrdMap.{OrdMap, same_iff, same_ne, nat_key, find, add, erase, assign}
use flux_sched.OrdMap.Order.{Above, IsSorted}
use flux_sched.Planner.State.{Span}

abbrev Spans : Type 0
Spans = OrdMap ℕ Span

abbrev pub covers : ℕ → Span → Bool
covers t span = leb span.start t && ltb t span.last

abbrev pub use_of : ℕ → Span → ℕ
use_of t span = if covers t span then span.planned else 0

-- How many ends of the span are at `k`.
abbrev pub ends_of : ℕ → Span → ℕ
ends_of k span = (if span.start == k then 1 else 0) + (if span.last == k then 1 else 0)

unfoldable pub sum_of : (Span → ℕ) → OrdMap ℕ Span → ℕ
sum_of f [] = 0
sum_of f ((_, span) ∷ m) = f span + sum_of f m

abbrev pub usage : ℕ → OrdMap ℕ Span → ℕ
usage t spans = sum_of (use_of t) spans

abbrev pub ends : ℕ → OrdMap ℕ Span → ℕ
ends k spans = sum_of (ends_of k) spans

pub sum_of-add :
    (f : Span → ℕ) (k : ℕ) (span : Span) (m : Spans) → sum_of f (add k span m) ≡ f span + sum_of f m
unfolding sum_of add
sum_of-add f k span [] = refl
sum_of-add f k span ((j, v) ∷ m) = ground (arith, sum_of-add f k span m)

erase-Above : (k : ℕ) (m : Spans) → Above k m → erase k m ≡ m
unfolding erase
erase-Above k [] s = refl
erase-Above k ((j, v) ∷ m) s =
    rw (same_ne j k (ground (arith, s.0))) (ap (λ r. (j, v) ∷ r) (erase-Above k m s.1))

pub sum_of-erase :
    (f : Span → ℕ) (k : ℕ) (span : Span) (m : Spans)
    → IsSorted m
    → find k m ≡ some span
    → sum_of f m ≡ f span + sum_of f (erase k m)
unfolding sum_of erase find
sum_of-erase f k span [] s e = cc
sum_of-erase f k span ((j, v) ∷ m) s e =
    ground (arith, e, same_iff j k, sum_of-erase f k span m s.1, erase-Above j m s.0)

pub sum_of-assign :
    (f : Span → ℕ) (k : ℕ) (old new : Span) (m : Spans)
    → find k m ≡ some old
    → f old + sum_of f (assign k new m) ≡ f new + sum_of f m
unfolding sum_of assign find
sum_of-assign f k old new [] e = cc
sum_of-assign f k old new ((j, v) ∷ m) e =
    ground (arith, e, same_iff j k, sum_of-assign f k old new m)

-- Where no span ends in between, as much is used at both times.
use_of-steady :
    (j t : ℕ) (span : Span)
    → j ≤ t
    → ((k : ℕ) → j < k → k ≤ t → ends_of k span ≡ 0)
    → use_of j span ≡ use_of t span
use_of-steady j t span le h = ground (arith, h span.start, h span.last)

pub usage-steady :
    (j t : ℕ) (m : Spans) → j ≤ t → ((k : ℕ) → j < k → k ≤ t → ends k m ≡ 0) → usage j m ≡ usage t m
unfolding sum_of
usage-steady j t [] le h = refl
usage-steady j t ((i, span) ∷ m) le h = ground (
  arith,
  use_of-steady j t span le (λ k a b. ground (arith, h k a b)),
  usage-steady j t m le (λ k a b. ground (arith, h k a b)),
)
