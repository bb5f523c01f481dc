-- ===== src/Planner/Describes.antt =====
-- resource/planner: the points tell at every time what is used.
use flux_sched.Common.{
  ℕ, ◌≡◌, ◌≢◌, ◌<◌, ◌≤◌, ◌+◌, ◌↔◌, ◌⊎◌, refl, sym, ◌∙◌, ap, true, false, [], ◌∷◌, Option, none,
  some, if◌then◌else◌, if_intro, ltb, leb, ◌==◌, arith, inl, inr, Option-cases,
}
use flux_sched.OrdMap.{same_iff, nat_key, find}
use flux_sched.OrdMap.Order.{IsSorted}
use flux_sched.Planner.State.{Point, Points, two_63, less64}
use flux_sched.Planner.Points.{state_from}
use flux_sched.Planner.Avail.{holds}
use flux_sched.Planner.Walk.{
  Cut, state_from-some, find-walk, Cut-mono, find-low, find-skip, find-Above_lt,
}
use flux_sched.Planner.View.{Core, core, core_of, view_of}

abbrev pub base_ref : ℕ → ℕ → ℕ
base_ref start k = if start == k then 1 else 0

-- `u` is what is used at a time and `e` how many spans end at it: each point has that quantity scheduled
-- and the rest remaining, and its references are the ends; a span ends at points only.
pub record Describes (start total : ℕ) (f : ℕ → Option Core) (u e : ℕ → ℕ) : Type 0 where
  pub refs : (k r c m : ℕ) → f k ≡ some (r, c, m) → r ≡ e k + base_ref start k
  pub used : (k r c m : ℕ) → f k ≡ some (r, c, m) → c ≡ u k
  pub whole : (k r c m : ℕ) → f k ≡ some (r, c, m) → c + m ≡ total
  pub low : (k r c m : ℕ) → f k ≡ some (r, c, m) → start ≤ k
  pub gone : (k : ℕ) → f k ≡ none → e k ≡ 0
  pub based : f start ≢ none

-- As much is used at two times where no span ends in between.
abbrev pub Steady : (ℕ → ℕ) → (ℕ → ℕ) → Type 0
Steady u e = (j t : ℕ) → j ≤ t → ((k : ℕ) → j < k → k ≤ t → e k ≡ 0) → u j ≡ u t

pub view_of-some :
    (k : ℕ) (m : Points) (p : Point) → find k m ≡ some p → view_of m k ≡ some (core p)
view_of-some k m p e = ap core_of e

pub view_of-none : (k : ℕ) (m : Points) → find k m ≡ none → view_of m k ≡ none
view_of-none k m e = ap core_of e

pub less64-small : (a b : ℕ) → a < two_63 → b < two_63 → less64 a b ≡ ltb a b
unfolding less64
less64-small a b h k = ground arith

module _ {start total : ℕ} {m : Points} {u e : ℕ → ℕ} (s : IsSorted m)
    (d : Describes start total (view_of m) u e) (steady : Steady u e) where
  -- The point that the state at `at` is taken from has what is used at `at`.
  pub state-used :
      (at : ℕ)
      → start ≤ at
      → (j : ℕ) × (p : Point) × (l : Points) × (state_from at m ≡ (j, p) ∷ l)
        × Cut at m j p l
        × (p.scheduled ≡ u at)
        × (p.scheduled + p.remaining ≡ total)
  state-used at le = elim (Option-cases (find start m)) [
    | inl e0 ↦ absurd (d.based (view_of-none start m e0))
    | inr (q, e0) ↦
        let (j, p, l, eq, c) = state_from-some start at m q s e0 le in
        let v = view_of-some j m p c.here in
        (
          j,
          p,
          l,
          eq,
          c,
          d.used j p.ref_count p.scheduled p.remaining v
              ∙ steady j at c.not_after
                  (λ k a b. d.gone k (view_of-none k m (c.rest k a ∙ find-low k at l c.gap b))),
          d.whole j p.ref_count p.scheduled p.remaining v,
        )
  ]

-- The loop holds where every point before the end has the request free.
holds-all :
    (until request : ℕ) (l : Points) (k : ℕ) (p : Point)
    → IsSorted l
    → holds until request l ≡ true
    → find k l ≡ some p
    → k < until
    → less64 p.remaining request ≡ false
unfolding holds find
holds-all until request [] k p s h e lt = cc
holds-all until request ((j, q) ∷ l) k p s h e lt =
    ground (arith, holds-all until request l k p s.1, same_iff j k, find-Above_lt k j l p s.0)

holds-intro :
    (until request : ℕ) (l : Points)
    → IsSorted l
    → ((k : ℕ) (p : Point) → find k l ≡ some p → k < until → less64 p.remaining request ≡ false)
    → holds until request l ≡ true
unfolding holds find less64
holds-intro until request [] s h = refl
holds-intro until request ((j, q) ∷ l) s h =
    if_intro (λ b. b ≡ true) (leb until j) (λ _. refl)
      (λ lt.
        if_intro (λ b. b ≡ true) (less64 q.remaining request)
          (λ bad. absurd (ground (arith, h j q, bad, same_iff j j)))
          (λ _.
            holds-intro until request l s.1
              (λ k p e b. h k p (find-skip k j q l (find-Above_lt k j l p s.0 e) ∙ e) b)))

module _ (m : Points) {start total : ℕ} {u e : ℕ → ℕ} (s : IsSorted m)
    (d : Describes start total (view_of m) u e) (steady : Steady u e) (small : total < two_63)
    (at until request : ℕ) (le : start ≤ at) (fits : request < two_63) where
  enough :
      (k : ℕ) (p : Point)
      → find k m ≡ some p
      → (less64 p.remaining request ≡ false) ↔ (u k + request ≤ total)
  enough k p found =
      let v = view_of-some k m p found in
      let w = d.whole k p.ref_count p.scheduled p.remaining v in
      let h = less64-small p.remaining request (ground (arith, w, small)) fits in
      ground (arith, h, w, d.used k p.ref_count p.scheduled p.remaining v)

  holds_sound :
      holds until request (state_from at m) ≡ true
      → (t : ℕ) → at ≤ t
      → t < until
      → u t + request ≤ total
  holds_sound h t a b =
      let (j, p, l, eq, c, _, _) = state-used s d steady at le in
      let (i, q, r, _, c2, sched2, _) = state-used s d steady t (ground (arith, le, a)) in
      let past = Cut-mono at t m j i p q l r c c2 a in
      let all =
        holds-all until request ((j, p) ∷ l) i q c.sorted (ap (holds until request) (sym eq) ∙ h)
          (find-walk at m j p l c i past ∙ c2.here) (ground (arith, c2.not_after, b)) in
      ground (
        arith,
        (enough i q c2.here).0 all,
        sched2,
        d.used i q.ref_count q.scheduled q.remaining (view_of-some i m q c2.here),
      )

  holds_complete :
      at < until
      → ((t : ℕ) → at ≤ t → t < until → u t + request ≤ total)
      → holds until request (state_from at m) ≡ true
  unfolding find
  holds_complete lt h =
      let (j, p, l, eq, c, sched, _) = state-used s d steady at le in
      let j_used = d.used j p.ref_count p.scheduled p.remaining (view_of-some j m p c.here) in
      ap (holds until request) eq
      ∙ holds-intro until request ((j, p) ∷ l) c.sorted (λ k q found b.
        (enough k q (found_in j p l c k q found)).1
          (ground (arith, found, sched, j_used, h at, h k, b, lt, find-first j p l c k q found)))
    where
      find-first :
          (j : ℕ) (p : Point) (l : Points)
          → Cut at m j p l
          → (k : ℕ) (q : Point) → find k ((j, p) ∷ l) ≡ some q
          → (k ≡ j) ⊎ (at < k)
      find-first j p l c k q found =
          ground (arith, same_iff j k, found, find-Above_lt k at l q c.gap)

      found_in :
          (j : ℕ) (p : Point) (l : Points)
          → Cut at m j p l
          → (k : ℕ) (q : Point) → find k ((j, p) ∷ l) ≡ some q
          → find k m ≡ some q
      found_in j p l c k q found =
          sym (find-walk at m j p l c k (ground (arith, find-first j p l c k q found, c.not_after)))
          ∙ found

  pub holds_iff :
      at < until
      → (holds until request (state_from at m) ≡ true)
        ↔ ((t : ℕ) → at ≤ t → t < until → u t + request ≤ total)
  holds_iff lt = (holds_sound, holds_complete lt)
