-- ===== src/Planner/Reaching.antt =====
-- resource/planner/c/planner_c_interface.cpp: the search of avail_at ends at a time that fits
-- where it can find one.
use flux_sched.Common.{
  ℕ, zero, suc, ◌≡◌, ◌<◌, ◌≤◌, ◌+◌, ◌≢◌, ◌⊎◌, refl, sym, subst, Bool, true, false, not, [], ◌∷◌,
  Option, none, some, if◌then◌else◌, if_intro, ltb, arith, ◌&&◌, inl, inr, Bool-cases,
}
use flux_sched.OrdMap.{OrdMap, nat_key, find, same, same_iff}
use flux_sched.OrdMap.Find.{find-erase_ne}
use flux_sched.OrdMap.Order.{IsSorted, Above, erase-IsSorted}
use flux_sched.Planner.State.{Planner, Result, ok, crash, max_time, no_time, two_63, later, less64}
use flux_sched.Planner.Points.{state_from, get_mintime, mt_tree_remove, track_points}
use flux_sched.Planner.Avail.{
  holds, retire, span_ok, end_of_turn, Turn, again, done, avail_turn, avail_at, run_avail_at,
  fuel_of, answer,
}
use flux_sched.Planner.View.{SameView, SameView-trans}
use flux_sched.Planner.Describes.{holds_iff}
use flux_sched.Planner.Sound.{IsSound, IsSound-SameView, spans-Steady}
use flux_sched.Planner.Fits.{Fits, later-plain}
use flux_sched.Planner.Search.{retire-SameView, Fits-back, SameFrame-sym, found-fits}
use flux_sched.Planner.Found.{avail_at-some}

Above-find : (j k v : ℕ) (m : OrdMap ℕ ℕ) → Above j m → find k m ≡ some v → j < k
unfolding find
Above-find j k v [] above e = cc
Above-find j k v ((i, w) ∷ m) above e =
    ground (arith, e, above.0, same_iff i k, Above-find j k v m above.1)

-- The first entry is the one that is found, or it comes before that one.
head_or_later :
    (j v latest free : ℕ) (m : OrdMap ℕ ℕ)
    → Above j m
    → find latest ((j, v) ∷ m) ≡ some free
    → ((j ≡ latest) × (v ≡ free)) ⊎ ((j < latest) × (find latest m ≡ some free))
unfolding find
head_or_later j v latest free m above e = elim (Bool-cases (same j latest)) [
  | inl here ↦ inl (ground (arith, e, here, same_iff j latest))
  | inr later_on ↦
      let rest : find latest m ≡ some free = ground (arith, e, later_on) in
      inr (Above-find j latest free m above rest, rest)
]

not_missed : (b c : Bool) → b ≡ false → c ≡ true → (not b && c) ≡ false → ⊥
not_missed b c e h miss = ground (arith, e, h, miss)

-- The search of the mintime tree finds something that is not after an entry that it can find.
get_mintime-le :
    (request latest free : ℕ) (m : OrdMap ℕ ℕ)
    → IsSorted m
    → find latest m ≡ some free
    → less64 free request ≡ false
    → latest < max_time
    → (start : ℕ) × (get_mintime request m ≡ some start) × (start ≤ latest)
unfolding get_mintime find
get_mintime-le request latest free [] sorted e enough lt = absurd (ground (arith, e))
get_mintime-le request latest free ((j, v) ∷ m) sorted e enough lt =
    elim (Bool-cases (not (less64 v request) && ltb j max_time)) [
      | inl hit ↦
          rw (hit, get_mintime) (j, refl, not_after (head_or_later j v latest free m sorted.0 e))
      | inr miss ↦
          rw (miss, get_mintime)
            (get_mintime-le request latest free m sorted.1
              (further miss (head_or_later j v latest free m sorted.0 e)) enough lt)
    ]
  where
    not_after :
        ((j ≡ latest) × (v ≡ free)) ⊎ ((j < latest) × (find latest m ≡ some free)) → j ≤ latest
    not_after (inl (same_time, _)) = omega (arith, same_time)
    not_after (inr (lt, _)) = omega (arith, lt)

    further :
        (not (less64 v request) && ltb j max_time) ≡ false
        → ((j ≡ latest) × (v ≡ free)) ⊎ ((j < latest) × (find latest m ≡ some free))
        → find latest m ≡ some free
    further miss (inl (same_time, same_free)) = absurd (
        not_missed (less64 v request) (ltb j max_time)
          (subst (λ (x : ℕ). less64 x request ≡ false) (sym same_free) enough)
          (ground (arith, same_time, lt)) miss)
    further miss (inr (_, rest)) = rest

module _ (on_or_after duration request : ℕ) (pos : 1 ≤ duration) (small : request < two_63)
    (latest free : ℕ) (enough : less64 free request ≡ false) (late : on_or_after ≤ latest)
    (before_max : latest < max_time) where
  -- The request fits from `latest` on, and the mintime tree has the point there.
  pub record Ready (s : Planner) : Type 0 where
    pub sound : IsSound s
    pub begins : s.plan_start ≤ on_or_after
    pub sorted : IsSorted s.mt_resource_tree
    pub listed : find latest s.mt_resource_tree ≡ some free
    pub fits : Fits latest duration request s

  abbrev pub Ends : Planner → Planner → ℕ → Type 0
  Ends s t at = SameView s t × (on_or_after ≤ at) × (at ≤ latest) × Fits at duration request s

  abbrev TurnEnds : Planner → Turn → Type 0
  TurnEnds s (again at t) = SameView s t × Ready t
  TurnEnds s (done at t) = Ends s t at

  retire-Ready : (at : ℕ) {s : Planner} → at ≢ latest → Ready s → Ready (retire at s)
  unfolding retire mt_tree_remove track_points
  retire-Ready at {s} ne r =
      let v = retire-SameView at s in
      record {
        sound = IsSound-SameView v r.sound;
        begins = ground (arith, r.begins, v.frame.same_start);
        sorted = erase-IsSorted at s.mt_resource_tree r.sorted;
        listed = rw (find-erase_ne at latest s.mt_resource_tree ne) r.listed;
        fits = Fits-back latest duration request (SameFrame-sym v.frame) r.fits;
      }

  holds_there :
      {s : Planner}
      → Ready s
      → holds (later latest duration) request (state_from latest s.sched_points) ≡ true
  holds_there {s} r =
      let h = r.sound in
      rw (later-plain latest duration s h r.fits.in_plan) (
        (holds_iff s.sched_points h.points.sorted h.points.tells (spans-Steady s.span_lookup)
            h.small latest (latest + duration) request r.fits.from_start small
            (ground (arith, pos))).1
          r.fits.free)

  visit-TurnEnds :
      (at : ℕ) (s : Planner)
      → at ≤ latest
      → Ready s
      → TurnEnds s (
          if ltb at on_or_after
          then again no_time (retire at s)
          else end_of_turn at duration (span_ok at duration request s))
  unfolding span_ok end_of_turn
  visit-TurnEnds at s le r =
      let v = retire-SameView at s in
      let fit : at + duration ≤ s.plan_end = ground (arith, le, r.fits.in_plan) in
      if_intro (TurnEnds s) (ltb at on_or_after)
        (λ early. (v, retire-Ready at (λ same. ground (arith, early, late, same)) r))
        (λ not_before.
          if_intro (λ (x : Planner × Bool). TurnEnds s (end_of_turn at duration x))
            (holds (later at duration) request (state_from at s.sched_points))
            (λ held.
              let inside : ltb s.plan_end (later at duration) ≡ false =
                rw (later-plain at duration s r.sound fit) (ground (arith, fit)) in
              let (not_early, fits) =
                found-fits on_or_after duration request pos small at s r.sound r.begins not_before
                  held inside in
              subst (λ (x : ℕ). Ends s (retire at s) x) (ground (arith, inside))
                (v, not_early, le, fits (ground (arith, fit, r.sound.end_small))))
            (λ fails. (
              v,
              retire-Ready at
                  (λ same_time.
                    differ
                      (subst
                        (λ (x : ℕ).
                          holds (later x duration) request (state_from x s.sched_points) ≡ false)
                        same_time fails)
                      (holds_there r))
                  r,
            )))
    where
      differ : {b : Bool} → b ≡ false → b ≡ true → ⊥
      differ e h = cc

  avail_turn-TurnEnds :
      (at : ℕ) (s : Planner) → Ready s → TurnEnds s (avail_turn on_or_after duration request at s)
  unfolding avail_turn
  avail_turn-TurnEnds at s r =
      let (start, found, le) =
        get_mintime-le request latest free s.mt_resource_tree r.sorted r.listed enough before_max in
      rw (found, avail_turn) (visit-TurnEnds start s le r)

  Ends-back : {s t u : Planner} {at : ℕ} → SameView s t → Ends t u at → Ends s u at
  Ends-back {at = at} v (w, not_early, le, fits) =
      (SameView-trans v w, not_early, le, Fits-back at duration request v.frame fits)

  abbrev AllEnds : Planner → Option (Planner × ℕ) → Type 0
  AllEnds s none = Unit
  AllEnds s (some (t, at)) = Ends s t at

  AllEnds-back :
      {s t : Planner} (r : Option (Planner × ℕ)) → SameView s t → AllEnds t r → AllEnds s r
  AllEnds-back none v x = tt
  AllEnds-back (some (u, at)) v x = Ends-back v x

  avail_at-AllEnds :
      (n at : ℕ) (s : Planner) → Ready s → AllEnds s (avail_at n on_or_after duration request at s)
  unfolding avail_at
  avail_at-AllEnds zero at s r = tt
  avail_at-AllEnds (suc n) at s r =
      go (avail_turn on_or_after duration request at s) (avail_turn-TurnEnds at s r)
        (λ a t. avail_at-AllEnds n a t)
    where
      go :
          (turn : Turn)
          → TurnEnds s turn
          → ((a : ℕ) (t : Planner)
              → Ready t
              → AllEnds t (avail_at n on_or_after duration request a t))
          → AllEnds s (elim turn [
            | again at1 s1 ↦ avail_at n on_or_after duration request at1 s1
            | done at1 s1 ↦ some (s1, at1)
          ])
      go (again a t) (v, ready) ih =
          AllEnds-back (avail_at n on_or_after duration request a t) v (ih a t ready)
      go (done a t) x ih = x

  abbrev pub Succeeds : Planner → Planner × Result ℕ → Type 0
  Succeeds s r = (t : Planner) × (at : ℕ) × (r ≡ (t, ok at)) × Ends s t at

  pub run-Succeeds :
      (s : Planner)
      → Ready s
      → no_time < on_or_after
      → Succeeds s (run_avail_at on_or_after duration request s)
  unfolding run_avail_at
  run-Succeeds s r real =
      go (avail_at (fuel_of s) on_or_after duration request no_time s)
        (avail_at-AllEnds (fuel_of s) no_time s r)
        (avail_at-some on_or_after duration request (fuel_of s) no_time s (ground arith))
    where
      go :
          (o : Option (Planner × ℕ))
          → AllEnds s o
          → o ≢ none
          → Succeeds s (elim o [ none ↦ (s, crash) | some (s1, t) ↦ (s1, answer t) ])
      go none x n = absurd (n refl)
      go (some (t, at)) x n = (t, at, ground (arith, x.1, real), x)
