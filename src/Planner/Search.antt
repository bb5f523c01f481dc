-- ===== src/Planner/Search.antt =====
-- resource/planner/c/planner_c_interface.cpp: the search of avail_at finds a time that fits.
use flux_sched.Common.{
  ℕ, zero, suc, ◌≡◌, ◌<◌, ◌≤◌, ◌+◌, ◌⊎◌, refl, sym, subst, ap, Bool, true, false, [], ◌∷◌, Option,
  none, some, if◌then◌else◌, if_intro, ltb, arith, inl, inr, length,
}
use flux_sched.OrdMap.{OrdMap, nat_key, erase, same_iff}
use flux_sched.Planner.State.{Planner, no_time, two_63, two_64, later}
use flux_sched.Planner.Points.{state_from, get_mintime, track_points}
use flux_sched.Planner.Avail.{
  holds, retire, span_ok, end_of_turn, Turn, again, done, avail_turn, avail_at,
}
use flux_sched.Planner.Usage.{usage}
use flux_sched.Planner.View.{
  SameFrame, SameView, SameView-refl, SameView-trans, mt_tree_remove-SameView,
}
use flux_sched.Planner.Describes.{holds_iff}
use flux_sched.Planner.Sound.{IsSound, IsSound-SameView, spans-Steady}
use flux_sched.Planner.Fits.{Fits, later-plain}

pub retire-SameView : (at : ℕ) (s : Planner) → SameView s (retire at s)
unfolding retire track_points
retire-SameView at s =
    let v = mt_tree_remove-SameView at s in
    record {
      frame = record {
        same_spans = v.frame.same_spans;
        same_total = v.frame.same_total;
        same_start = v.frame.same_start;
        same_end = v.frame.same_end;
        same_counter = v.frame.same_counter;
      };
      same_view = v.same_view;
      still_sorted = v.still_sorted;
    }

-- What fits a planner fits one with the same spans.
pub Fits-back :
    {s t : Planner} (at duration request : ℕ)
    → SameFrame s t
    → Fits at duration request t
    → Fits at duration request s
Fits-back at duration request f x = record {
  from_start = ground (arith, x.from_start, f.same_start);
  lasting = x.lasting;
  in_plan = ground (arith, x.in_plan, f.same_end);
  free = λ k a b. ground (arith, x.free k a b, f.same_total, ap (usage k) f.same_spans);
}

pub SameFrame-sym : {s t : Planner} → SameFrame s t → SameFrame t s
SameFrame-sym f = record {
  same_spans = sym f.same_spans;
  same_total = sym f.same_total;
  same_start = sym f.same_start;
  same_end = sym f.same_end;
  same_counter = sym f.same_counter;
}

module _ (on_or_after duration request : ℕ) (pos : 1 ≤ duration) (small : request < two_63) where
  abbrev pub FitsAt : Planner → ℕ → Type 0
  FitsAt s at = at + duration < two_64 → Fits at duration request s

  -- What a search that ends in `t` leaves in `at`: -1, or a time that fits, or, where no further point
  -- in the mintime tree has the request, one that the loop has left there.
  abbrev pub Outcome : Planner → Planner → ℕ → Type 0
  Outcome s t at =
      (at ≡ no_time)
      ⊎ ((on_or_after ≤ at) × (FitsAt s at ⊎ (get_mintime request t.mt_resource_tree ≡ none)))

  abbrev Kept : ℕ → Type 0
  Kept at = (at ≡ no_time) ⊎ (on_or_after ≤ at)

  abbrev GoodTurn : Planner → Turn → Type 0
  GoodTurn s (again at s1) = SameView s s1 × Kept at
  GoodTurn s (done at s1) = SameView s s1 × Outcome s s1 at

  pub found-fits :
      (at : ℕ) (s : Planner)
      → IsSound s
      → s.plan_start ≤ on_or_after
      → ltb at on_or_after ≡ false
      → holds (later at duration) request (state_from at s.sched_points) ≡ true
      → ltb s.plan_end (later at duration) ≡ false
      → (on_or_after ≤ at) × FitsAt s at
  unfolding later
  found-fits at s h le not_before held inside = (
    ground (arith, not_before),
    λ plain.
        let fit : at + duration ≤ s.plan_end = ground (arith, inside, plain) in
        let from : s.plan_start ≤ at = ground (arith, le, not_before) in
        record {
          from_start = from;
          lasting = pos;
          in_plan = fit;
          free =
              (holds_iff s.sched_points h.points.sorted h.points.tells (spans-Steady s.span_lookup)
                  h.small at (at + duration) request from small (ground (arith, pos))).0
                (subst (λ (b : ℕ). holds b request (state_from at s.sched_points) ≡ true)
                  (later-plain at duration s h fit) held);
        },
  )

  visit-GoodTurn :
      (at : ℕ) (s : Planner)
      → IsSound s
      → s.plan_start ≤ on_or_after
      → GoodTurn s (
          if ltb at on_or_after
          then again no_time (retire at s)
          else end_of_turn at duration (span_ok at duration request s))
  unfolding span_ok end_of_turn
  visit-GoodTurn at s h le =
      let v = retire-SameView at s in
      if_intro (GoodTurn s) (ltb at on_or_after) (λ _. (v, inl refl))
        (λ not_before.
          if_intro (λ (r : Planner × Bool). GoodTurn s (end_of_turn at duration r))
            (holds (later at duration) request (state_from at s.sched_points))
            (λ held. (
              v,
              if_intro (Outcome s (retire at s)) (ltb s.plan_end (later at duration))
                  (λ _. inl refl)
                  (λ inside.
                    let (not_early, fits) = found-fits at s h le not_before held inside in
                    inr (not_early, inl fits)),
            ))
            (λ _. (v, inr (ground (arith, not_before)))))

  avail_turn-GoodTurn :
      (at : ℕ) (s : Planner)
      → IsSound s
      → s.plan_start ≤ on_or_after
      → Kept at
      → GoodTurn s (avail_turn on_or_after duration request at s)
  unfolding avail_turn
  avail_turn-GoodTurn at s h le k = go (get_mintime request s.mt_resource_tree) refl
    where
      stays : get_mintime request s.mt_resource_tree ≡ none → Kept at → Outcome s s at
      stays e (inl gone) = inl gone
      stays e (inr late) = inr (late, inr e)

      go :
          (o : Option ℕ)
          → get_mintime request s.mt_resource_tree ≡ o
          → GoodTurn s (elim o [
            | none ↦ done at s
            | some start ↦
                if ltb start on_or_after
                then again no_time (retire start s)
                else end_of_turn start duration (span_ok start duration request s)
          ])
      go none e = (SameView-refl s, stays e k)
      go (some start) e = visit-GoodTurn start s h le

  Outcome-back :
      {s t : Planner} (u : Planner) (at : ℕ) → SameFrame s t → Outcome t u at → Outcome s u at
  Outcome-back u at f (inl e) = inl e
  Outcome-back u at f (inr (late, inl x)) =
      inr (late, inl (λ plain. Fits-back at duration request f (x plain)))
  Outcome-back u at f (inr (late, inr e)) = inr (late, inr e)

  abbrev pub Good : Planner → Option (Planner × ℕ) → Type 0
  Good s none = Unit
  Good s (some (t, at)) = SameView s t × Outcome s t at

  Good-back : {s t : Planner} (r : Option (Planner × ℕ)) → SameView s t → Good t r → Good s r
  Good-back none v x = tt
  Good-back (some (t, at)) v (w, x) = (SameView-trans v w, Outcome-back t at v.frame x)

  pub avail_at-Good :
      (n at : ℕ) (s : Planner)
      → IsSound s
      → s.plan_start ≤ on_or_after
      → Kept at
      → Good s (avail_at n on_or_after duration request at s)
  unfolding avail_at
  avail_at-Good zero at s h le k = tt
  avail_at-Good (suc n) at s h le k =
      go (avail_turn on_or_after duration request at s) (avail_turn-GoodTurn at s h le k) (λ a t v.
        avail_at-Good n a t (IsSound-SameView v h) (ground (arith, le, v.frame.same_start)))
    where
      go :
          (turn : Turn)
          → GoodTurn s turn
          → ((a : ℕ) (t : Planner)
              → SameView s t
              → Kept a
              → Good t (avail_at n on_or_after duration request a t))
          → Good s (elim turn [
            | again at1 s1 ↦ avail_at n on_or_after duration request at1 s1
            | done at1 s1 ↦ some (s1, at1)
          ])
      go (again a t) (v, kept) ih =
          Good-back (avail_at n on_or_after duration request a t) v (ih a t v kept)
      go (done a t) x ih = x

-- The mintime tree loses an entry at each turn.
length-erase_le : (k : ℕ) (m : OrdMap ℕ ℕ) → length (erase k m) ≤ length m
unfolding erase
length-erase_le k [] = ground arith
length-erase_le k ((j, v) ∷ m) = ground (arith, length-erase_le k m)

pub length-erase_lt :
    (request k : ℕ) (m : OrdMap ℕ ℕ)
    → get_mintime request m ≡ some k
    → length (erase k m) < length m
unfolding erase get_mintime
length-erase_lt request k [] e = cc
length-erase_lt request k ((j, v) ∷ m) e =
    ground (arith, length-erase_le k m, length-erase_lt request k m, same_iff j k, e)
