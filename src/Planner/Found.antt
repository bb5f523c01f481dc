-- ===== src/Planner/Found.antt =====
-- resource/planner/c/planner_c_interface.cpp: planner_avail_time_first comes back, and with what.
use flux_sched.Common.{
  ℕ, zero, suc, ◌≡◌, ◌≢◌, ◌<◌, ◌≤◌, ◌+◌, ◌⊎◌, ◌==◌, refl, Bool, true, ◌||◌, Option, none, some,
  if◌then◌else◌, if_intro, ltb, leb, arith, inl, inr, Option-cases, length,
}
use flux_sched.OrdMap.{nat_key, erase}
use flux_sched.Planner.State.{
  Planner, Result, ok, error, crash, no_time, two_63, two_64, later, less64,
}
use flux_sched.Planner.Points.{
  state_from, get_mintime, mt_tree_remove, track_points, restore_track_points,
}
use flux_sched.Planner.Avail.{
  holds, retire, span_ok, end_of_turn, Turn, again, done, avail_turn, avail_at, run_avail_at,
  fuel_of, copy_req, answer, planner_avail_time_first,
}
use flux_sched.Planner.View.{SameView, SameView-refl, SameView-trans, restore_track_points-SameView}
use flux_sched.Planner.Sound.{IsSound, IsSound-SameView}
use flux_sched.Planner.Fits.{Fits}
use flux_sched.Planner.Search.{length-erase_lt, avail_at-Good, Good, Fits-back}

abbrev Shrinks : Planner → Turn → Type 0
Shrinks s (again _ t) = length t.mt_resource_tree < length s.mt_resource_tree
Shrinks s (done _ _) = Unit

module _ (on_or_after duration request : ℕ) where
  visit-Shrinks :
      (at : ℕ) (s : Planner)
      → length (erase at s.mt_resource_tree) < length s.mt_resource_tree
      → Shrinks s (
          if ltb at on_or_after
          then again no_time (retire at s)
          else end_of_turn at duration (span_ok at duration request s))
  unfolding span_ok end_of_turn retire mt_tree_remove track_points
  visit-Shrinks at s lt =
      if_intro (Shrinks s) (ltb at on_or_after) (λ _. lt)
        (λ _.
          if_intro (λ (r : Planner × Bool). Shrinks s (end_of_turn at duration r))
            (holds (later at duration) request (state_from at s.sched_points)) (λ _. tt) (λ _. lt))

  avail_turn-Shrinks :
      (at : ℕ) (s : Planner) → Shrinks s (avail_turn on_or_after duration request at s)
  unfolding avail_turn
  avail_turn-Shrinks last s = elim (Option-cases (get_mintime request s.mt_resource_tree)) [
    | inl e ↦ rw (e, avail_turn) tt
    | inr (at, e) ↦
        rw (e, avail_turn) (visit-Shrinks at s (length-erase_lt request at s.mt_resource_tree e))
  ]

  pub avail_at-some :
      (n at : ℕ) (s : Planner)
      → length s.mt_resource_tree < n
      → avail_at n on_or_after duration request at s ≢ none
  unfolding avail_at
  avail_at-some zero at s h = absurd (ground (arith, h))
  avail_at-some (suc n) at s h =
      go (avail_turn on_or_after duration request at s) (avail_turn-Shrinks at s)
        (λ a t lt. avail_at-some n a t (ground (arith, lt, h)))
    where
      go :
          (turn : Turn)
          → Shrinks s turn
          → ((a : ℕ) (t : Planner)
              → length t.mt_resource_tree < length s.mt_resource_tree
              → avail_at n on_or_after duration request a t ≢ none)
          → (elim turn [
            | again at1 s1 ↦ avail_at n on_or_after duration request at1 s1
            | done at1 s1 ↦ some (s1, at1)
          ])
            ≢ none
      go (again a t) lt ih = ih a t lt
      go (done a t) lt ih = λ e. cc

  -- A search comes back with a time that is not before on_or_after and that fits, unless the tree ran out
  -- of points that have the request, or with an error, and leaves the spans as they are.
  abbrev pub Finds : Planner → Planner × Result ℕ → Type 0
  Finds s (t, ok at) =
      SameView s t
      × (on_or_after ≤ at)
      × ((at + duration < two_64 → Fits at duration request s)
          ⊎ (get_mintime request t.mt_resource_tree ≡ none))
  Finds s (t, error _) = SameView s t
  Finds s (t, crash) = ⊥

  run-Finds :
      (s : Planner) (r : Option (Planner × ℕ)) (pos : 1 ≤ duration) (small : request < two_63)
      → Good on_or_after duration request pos small s r
      → r ≢ none
      → Finds s (elim r [ none ↦ (s, crash) | some (s1, t) ↦ (s1, answer t) ])
  run-Finds s none pos small g n = n refl
  run-Finds s (some (t, at)) pos small (v, inl gone) n =
      if_intro (λ (r : Result ℕ). Finds s (t, r)) (at == no_time) (λ _. v)
        (λ differs. absurd (ground (arith, gone, differs)))
  run-Finds s (some (t, at)) pos small (v, inr (late, x)) n =
      if_intro (λ (r : Result ℕ). Finds s (t, r)) (at == no_time) (λ _. v) (λ _. (v, late, x))

  Finds-back : {s t : Planner} (r : Planner × Result ℕ) → SameView s t → Finds t r → Finds s r
  Finds-back (u, ok at) v (w, late, inl fit) =
      (SameView-trans v w, late, inl (λ plain. Fits-back at duration request v.frame (fit plain)))
  Finds-back (u, ok at) v (w, late, inr e) = (SameView-trans v w, late, inr e)
  Finds-back (u, error e) v w = SameView-trans v w
  Finds-back (u, crash) v w = w

  abbrev pub started : Planner → Planner
  started s = record (restore_track_points s) {
    avail_time_iter_set = true;
    current_request = copy_req on_or_after duration request;
  }

  pub started-SameView : (s : Planner) → SameView s (started s)
  started-SameView s =
      let v = restore_track_points-SameView s in
      record {
        frame = record {
          same_spans = v.frame.same_spans;
          same_total = v.frame.same_total;
          same_start = v.frame.same_start;
          same_end = v.frame.same_end;
          same_counter = v.frame.same_counter;
        };
        same_view = v.same_view;
        still_sorted = v.still_sorted;
      }

  -- For a request below 2^63, planner_avail_time_first of a sound planner comes back, with an
  -- error or with a time that is not before on_or_after; unless no point before INT64_MAX is left in
  -- the mintime tree that has the request, the window from that time on lies in the plan with the request free
  -- in all of it, where the end of the window is representable; the spans and the points stay as
  -- they are.
  pub planner_avail_time_first-Finds :
      (s : Planner)
      → IsSound s
      → request < two_63
      → Finds s (planner_avail_time_first on_or_after duration request s)
  unfolding planner_avail_time_first run_avail_at
  planner_avail_time_first-Finds s h small =
      if_intro (Finds s)
        ((ltb on_or_after s.plan_start || leb s.plan_end on_or_after) || ltb duration 1)
        (λ _. SameView-refl s)
        (λ valid.
          if_intro (Finds s) (less64 s.total_resources request) (λ _. SameView-refl s)
            (λ _.
              let pos : 1 ≤ duration = ground (arith, valid) in
              let le : s.plan_start ≤ on_or_after = ground (arith, valid) in
              let restored = started s in
              let w = started-SameView s in
              let r = avail_at (fuel_of restored) on_or_after duration request no_time restored in
              Finds-back
                (elim r as (λ _. Planner × Result ℕ) [
                  | none ↦ (restored, crash)
                  | some (s1, t) ↦ (s1, answer t)
                ])
                w
                (run-Finds restored r pos small
                  (avail_at-Good on_or_after duration request pos small (fuel_of restored) no_time
                    restored (IsSound-SameView w h) (ground (arith, le, w.frame.same_start))
                    (inl refl))
                  (avail_at-some (fuel_of restored) no_time restored (ground arith)))))
