-- ===== src/Planner/Serve.antt =====
-- resource/planner/c/planner.h: the calls of a planner in any order.
use flux_sched.Common.{
  ℕ, zero, suc, ◌<◌, ◌≤◌, ◌+◌, Bool, not, ◌||◌, Option, none, some, if_intro, ltb, leb, inl, inr,
  Option-cases,
}
use flux_sched.OrdMap.{nat_key}
use flux_sched.Planner.State.{Planner, Result, crash, no_time, two_63, two_64, later, less64}
use flux_sched.Planner.Points.{state_from, get_mintime}
use flux_sched.Planner.Avail.{
  holds, span_ok, end_of_turn, Turn, again, done, avail_turn, avail_at, run_avail_at, fuel_of,
  answer, planner_avail_time_first, planner_avail_time_next,
}
use flux_sched.Planner.Spans.{planner_add_span, planner_rem_span, planner_reduce_span}
use flux_sched.Planner.Lifecycle.{planner_reset, update_total}
use flux_sched.Planner.Usage.{usage}
use flux_sched.Planner.Total.{update_total-IsSound}
use flux_sched.Planner.View.{SameView, SameView-refl, SameView-trans}
use flux_sched.Planner.Sound.{IsSound, IsSound-SameView}
use flux_sched.Planner.Adding.{planner_add_span-IsSound}
use flux_sched.Planner.Reduce.{planner_rem_span-IsSound, planner_reduce_span-IsSound}
use flux_sched.Planner.Fresh.{planner_reset-IsSound}
use flux_sched.Planner.Search.{retire-SameView}
use flux_sched.Planner.Found.{started, started-SameView}

-- A search leaves the spans and the points as they are, whatever is asked for.
abbrev TurnSame : Planner → Turn → Type 0
TurnSame s (again _ t) = SameView s t
TurnSame s (done _ t) = SameView s t

abbrev SearchSame : Planner → Option (Planner × ℕ) → Type 0
SearchSame s none = Unit
SearchSame s (some (t, _)) = SameView s t

module _ (on_or_after duration request : ℕ) where
  avail_turn-TurnSame :
      (at : ℕ) (s : Planner) → TurnSame s (avail_turn on_or_after duration request at s)
  unfolding avail_turn span_ok end_of_turn
  avail_turn-TurnSame last s = elim (Option-cases (get_mintime request s.mt_resource_tree)) [
    | inl e ↦ rw (e, avail_turn) (SameView-refl s)
    | inr (at, e) ↦
        rw (e, avail_turn)
          (if_intro (TurnSame s) (ltb at on_or_after) (λ _. retire-SameView at s)
            (λ _.
              if_intro (λ (r : Planner × Bool). TurnSame s (end_of_turn at duration r))
                (holds (later at duration) request (state_from at s.sched_points))
                (λ _. retire-SameView at s) (λ _. retire-SameView at s)))
  ]

  search_trans :
      {s t : Planner} (r : Option (Planner × ℕ)) → SameView s t → SearchSame t r → SearchSame s r
  search_trans none v h = tt
  search_trans (some (u, o)) v h = SameView-trans v h

  avail_at-SearchSame :
      (n at : ℕ) (s : Planner) → SearchSame s (avail_at n on_or_after duration request at s)
  unfolding avail_at
  avail_at-SearchSame zero at s = tt
  avail_at-SearchSame (suc n) at s =
      go (avail_turn on_or_after duration request at s) (avail_turn-TurnSame at s)
        (λ a t. avail_at-SearchSame n a t)
    where
      go :
          (turn : Turn)
          → TurnSame s turn
          → ((a : ℕ) (t : Planner) → SearchSame t (avail_at n on_or_after duration request a t))
          → SearchSame s (elim turn [
            | again at1 s1 ↦ avail_at n on_or_after duration request at1 s1
            | done at1 s1 ↦ some (s1, at1)
          ])
      go (again a t) v ih = search_trans (avail_at n on_or_after duration request a t) v (ih a t)
      go (done a t) v ih = v

  run_avail_at-SameView : (s : Planner) → SameView s (run_avail_at on_or_after duration request s).0
  unfolding run_avail_at
  run_avail_at-SameView s =
      go (avail_at (fuel_of s) on_or_after duration request no_time s)
        (avail_at-SearchSame (fuel_of s) no_time s)
    where
      go :
          (r : Option (Planner × ℕ))
          → SearchSame s r
          → SameView s
              (elim r as (λ _. Planner × Result ℕ) [
                | none ↦ (s, crash)
                | some (s1, t) ↦ (s1, answer t)
              ]).0
      go none h = SameView-refl s
      go (some (t, at)) h = h

planner_avail_time_first-SameView :
    (on_or_after duration request : ℕ) (s : Planner)
    → SameView s (planner_avail_time_first on_or_after duration request s).0
unfolding planner_avail_time_first
planner_avail_time_first-SameView on_or_after duration request s =
    let P : Planner × Result ℕ → Type 0 = λ r. SameView s r.0 in
    if_intro P ((ltb on_or_after s.plan_start || leb s.plan_end on_or_after) || ltb duration 1)
      (λ _. SameView-refl s)
      (λ _.
        if_intro P (less64 s.total_resources request) (λ _. SameView-refl s)
          (λ _. SameView-trans (started-SameView on_or_after duration request s) (
            run_avail_at-SameView on_or_after duration request
              (started on_or_after duration request s))))

planner_avail_time_next-SameView : (s : Planner) → SameView s (planner_avail_time_next s).0
unfolding planner_avail_time_next
planner_avail_time_next-SameView s =
    let P : Planner × Result ℕ → Type 0 = λ r. SameView s r.0 in
    let q = s.current_request in
    if_intro P (not s.avail_time_iter_set) (λ _. SameView-refl s)
      (λ _.
        if_intro P (less64 s.total_resources q.count) (λ _. SameView-refl s)
          (λ _. run_avail_at-SameView q.on_or_after q.duration q.count s))

-- The calls that change the spans of a planner or where its search stands.
pub data PlannerCall : Type 0 where
  add_span : ℕ → ℕ → ℕ → PlannerCall
  rem_span : ℕ → PlannerCall
  reduce_span : ℕ → ℕ → PlannerCall
  avail_time_first : ℕ → ℕ → ℕ → PlannerCall
  avail_time_next : PlannerCall
  reset : ℕ → ℕ → PlannerCall
  change_total : ℕ → PlannerCall

unfoldable pub serve_planner : PlannerCall → Planner → Planner
unfolding planner_add_span planner_rem_span planner_reduce_span planner_avail_time_first
    planner_avail_time_next planner_reset update_total
serve_planner (add_span start duration request) s = (planner_add_span start duration request s).0
serve_planner (rem_span id) s = (planner_rem_span id s).0
serve_planner (reduce_span id to_remove) s = (planner_reduce_span id to_remove s).0
serve_planner (avail_time_first on_or_after duration request) s =
    (planner_avail_time_first on_or_after duration request s).0
serve_planner avail_time_next s = (planner_avail_time_next s).0
serve_planner (reset base_time duration) s = (planner_reset base_time duration s).0
serve_planner (change_total resource_total) s = update_total resource_total s

-- The arguments are what 64 bits hold: a window ends at a time, and no negative quantity is taken away. A
-- new total is enough for what the spans use.
abbrev pub InRange : PlannerCall → Planner → Type 0
InRange (add_span start duration request) s = (start + duration < two_64) × (request < two_64)
InRange (reduce_span id to_remove) s = to_remove < two_63
InRange (change_total n) s = (n < two_63) × ((t : ℕ) → usage t s.span_lookup ≤ n)
InRange _ s = Unit

-- The planners that calls in range lead to.
pub data Served (s : Planner) : Planner → Type 0 where
  made : Served s s
  served : {t : Planner} (c : PlannerCall) → InRange c t → Served s t → Served s (serve_planner c t)

serve_planner-IsSound :
    (c : PlannerCall) (s : Planner) → InRange c s → IsSound s → IsSound (serve_planner c s)
unfolding serve_planner
serve_planner-IsSound (add_span start duration request) s r h =
    planner_add_span-IsSound start duration request s h r.0 r.1
serve_planner-IsSound (rem_span id) s r h = planner_rem_span-IsSound id s h
serve_planner-IsSound (reduce_span id x) s r h = planner_reduce_span-IsSound id x s h r
serve_planner-IsSound (avail_time_first on_or_after duration request) s r h =
    IsSound-SameView (planner_avail_time_first-SameView on_or_after duration request s) h
serve_planner-IsSound avail_time_next s r h =
    IsSound-SameView (planner_avail_time_next-SameView s) h
serve_planner-IsSound (reset base_time duration) s r h =
    planner_reset-IsSound base_time duration s h
serve_planner-IsSound (change_total n) s r h = update_total-IsSound n s h r.0 r.1

-- From a sound planner, every planner is sound that the calls planner_add_span, planner_rem_span,
-- planner_reduce_span, planner_avail_time_first, planner_avail_time_next, planner_reset and
-- planner_update_total lead to, in any order and whatever they return, where the windows end at a
-- time, the quantities are in range, and a new total is at least what the spans use at any time:
-- every scheduled point has what the spans use at its time and the rest of the total, and one
-- reference for each end of a span at it, and each span has a point at both ends.
pub Served-IsSound : (s t : Planner) → IsSound s → Served s t → IsSound t
Served-IsSound s _ h made = h
Served-IsSound s _ h (served {t} c r p) = serve_planner-IsSound c t r (Served-IsSound s t h p)
