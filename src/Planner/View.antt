-- ===== src/Planner/View.antt =====
-- resource/planner: what the points hold apart from their place in the mintime tree.
use flux_sched.Common.{
  ℕ, ◌≡◌, refl, ◌∙◌, ap, Bool, true, false, List, [], ◌∷◌, Option, none, some, if◌then◌else◌,
  if_intro, ltb, arith, inl, inr, Option-cases,
}
use flux_sched.OrdMap.{OrdMap, same, same_iff, nat_key, find, add, erase}
use flux_sched.OrdMap.Order.{Above, IsSorted}
use flux_sched.Planner.State.{Point, Points, Planner}
use flux_sched.Planner.Points.{
  modify, mt_tree_insert, mt_tree_remove, set_in_mt, insert_all, restore_track_points,
  refresh_point, update_mintime_resource_tree, update_points_add_span, update_points_subtract_span,
  plus, minus,
}
use flux_sched.Planner.Walk.{mem, Distinct}

abbrev pub on_point : (Point → Point) → Option Point → Option Point
on_point f none = none
on_point f (some p) = some (f p)

pub find-modify :
    (f : Point → Point) (at k : ℕ) (m : Points)
    → find k (modify f at m) ≡ (if same at k then on_point f (find k m) else find k m)
unfolding find modify
find-modify f at k [] = ground arith
find-modify f at k ((j, p) ∷ m) =
    ground (arith, same_iff j at, same_iff j k, same_iff at k, find-modify f at k m)

Above-modify : (f : Point → Point) (a at : ℕ) (m : Points) → Above a m → Above a (modify f at m)
unfolding modify
Above-modify f a at [] s = tt
Above-modify f a at ((j, p) ∷ m) s = ground (arith, Above-modify f a at m s.1)

pub modify-IsSorted :
    (f : Point → Point) (at : ℕ) (m : Points) → IsSorted m → IsSorted (modify f at m)
unfolding modify
modify-IsSorted f at [] s = tt
modify-IsSorted f at ((j, p) ∷ m) s =
    ground (arith, modify-IsSorted f at m s.1, Above-modify f j at m s.0)

-- The references, the quantity scheduled and the quantity remaining.
abbrev pub Core : Type 0
Core = ℕ × ℕ × ℕ

abbrev pub core : Point → Core
core p = (p.ref_count, p.scheduled, p.remaining)

abbrev pub core_of : Option Point → Option Core
core_of none = none
core_of (some p) = some (core p)

abbrev pub view_of : Points → ℕ → Option Core
view_of m k = core_of (find k m)

abbrev pub view : Planner → ℕ → Option Core
view s = view_of s.sched_points

-- The two planners agree on the spans and the bounds.
pub record SameFrame (s t : Planner) : Type 0 where
  pub same_spans : t.span_lookup ≡ s.span_lookup
  pub same_total : t.total_resources ≡ s.total_resources
  pub same_start : t.plan_start ≡ s.plan_start
  pub same_end : t.plan_end ≡ s.plan_end
  pub same_counter : t.span_counter ≡ s.span_counter

-- And on the points as well, but for their place in the mintime tree.
pub record SameView (s t : Planner) : Type 0 where
  pub frame : SameFrame s t
  pub same_view : (k : ℕ) → view t k ≡ view s k
  pub still_sorted : IsSorted s.sched_points → IsSorted t.sched_points

pub SameFrame-refl : (s : Planner) → SameFrame s s
SameFrame-refl s = record {
  same_spans = refl;
  same_total = refl;
  same_start = refl;
  same_end = refl;
  same_counter = refl;
}

pub SameFrame-trans : {s t u : Planner} → SameFrame s t → SameFrame t u → SameFrame s u
SameFrame-trans a b = record {
  same_spans = b.same_spans ∙ a.same_spans;
  same_total = b.same_total ∙ a.same_total;
  same_start = b.same_start ∙ a.same_start;
  same_end = b.same_end ∙ a.same_end;
  same_counter = b.same_counter ∙ a.same_counter;
}

pub SameView-refl : (s : Planner) → SameView s s
SameView-refl s = record { frame = SameFrame-refl s; same_view = λ k. refl; still_sorted = λ h. h }

pub SameView-trans : {s t u : Planner} → SameView s t → SameView t u → SameView s u
SameView-trans a b = record {
  frame = SameFrame-trans a.frame b.frame;
  same_view = λ k. b.same_view k ∙ a.same_view k;
  still_sorted = λ h. b.still_sorted (a.still_sorted h);
}

-- A write that leaves the core of a point alone.
pub core-modify :
    (f : Point → Point) (at k : ℕ) (m : Points)
    → ((p : Point) → core (f p) ≡ core p)
    → core_of (find k (modify f at m)) ≡ core_of (find k m)
core-modify f at k m h = rw (find-modify f at k m) (go (same at k) (find k m))
  where
    go : (b : Bool) (o : Option Point) → core_of (if b then on_point f o else o) ≡ core_of o
    go true none = refl
    go true (some p) = ap some (h p)
    go false o = refl

mt_write :
    (b : Bool) (at : ℕ) (tree : OrdMap ℕ ℕ) (s : Planner)
    → SameView s (record s {
      mt_resource_tree = tree;
      sched_points = modify (set_in_mt b) at s.sched_points;
    })
mt_write b at tree s = record {
  same_view = λ k. core-modify (set_in_mt b) at k s.sched_points (λ p. refl);
  frame = record {
    same_spans = refl;
    same_total = refl;
    same_start = refl;
    same_end = refl;
    same_counter = refl;
  };
  still_sorted = modify-IsSorted (set_in_mt b) at s.sched_points;
}

pub mt_tree_insert-SameView : (at : ℕ) (s : Planner) → SameView s (mt_tree_insert at s)
unfolding mt_tree_insert
mt_tree_insert-SameView at s = elim (Option-cases (find at s.sched_points)) [
  | inl e ↦ rw (e, mt_tree_insert) (SameView-refl s)
  | inr (p, e) ↦ rw (e, mt_tree_insert) (mt_write true at (add at p.remaining s.mt_resource_tree) s)
]

pub mt_tree_remove-SameView : (at : ℕ) (s : Planner) → SameView s (mt_tree_remove at s)
unfolding mt_tree_remove
mt_tree_remove-SameView at s = mt_write false at (erase at s.mt_resource_tree) s

insert_all-SameView : (tracked : OrdMap ℕ ℕ) (s : Planner) → SameView s (insert_all tracked s)
unfolding insert_all
insert_all-SameView [] s = SameView-refl s
insert_all-SameView ((k, at) ∷ tracked) s =
    SameView-trans (mt_tree_insert-SameView at s)
      (insert_all-SameView tracked (mt_tree_insert at s))

pub restore_track_points-SameView : (s : Planner) → SameView s (restore_track_points s)
unfolding restore_track_points
restore_track_points-SameView s =
    let h = insert_all-SameView s.avail_time_iter s in
    record {
      frame = record {
        same_spans = h.frame.same_spans;
        same_total = h.frame.same_total;
        same_start = h.frame.same_start;
        same_end = h.frame.same_end;
        same_counter = h.frame.same_counter;
      };
      same_view = h.same_view;
      still_sorted = h.still_sorted;
    }

refresh_point-SameView : (at : ℕ) (s : Planner) → SameView s (refresh_point at s)
unfolding refresh_point
refresh_point-SameView at s = elim (Option-cases (find at s.sched_points)) [
  | inl e ↦ rw (e, refresh_point) (SameView-refl s)
  | inr (p, e) ↦
      rw (e, refresh_point)
        (if_intro (SameView s) (ltb 0 p.ref_count)
          (λ _.
            SameView-trans (taken p) (
              mt_tree_insert-SameView at
                (if p.in_mt_resource_tree then mt_tree_remove at s else s)))
          (λ _. taken p))
]
  where
    taken : (p : Point) → SameView s (if p.in_mt_resource_tree then mt_tree_remove at s else s)
    taken p =
        if_intro (SameView s) p.in_mt_resource_tree (λ _. mt_tree_remove-SameView at s)
          (λ _. SameView-refl s)

pub update_mintime_resource_tree-SameView :
    (list : List ℕ) (s : Planner) → SameView s (update_mintime_resource_tree list s)
unfolding update_mintime_resource_tree
update_mintime_resource_tree-SameView [] s = SameView-refl s
update_mintime_resource_tree-SameView (at ∷ list) s =
    SameView-trans (refresh_point-SameView at s)
      (update_mintime_resource_tree-SameView list (refresh_point at s))

-- Each point of the list is written once.
unfoldable pub modify_all : (Point → Point) → List ℕ → Points → Points
modify_all f [] m = m
modify_all f (at ∷ list) m = modify_all f list (modify f at m)

pub find-modify_all :
    (f : Point → Point) (list : List ℕ) (k : ℕ) (m : Points)
    → Distinct list
    → find k (modify_all f list m) ≡ (if mem k list then on_point f (find k m) else find k m)
unfolding modify_all mem
find-modify_all f [] k m d = refl
find-modify_all f (at ∷ list) k m d =
    rw (find-modify_all f list k (modify f at m) d.1, find-modify f at k m)
      (ground (arith, d.0, same_iff at k))

pub modify_all-IsSorted :
    (f : Point → Point) (list : List ℕ) (m : Points) → IsSorted m → IsSorted (modify_all f list m)
unfolding modify_all
modify_all-IsSorted f [] m s = s
modify_all-IsSorted f (at ∷ list) m s =
    modify_all-IsSorted f list (modify f at m) (modify-IsSorted f at m s)

pub update_points_add_span-modify_all :
    (total planned : ℕ) (list : List ℕ) (m : Points)
    → (update_points_add_span total planned list m).0 ≡ modify_all (plus planned) list m
unfolding update_points_add_span modify_all
update_points_add_span-modify_all total planned [] m = refl
update_points_add_span-modify_all total planned (at ∷ list) m =
    update_points_add_span-modify_all total planned list (modify (plus planned) at m)

pub update_points_subtract_span-modify_all :
    (total planned : ℕ) (list : List ℕ) (m : Points)
    → (update_points_subtract_span total planned list m).0 ≡ modify_all (minus planned) list m
unfolding update_points_subtract_span modify_all
update_points_subtract_span-modify_all total planned [] m = refl
update_points_subtract_span-modify_all total planned (at ∷ list) m =
    update_points_subtract_span-modify_all total planned list (modify (minus planned) at m)
