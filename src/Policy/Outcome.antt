-- ===== src/Policy/Outcome.antt =====
-- qmanager/policies: in which state a scheduling loop is left when the resource module refuses.
use flux_sched.Common.{
  ℕ, ◌≡◌, refl, true, false, if_intro, Option-cases, inl, inr, List, ◌&&◌, ◌||◌, not,
}
use flux_sched.OrdMap.{nat_key}
use flux_sched.Queue.Job.{pending_key}
use flux_sched.Queue.State.{Queue, Reapi, Rc, failed, Backfill}
use flux_sched.Queue.Provisional.{set_sched_loop_active}
use flux_sched.Queue.Frame.{end_sched_loop-Frame}
use flux_sched.Policy.Backfill.{
  reached_depth, reached_end, match_job, job_in_progress, next_match_iter,
}
use flux_sched.Policy.Fcfs.{start_match}

-- Where next_match_iter of a backfill queue fails, the loop is as active as it was before.
pub next_match_iter-failed :
    (api : Reapi) (b : Backfill) (q : Queue)
    → failed (next_match_iter api b q).1 ≡ true
    → (next_match_iter api b q).0.sched_loop_active ≡ q.sched_loop_active
unfolding next_match_iter match_job
next_match_iter-failed api b q =
    if_intro (λ (r : Queue × Rc). failed r.1 ≡ true → r.0.sched_loop_active ≡ q.sched_loop_active)
      (reached_end b || reached_depth b q) (λ _ h. absurd (cc))
      (λ _. elim (Option-cases (job_in_progress b q)) [
        | inl e ↦ rw (e, next_match_iter) (λ h. refl)
        | inr (j, e) ↦
            rw (e, next_match_iter)
              (if_intro
                (λ (r : Queue × Rc).
                  failed r.1 ≡ true → r.0.sched_loop_active ≡ q.sched_loop_active)
                (api.json_loads j.jobspec) (λ _ h. refl) (λ _ h. refl))
      ])

-- Where the first-come-first-served loop cannot send its request, it is left inactive.
pub start_match-failed :
    (api : Reapi) (ids : List ℕ) (q : Queue)
    → failed (start_match api ids q).1 ≡ true
    → (start_match api ids q).0.sched_loop_active ≡ false
unfolding start_match set_sched_loop_active
start_match-failed api ids q =
    if_intro (λ (r : Queue × Rc). failed r.1 ≡ true → r.0.sched_loop_active ≡ false)
      (failed (api.match_allocate_multi false ids)) (λ _ _. ended (set_sched_loop_active true q).0)
      (λ _ h. absurd (cc))
  where
    ended : (x : Queue) → (set_sched_loop_active false x).0.sched_loop_active ≡ false
    ended x =
        if_intro (λ (r : Queue × ℕ). r.0.sched_loop_active ≡ false)
          (x.sched_loop_active && not false)
          (λ _. (end_sched_loop-Frame (record x { sched_loop_active = false })).active) (λ _. refl)
