-- ===== src/Calls/Progress.antt =====
-- qmanager/policies/queue_policy_bf_base_impl.hpp: each answer takes the backfill loop one job
-- further, so that a loop over n jobs takes n answers at most.
use flux_sched.Common.{
  ℕ, ◌≡◌, refl, sym, subst, true, false, Option, some, if_intro, Option-cases, inl, inr, ◌||◌,
  arith, ◌==◌, ◌⊎◌,
}
use flux_sched.OrdMap.{find, nat_key}
use flux_sched.OrdMap.Iterate.{after, remaining, remaining-next, remaining-next-erase}
use flux_sched.Queue.Job.{Job, PendingKey, pending_key}
use flux_sched.Queue.State.{Queue, Reapi, Backfill, Errno}
use flux_sched.Queue.Pending.{write_job}
use flux_sched.Queue.Invariant.Remove.{IsSound}
use flux_sched.Queue.Invariant.Running.{to_running_lem, to_rejected_lem}
use flux_sched.Policy.Fcfs.{Match, is_reserved, reject_note}
use flux_sched.Policy.Backfill.{
  set_backfill, reached_depth, reached_end, match_job, job_in_progress, next_match_iter,
  reserve_job, allocate_job, count_job, place_job, matched, take_match, handle_match_success_bf,
  drop_estimate, skip_job, reject_job, is_busy, is_nodata, fail_job, handle_match_failure_bf,
}
use flux_sched.Policy.Invariant.{write_job-IsSound, job_of_entry}
use flux_sched.Calls.Stability.{loop_iter}
use flux_sched.Calls.Iterator.{finish_loop_idle}

-- The jobs that the loop still has before it.
abbrev pub jobs_left : Queue → ℕ
jobs_left q = remaining (loop_iter q.derived) q.pending

-- The loop is over, or has `n` jobs before it.
abbrev pub Leaves {ℓ} : {A : Type ℓ} → ℕ → Queue × A → Type 0
Leaves n r = (r.0.sched_loop_active ≡ false) ⊎ (jobs_left r.0 ≡ n)

-- `next_match_iter` does not move the iterator.
next_match_iter-Leaves :
    (api : Reapi) (b : Backfill) (q : Queue) (n : ℕ)
    → remaining b.in_progress_iter q.pending ≡ n
    → Leaves n (next_match_iter api b q)
unfolding next_match_iter match_job
next_match_iter-Leaves api b q n e =
    if_intro (Leaves n) (reached_end b || reached_depth b q)
      (λ _. inl (finish_loop_idle b (set_backfill b q)))
      (λ _. elim (Option-cases (job_in_progress b q)) [
        | inl f ↦ rw (f, next_match_iter) (inr e)
        | inr (j, f) ↦
            rw (f, next_match_iter)
              (if_intro (Leaves n) (api.json_loads j.jobspec) (λ _. inr e) (λ _. inr e))
      ])

-- Where the iterator stands after the job under `k` has been dealt with.
abbrev Steps : ℕ → Queue × Backfill → Type 0
Steps n r = remaining r.1.in_progress_iter r.0.pending ≡ n

module _ (q : Queue) (s : IsSound q) (k : PendingKey) (id : ℕ) (j : Job) (b : Backfill)
    (listed : find k q.pending ≡ some id) (found : find id q.jobs ≡ some j) where
  place_job-Steps : (m : Match) → Steps (after k q.pending) (place_job m k j b q)
  unfolding place_job reserve_job allocate_job
  place_job-Steps m =
      if_intro (Steps (after k q.pending)) (is_reserved m)
        (λ _. remaining-next k q.pending s.valid.sorted_p)
        (λ _.
          subst (λ (r : Queue × Option PendingKey). remaining r.1 r.0.pending ≡ after k q.pending)
            (sym (to_running_lem q k id j s.counted listed found))
            (remaining-next-erase k q.pending s.valid.sorted_p))

  skip_job-Steps : Steps (after k q.pending) (skip_job k id j b q)
  unfolding skip_job drop_estimate write_job
  skip_job-Steps =
      if_intro (Steps (after k q.pending)) b.try_reserve
        (λ _. remaining-next-erase k q.pending s.valid.sorted_p)
        (λ _. remaining-next k q.pending s.valid.sorted_p)

  reject_job-Steps : (e : Errno) → Steps (after k q.pending) (reject_job k e b q)
  unfolding reject_job
  reject_job-Steps e =
      subst (λ (r : Queue × Option PendingKey). remaining r.1 r.0.pending ≡ after k q.pending)
        (sym (to_rejected_lem q k (reject_note e) id j s.counted listed found))
        (remaining-next-erase k q.pending s.valid.sorted_p)

module _ (api : Reapi) (q : Queue) (s : IsSound q) (b : Backfill)
    (active : q.sched_loop_active ≡ true) (k : PendingKey) (id : ℕ)
    (at_k : b.in_progress_iter ≡ some k) (listed : find k q.pending ≡ some id) where
  -- In a sound state with an active backfill loop at the job under the key k, the match of that
  -- job ends the loop or leaves the iterator with the entries above k before it: one job fewer
  -- than before.
  pub handle_match_success_bf-Leaves :
      (m : Match) → m.jobid ≡ id → Leaves (after k q.pending) (handle_match_success_bf api m b q)
  unfolding handle_match_success_bf take_match write_job
  handle_match_success_bf-Leaves m own =
      let (j, found) = job_of_entry s k id listed in
      let (s', found', listed') =
        write_job-IsSound id j (matched m b j) k listed found refl refl refl s in
      let q0 : Queue = write_job j.id (matched m b j) q in
      let (q', b') = place_job m k (matched m b j) b q0 in
      if_intro (Leaves (after k q.pending)) q.sched_loop_active
        (λ _.
          rw (at_k, listed, found, handle_match_success_bf)
            (if_intro (Leaves (after k q.pending)) (j.id == m.jobid)
              (λ _.
                next_match_iter-Leaves api (count_job b') q' (after k q.pending)
                  (place_job-Steps q0 s' k id (matched m b j) b listed' found' m))
              (λ other. absurd (ground (arith, other, own, s.valid.ledger.ids id j found)))))
        (λ idle. absurd (cc))

  -- In a sound state with an active backfill loop at the job under the key k, a failure other
  -- than ENODATA ends the loop or leaves the iterator with the entries above k before it, whether
  -- the job is rejected, skipped or blocked.
  pub handle_match_failure_bf-Leaves :
      (e : Errno)
      → is_nodata e ≡ false
      → Leaves (after k q.pending) (handle_match_failure_bf api e b q)
  unfolding handle_match_failure_bf fail_job
  handle_match_failure_bf-Leaves e more =
      let (j, found) = job_of_entry s k id listed in
      let (q1, b1) = skip_job k id j b q in
      let (q2, b2) = reject_job k e b q in
      if_intro (Leaves (after k q.pending)) q.sched_loop_active
        (λ _.
          if_intro (Leaves (after k q.pending)) (is_nodata e)
            (λ h. absurd (ground (arith, h, more)))
            (λ _.
              rw (at_k, listed, found, handle_match_failure_bf)
                (if_intro (Leaves (after k q.pending)) (is_busy e)
                  (λ _.
                    next_match_iter-Leaves api (count_job b1) q1 (after k q.pending)
                      (skip_job-Steps q s k id j b listed found))
                  (λ _.
                    next_match_iter-Leaves api (count_job b2) q2 (after k q.pending)
                      (reject_job-Steps q s k id j b listed found e)))))
        (λ idle. absurd (cc))
