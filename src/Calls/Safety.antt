-- ===== src/Calls/Safety.antt =====
-- qmanager/policies/queue_policy_bf_base_impl.hpp: no call of the backfill loop has an undefined
-- result, and the calls keep what that rests on.
use flux_sched.Common.{
  ℕ, ◌+◌, ◌≡◌, ◌≢◌, refl, sym, subst, true, false, Bool, some, if_intro, Option-cases, inl, inr,
  ◌||◌, arith, ◌<◌, ◌==◌, [], ◌∷◌, List,
}
use flux_sched.OrdMap.{find, nat_key, absorb}
use flux_sched.OrdMap.Iterate.{find-begin}
use flux_sched.Queue.Job.{Job, PendingKey, pending_key, u64_mod}
use flux_sched.Queue.State.{Queue, Reapi, Rc, err, backfill, Backfill, Errno, fault}
use flux_sched.Queue.Pending.{set_schedulability, write_job}
use flux_sched.Queue.Provisional.{set_sched_loop_active}
use flux_sched.Queue.Invariant.Remove.{IsSound, schedulable-IsSound}
use flux_sched.Policy.Fcfs.{Match}
use flux_sched.Policy.Backfill.{
  set_backfill, reached_depth, reached_end, try_job, match_job, next_match_iter, first_job,
  take_provisional, allocate_orelse_reserve_jobs, cancel_each, run_sched_loop_bf, count_job,
  place_job, matched, take_match, handle_match_success_bf, skip_job, reject_job, is_busy, is_nodata,
  fail_job, handle_match_failure_bf,
}
use flux_sched.Policy.Invariant.{
  write_job-IsSound, job_of_entry, take_provisional-IsSound, set_sched_loop_active-IsSound,
}
use flux_sched.Policy.BackfillInvariant.{
  set_backfill-IsSound, place_job-IsSound, skip_job-IsSound, reject_job-IsSound,
}
use flux_sched.Calls.Iterator.{
  Points, IsIterating, set_active_lem, place_job-Resumes, skip_job-Resumes, reject_job-Resumes,
}

abbrev pub NoFault : Queue × Rc → Type 0
NoFault r = r.1 ≢ err fault

-- The calls of the resource module have a result of their own.
abbrev pub Answers : Reapi → Type 0
Answers api =
    (orelse_reserve : Bool) (ids : List ℕ) → api.match_allocate_multi orelse_reserve ids ≢ err fault

module _ (api : Reapi) (answers : Answers api) where
  next_match_iter-NoFault :
      (b : Backfill) (q : Queue)
      → IsSound q
      → Points b.in_progress_iter q.pending
      → NoFault (next_match_iter api b q)
  unfolding next_match_iter match_job
  next_match_iter-NoFault b q s points =
      if_intro NoFault (reached_end b || reached_depth b q) (λ _ h. cc)
        (λ h. elim (Option-cases b.in_progress_iter) [
          | inl i ↦ absurd (ground (arith, h, i))
          | inr (k, i) ↦ elim (Option-cases (find k q.pending)) [
            | inl miss ↦ absurd (points k i miss)
            | inr (id, listed) ↦
                let (j, found) = job_of_entry s k id listed in
                rw (i, listed, found, next_match_iter)
                  (if_intro NoFault (api.json_loads j.jobspec)
                    (λ _. answers (try_job b).try_reserve (j.id ∷ [])) (λ _ h. cc))
          ]
        ])

  take_match-NoFault :
      (m : Match) (q : Queue)
      → IsSound q
      → (k : PendingKey) (id : ℕ) (j : Job) (b : Backfill) → find k q.pending ≡ some id
      → find id q.jobs ≡ some j
      → q.rq_cnt + 1 < u64_mod
      → NoFault (take_match api m k j b q)
  unfolding take_match write_job
  take_match-NoFault m q s k id j b listed found small =
      let (s', found', listed') =
        write_job-IsSound id j (matched m b j) k listed found refl refl refl s in
      let q0 : Queue = write_job j.id (matched m b j) q in
      let (q', b') = place_job m k (matched m b j) b q0 in
      if_intro NoFault (j.id == m.jobid)
        (λ _.
          next_match_iter-NoFault (count_job b') q'
            (place_job-IsSound k id (matched m b j) listed' found' s' m b small)
            (place_job-Resumes q0 s' k id (matched m b j) b listed' found' m))
        (λ _ h. cc)

  -- In a sound state in which an active loop's iterator is at an entry, with a resource module
  -- whose calls return, and below the wrap of the counter of started jobs, handle_match_success
  -- of a backfill queue never reads through m_pending.end () or a null job.
  pub handle_match_success_bf-NoFault :
      (m : Match) (b : Backfill) (q : Queue)
      → IsSound q
      → IsIterating q
      → q.derived ≡ backfill b
      → q.rq_cnt + 1 < u64_mod
      → NoFault (handle_match_success_bf api m b q)
  unfolding handle_match_success_bf
  handle_match_success_bf-NoFault m b q s it class small =
      if_intro NoFault q.sched_loop_active
        (λ active.
          let (k, i, hit) = it b class active in
          elim (Option-cases (find k q.pending)) [
            | inl miss ↦ absurd (hit miss)
            | inr (id, listed) ↦
                let (j, found) = job_of_entry s k id listed in
                rw (i, listed, found, handle_match_success_bf)
                  (take_match-NoFault m q s k id j b listed found small)
          ])
        (λ _ h. cc)

  fail_job-NoFault :
      (e : Errno) (q : Queue)
      → IsSound q
      → (k : PendingKey) (id : ℕ) (b : Backfill) → find k q.pending ≡ some id
      → q.dq_cnt + 1 < u64_mod
      → NoFault (fail_job api e k id b q)
  unfolding fail_job
  fail_job-NoFault e q s k id b listed small =
      let (j, found) = job_of_entry s k id listed in
      let (q1, b1) = skip_job k id j b q in
      let (q2, b2) = reject_job k e b q in
      if_intro NoFault (is_busy e)
        (λ _. rw found (
          next_match_iter-NoFault (count_job b1) q1 (skip_job-IsSound k id j b listed found s)
            (skip_job-Resumes q s k id j b listed found)))
        (λ _.
          next_match_iter-NoFault (count_job b2) q2
            (reject_job-IsSound k id j e b listed found small s)
            (reject_job-Resumes q s k id j b listed found e))

  -- In a sound state in which an active loop's iterator is at an entry, with a resource module
  -- whose calls return, and below the wrap of the counter of rejected jobs, handle_match_failure
  -- of a backfill queue never reads through m_pending.end () or a null job.
  pub handle_match_failure_bf-NoFault :
      (e : Errno) (b : Backfill) (q : Queue)
      → IsSound q
      → IsIterating q
      → q.derived ≡ backfill b
      → q.dq_cnt + 1 < u64_mod
      → NoFault (handle_match_failure_bf api e b q)
  unfolding handle_match_failure_bf
  handle_match_failure_bf-NoFault e b q s it class small =
      if_intro NoFault q.sched_loop_active
        (λ active.
          if_intro NoFault (is_nodata e) (λ _ h. cc)
            (λ _.
              let (k, i, hit) = it b class active in
              elim (Option-cases (find k q.pending)) [
                | inl miss ↦ absurd (hit miss)
                | inr (id, listed) ↦
                    rw (i, listed, handle_match_failure_bf)
                      (fail_job-NoFault e q s k id b listed small)
              ]))
        (λ _ h. cc)

  loop_start-NoFault :
      (b : Backfill) (q : Queue)
      → IsSound q
      → NoFault
          (next_match_iter api (first_job b q) (set_sched_loop_active true (take_provisional q)).0)
  loop_start-NoFault b q s =
      next_match_iter-NoFault (first_job b q) (set_sched_loop_active true (take_provisional q)).0
        (set_sched_loop_active-IsSound true (take_provisional-IsSound s))
        (subst (λ (r : Queue × ℕ). Points (first_job b q).in_progress_iter r.0.pending)
          (sym (set_active_lem (take_provisional q)))
          (λ k e. find-begin (absorb q.pending q.pending_provisional) k e))

  -- In a sound state, with a resource module whose calls return, run_sched_loop of a backfill
  -- queue never reads through m_pending.end () or a null job.
  pub run_sched_loop_bf-NoFault :
      (b : Backfill) (q : Queue) → IsSound q → NoFault (run_sched_loop_bf api b q)
  unfolding run_sched_loop_bf allocate_orelse_reserve_jobs
  run_sched_loop_bf-NoFault b q s =
      let b' : Backfill = record b { reserved = [] } in
      let q' : Queue = set_backfill b' (set_schedulability false q) in
      let s' =
        set_backfill-IsSound {q = set_schedulability false q} b' (schedulable-IsSound false s) in
      if_intro NoFault q.sched_loop_active
        (λ _. if_intro NoFault q.sched_loop_active (λ _ h. cc) (λ _. loop_start-NoFault b q s))
        (λ _.
          if_intro NoFault (cancel_each api b.reserved == 0)
            (λ _.
              if_intro NoFault q.sched_loop_active (λ _ h. cc) (λ _. loop_start-NoFault b' q' s'))
            (λ _ h. cc))
