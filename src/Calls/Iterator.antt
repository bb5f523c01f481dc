-- ===== src/Calls/Iterator.antt =====
-- qmanager/policies/queue_policy_bf_base_impl.hpp: while the backfill loop is active, its iterator
-- points at a pending job, so that the code never reads through `m_pending.end ()`.
use flux_sched.Common.{
  ℕ, ◌≡◌, ◌≢◌, refl, sym, subst, true, false, Option, none, some, if_intro, Option-cases,
  Bool-cases, inl, inr, ◌&&◌, not, ◌||◌, arith, ◌==◌, [],
}
use flux_sched.OrdMap.{OrdMap, find, nat_key, erase, next, absorb, same_iff}
use flux_sched.OrdMap.Find.{find-erase}
use flux_sched.OrdMap.Iterate.{find-next, find-begin, less_of_next}
use flux_sched.Queue.Job.{Job, PendingKey, pending_key}
use flux_sched.Queue.State.{Queue, Reapi, backfill, Backfill, Errno}
use flux_sched.Queue.Pending.{set_schedulability, write_job}
use flux_sched.Queue.Provisional.{set_sched_loop_active}
use flux_sched.Queue.Frame.{end_sched_loop-Frame}
use flux_sched.Queue.Invariant.Remove.{IsSound}
use flux_sched.Queue.Invariant.Running.{to_running_lem, to_rejected_lem}
use flux_sched.Policy.Fcfs.{Match, is_reserved, reject_note}
use flux_sched.Policy.Backfill.{
  set_backfill, reached_depth, reached_end, finish_loop, try_job, match_job, job_in_progress,
  next_match_iter, first_job, take_provisional, allocate_orelse_reserve_jobs, cancel_each,
  run_sched_loop_bf, reserve_job, allocate_job, count_job, place_job, matched, take_match,
  handle_match_success_bf, drop_estimate, skip_job, reject_job, is_busy, is_nodata, fail_job,
  handle_match_failure_bf,
}
use flux_sched.Policy.Invariant.{write_job-IsSound, job_of_entry}

-- The iterator is at the end or at an entry.
abbrev pub Points : Option PendingKey → OrdMap PendingKey ℕ → Type 0
Points it m = (k : PendingKey) → it ≡ some k → find k m ≢ none

-- While a backfill loop is active, its iterator is at an entry.
abbrev pub IsIterating : Queue → Type 0
IsIterating q =
    (b : Backfill)
    → q.derived ≡ backfill b
    → q.sched_loop_active ≡ true
    → (k : PendingKey) × (b.in_progress_iter ≡ some k) × (find k q.pending ≢ none)

abbrev pub Iterating {ℓ} : {A : Type ℓ} → Queue × A → Type 0
Iterating r = IsIterating r.0

pub idle_lem : (q : Queue) → q.sched_loop_active ≡ false → IsIterating q
idle_lem q idle b e active = absurd (cc)

pub set_idle-IsIterating : (q : Queue) → (set_sched_loop_active false q).0.sched_loop_active ≡ false
unfolding set_sched_loop_active
set_idle-IsIterating q =
    if_intro (λ (r : Queue × ℕ). r.0.sched_loop_active ≡ false) (q.sched_loop_active && not false)
      (λ _. (end_sched_loop-Frame (record q { sched_loop_active = false })).active) (λ _. refl)

pub set_active_lem :
    (q : Queue) → set_sched_loop_active true q ≡ (record q { sched_loop_active = true }, 0)
unfolding set_sched_loop_active
set_active_lem q = elim (Bool-cases q.sched_loop_active) [
  | inl e ↦
      if_intro (λ (r : Queue × ℕ). r ≡ (record q { sched_loop_active = true }, 0))
        (q.sched_loop_active && not true) (λ h. absurd (ground arith)) (λ _. refl)
  | inr e ↦
      if_intro (λ (r : Queue × ℕ). r ≡ (record q { sched_loop_active = true }, 0))
        (q.sched_loop_active && not true) (λ h. absurd (ground arith)) (λ _. refl)
]

pub finish_loop_idle : (b : Backfill) (q : Queue) → (finish_loop b q).sched_loop_active ≡ false
unfolding finish_loop
finish_loop_idle b q =
    if_intro (λ (r : Queue). r.sched_loop_active ≡ false)
      (reached_depth b q && not (reached_end b) && (set_sched_loop_active false q).0.scheduled)
      (λ _. set_idle-IsIterating q) (λ _. set_idle-IsIterating q)

at_entry :
    (b b' : Backfill) (q : Queue)
    → reached_end b ≡ false
    → Points b.in_progress_iter q.pending
    → b'.in_progress_iter ≡ b.in_progress_iter
    → IsIterating (set_backfill b' q)
at_entry b b' q inside points same_iter c e active = elim (Option-cases b.in_progress_iter) [
  | inl i ↦ absurd (ground (arith, inside, i))
  | inr (k, i) ↦ (k, ground (arith, e, i, same_iter), points k i)
]

pub next_match_iter-IsIterating :
    (api : Reapi) (b : Backfill) (q : Queue)
    → Points b.in_progress_iter q.pending
    → IsIterating (next_match_iter api b q).0
unfolding next_match_iter match_job
next_match_iter-IsIterating api b q points =
    if_intro Iterating (reached_end b || reached_depth b q)
      (λ _. idle_lem (finish_loop b (set_backfill b q)) (finish_loop_idle b (set_backfill b q)))
      (λ h.
        let inside : reached_end b ≡ false = ground (arith, h) in
        elim (Option-cases (job_in_progress b q)) [
          | inl e ↦ rw (e, next_match_iter) (at_entry b b q inside points refl)
          | inr (j, e) ↦
              rw (e, next_match_iter)
                (if_intro Iterating (api.json_loads j.jobspec)
                  (λ _. at_entry b (try_job b) q inside points refl)
                  (λ _. at_entry b (try_job b) q inside points refl))
        ])

-- The entry after `k` is still there when `k` is gone.
pub Points-next : (k : PendingKey) (m : OrdMap PendingKey ℕ) → Points (next k m) m
Points-next k m j e = find-next k m j e

pub Points-next-erase : (k : PendingKey) (m : OrdMap PendingKey ℕ) → Points (next k m) (erase k m)
Points-next-erase k m j e h = ground (
  arith,
  find-next k m j e,
  find-erase k j m,
  same_iff k j,
  less_of_next k m j e,
  pending_key.less_irrefl k,
)

-- The place where the loop goes on after an answer.
abbrev pub Resumes : Queue × Backfill → Type 0
Resumes r = Points r.1.in_progress_iter r.0.pending

module _ (q : Queue) (s : IsSound q) (k : PendingKey) (id : ℕ) (j : Job) (b : Backfill)
    (listed : find k q.pending ≡ some id) (found : find id q.jobs ≡ some j) where
  pub place_job-Resumes : (m : Match) → Resumes (place_job m k j b q)
  unfolding place_job reserve_job allocate_job
  place_job-Resumes m =
      if_intro Resumes (is_reserved m) (λ _. Points-next k q.pending)
        (λ _.
          subst (λ (r : Queue × Option PendingKey). Points r.1 r.0.pending)
            (sym (to_running_lem q k id j s.counted listed found)) (Points-next-erase k q.pending))

  pub skip_job-Resumes : Resumes (skip_job k id j b q)
  unfolding skip_job drop_estimate write_job
  skip_job-Resumes =
      if_intro Resumes b.try_reserve (λ _. Points-next-erase k q.pending)
        (λ _. Points-next k q.pending)

  pub reject_job-Resumes : (e : Errno) → Resumes (reject_job k e b q)
  unfolding reject_job
  reject_job-Resumes e =
      subst (λ (r : Queue × Option PendingKey). Points r.1 r.0.pending)
        (sym (to_rejected_lem q k (reject_note e) id j s.counted listed found))
        (Points-next-erase k q.pending)

take_match-IsIterating :
    (api : Reapi) (m : Match) (q : Queue)
    → IsSound q
    → (k : PendingKey) (id : ℕ) (j : Job) (b : Backfill) → find k q.pending ≡ some id
    → find id q.jobs ≡ some j
    → IsIterating q
    → IsIterating (take_match api m k j b q).0
unfolding take_match
take_match-IsIterating api m q s k id j b listed found it =
    let (s', found', listed') =
      write_job-IsSound id j (matched m b j) k listed found refl refl refl s in
    let (q', b') = place_job m k (matched m b j) b (write_job j.id (matched m b j) q) in
    if_intro Iterating (j.id == m.jobid)
      (λ _. next_match_iter-IsIterating api (count_job b') q' (
        place_job-Resumes (write_job j.id (matched m b j) q) s' k id (matched m b j) b listed'
          found' m))
      (λ _. it)

pub handle_match_success_bf-IsIterating :
    (api : Reapi) (m : Match) (b : Backfill) (q : Queue)
    → IsSound q
    → IsIterating q
    → IsIterating (handle_match_success_bf api m b q).0
unfolding handle_match_success_bf
handle_match_success_bf-IsIterating api m b q s it =
    if_intro Iterating q.sched_loop_active
      (λ _. elim (Option-cases b.in_progress_iter) [
        | inl e ↦ rw (e, handle_match_success_bf) it
        | inr (k, e) ↦ elim (Option-cases (find k q.pending)) [
          | inl e' ↦ rw (e, e', handle_match_success_bf) it
          | inr (id, e') ↦
              let (j, found) = job_of_entry s k id e' in
              rw (e, e', found, handle_match_success_bf)
                (take_match-IsIterating api m q s k id j b e' found it)
        ]
      ])
      (λ _. it)

fail_job-IsIterating :
    (api : Reapi) (e : Errno) (q : Queue)
    → IsSound q
    → (k : PendingKey) (id : ℕ) (b : Backfill) → find k q.pending ≡ some id
    → IsIterating (fail_job api e k id b q).0
unfolding fail_job
fail_job-IsIterating api e q s k id b listed =
    let (j, found) = job_of_entry s k id listed in
    let (q1, b1) = skip_job k id j b q in
    let (q2, b2) = reject_job k e b q in
    if_intro Iterating (is_busy e)
      (λ _. rw found (
        next_match_iter-IsIterating api (count_job b1) q1
          (skip_job-Resumes q s k id j b listed found)))
      (λ _.
        next_match_iter-IsIterating api (count_job b2) q2
          (reject_job-Resumes q s k id j b listed found e))

pub handle_match_failure_bf-IsIterating :
    (api : Reapi) (e : Errno) (b : Backfill) (q : Queue)
    → IsSound q
    → IsIterating q
    → IsIterating (handle_match_failure_bf api e b q).0
unfolding handle_match_failure_bf
handle_match_failure_bf-IsIterating api e b q s it =
    if_intro Iterating q.sched_loop_active
      (λ _.
        if_intro Iterating (is_nodata e) (λ _. it)
          (λ _. elim (Option-cases b.in_progress_iter) [
            | inl i ↦ rw (i, handle_match_failure_bf) it
            | inr (k, i) ↦ elim (Option-cases (find k q.pending)) [
              | inl f ↦ rw (i, f, handle_match_failure_bf) it
              | inr (id, f) ↦
                  rw (i, f, handle_match_failure_bf) (fail_job-IsIterating api e q s k id b f)
            ]
          ]))
      (λ _. it)

loop_start-IsIterating :
    (api : Reapi) (b : Backfill) (q : Queue)
    → IsIterating
        (next_match_iter api (first_job b q) (set_sched_loop_active true (take_provisional q)).0).0
loop_start-IsIterating api b q =
    subst (λ (r : Queue × ℕ). IsIterating (next_match_iter api (first_job b q) r.0).0)
      (sym (set_active_lem (take_provisional q)))
      (next_match_iter-IsIterating api (first_job b q)
        (record (take_provisional q) { sched_loop_active = true })
        (λ k e. find-begin (absorb q.pending q.pending_provisional) k e))

pub run_sched_loop_bf-IsIterating :
    (api : Reapi) (b : Backfill) (q : Queue)
    → IsIterating q
    → IsIterating (run_sched_loop_bf api b q).0
unfolding run_sched_loop_bf allocate_orelse_reserve_jobs
run_sched_loop_bf-IsIterating api b q it =
    let b' : Backfill = record b { reserved = [] } in
    let q' : Queue = set_backfill b' (set_schedulability false q) in
    if_intro Iterating q.sched_loop_active
      (λ active. if_intro Iterating q.sched_loop_active (λ _. it) (λ idle. absurd (cc)))
      (λ idle.
        if_intro Iterating (cancel_each api b.reserved == 0)
          (λ _.
            if_intro Iterating q.sched_loop_active (λ _. idle_lem q' idle)
              (λ _. loop_start-IsIterating api b' q'))
          (λ _. idle_lem q' idle))
