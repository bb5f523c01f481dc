-- ===== src/Tests/Requests.antt =====
-- qmanager/modules/qmanager_callbacks.cpp: the callbacks over two queues.
use flux_sched.Common.{ℕ, ◌≡◌, ◌≢◌, ◌⊎◌, ◌↔◌, refl, true, false, [], ◌∷◌, some, none, arith}
use flux_sched.OrdMap.{add}
use flux_sched.Queue.Job.{Job}
use flux_sched.Queue.State.{Queue}
use flux_sched.Queue.Pending.{lookup}
use flux_sched.Queue.Params.{Str}
use flux_sched.Manager.{
  Queues, Naming, Alloc, Reply, jobmanager_alloc_cb, jobmanager_cancel_cb, jobmanager_prioritize_cb,
  prep_watcher_cb, Watch,
}
use flux_sched.Manager.Requests.{
  IsQueued, jobmanager_alloc_cb-IsQueued, AnyQueue, Schedulable, HasNews, prep_watcher_cb-asks,
}
use flux_sched.Manager.Settled.{IsSettled, jobmanager_prioritize_cb-IsSettled}
use flux_sched.Calls.{perform}
use flux_sched.Tests.{empty_queue, looping, two_jobs}

-- The queues a and b, the loop of b being active.
abbrev queues : Queues
queues = (97 ∷ [], empty_queue) ∷ (98 ∷ [], looping) ∷ []

other_name : ◌≢◌ {A = Str} (97 ∷ []) (98 ∷ [])
other_name e = ground (arith, e)

-- Every jobspec names the queue b.
abbrev naming : Naming
naming = record {
  jobspec_queue = λ s. some (98 ∷ []);
  resolve_queue_name = λ n. n;
  default_queue_name = 97 ∷ [];
}

abbrev request9 : Alloc
request9 = record { msg = 5; id = 9; priority = 16; userid = 1000; t_submit = 4; jobspec = "" }

absent9 : lookup looping 9 ≡ none
unfolding perform add lookup
absent9 = refl

jobmanager_alloc_cb-IsQueued_example :
    (q' : Queue) × (j : Job) × (jobmanager_alloc_cb naming (some request9) queues
      ≡ ((97 ∷ [], empty_queue) ∷ (98 ∷ [], q') ∷ [], Reply.accepted))
    × (lookup q' 9 ≡ some j)
    × IsQueued request9 j
    × ((i : ℕ) → i ≢ 9 → lookup q' i ≡ lookup looping i)
jobmanager_alloc_cb-IsQueued_example =
    jobmanager_alloc_cb-IsQueued naming request9 (98 ∷ []) (98 ∷ []) ((97 ∷ [], empty_queue) ∷ [])
      [] looping refl refl (other_name, tt) absent9 (omega arith)

abbrev asleep : Watch
asleep = record { pls_sched_loop = false; pls_post_loop = false; idle = false }

abbrev waiting : Queues
waiting = (97 ∷ [], empty_queue) ∷ (98 ∷ [], two_jobs) ∷ []

prep_watcher_cb-asks_example :
    (((prep_watcher_cb waiting asleep).pls_sched_loop ≡ true) ↔ AnyQueue Schedulable waiting)
    × (((prep_watcher_cb waiting asleep).pls_post_loop ≡ true) ↔ AnyQueue HasNews waiting)
    × (((prep_watcher_cb waiting asleep).idle ≡ true)
        ↔ (AnyQueue Schedulable waiting ⊎ AnyQueue HasNews waiting ⊎ (asleep.idle ≡ true)))
prep_watcher_cb-asks_example = prep_watcher_cb-asks waiting asleep

two_jobs_wait : (prep_watcher_cb waiting asleep).pls_sched_loop ≡ true
unfolding prep_watcher_cb perform add
two_jobs_wait = refl

no_job9 : IsSettled 9 queues
unfolding perform add lookup
no_job9 = tt

jobmanager_prioritize_cb-IsSettled_example :
    (jobmanager_prioritize_cb (some (9, 1) ∷ some (7, 31) ∷ []) queues
      ≡ jobmanager_prioritize_cb (some (7, 31) ∷ []) queues)
    × (jobmanager_cancel_cb (some 9) queues ≡ queues)
jobmanager_prioritize_cb-IsSettled_example =
    jobmanager_prioritize_cb-IsSettled 9 1 (some (7, 31) ∷ []) queues no_job9
