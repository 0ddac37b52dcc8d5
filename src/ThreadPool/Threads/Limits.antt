-- ===== src/ThreadPool/Threads/Limits.antt =====
-- The number of threads and of queued jobs is bounded, and `addWorker` ends.
use native.Mathlib.Nat.{div-eq_of_lt}
use npupnp.Common.{
  ℕ, zero, suc, ◌+◌, ◌-◌, ◌/◌, ◌≤◌, ◌<◌, ◌≡◌, refl, true, false, [], ◌∷◌, leb, if◌then◌else◌,
  length-append, pos, eqb_ℤ, arith,
}
use npupnp.ThreadPool.Defs.{Priority, low_priority, med_priority, high_priority, Job, Pool}
use npupnp.ThreadPool.Jobs.{job_count, enqueue}
use npupnp.ThreadPool.Jobs.Counters.{enqueue-HasSame}
use npupnp.ThreadPool.Threads.{
  create_worker, needs_worker, add_loop, add_worker, add_job, exceeds, new_job,
}

-- The counters of threads are in order.
abbrev pub IsAccounted : Pool → Type 0
IsAccounted p = (p.busy_threads ≤ p.total_threads) × (p.persistent_threads ≤ p.busy_threads)

-- Neither limit of the attributes is exceeded.
abbrev pub IsWithin : Pool → Type 0
IsWithin p =
    (exceeds p.total_threads p.attr.max_threads ≡ false) × (job_count p ≤ p.attr.max_jobs_total)

create_worker_lem :
    (p : Pool)
    → ((create_worker p).0.total_threads
        ≡ (if eqb_ℤ (create_worker p).1 (pos 0) then p.total_threads + 1 else p.total_threads))
      × ((create_worker p).0.busy_threads ≡ p.busy_threads)
      × ((create_worker p).0.persistent_threads ≡ p.persistent_threads)
      × ((create_worker p).0.attr ≡ p.attr)
      × (job_count (create_worker p).0 ≡ job_count p)
      × (exceeds p.total_threads p.attr.max_threads ≡ false
          → exceeds (create_worker p).0.total_threads p.attr.max_threads ≡ false)
unfolding create_worker
create_worker_lem p = ground arith

needs_worker-enough :
    (jobs threads : ℕ) (p : Pool)
    → jobs < threads
    → 0 < p.attr.jobs_per_thread
    → p.busy_threads < p.total_threads
    → needs_worker jobs threads p ≡ false
needs_worker-enough jobs threads p more some_jobs free =
    let zero_jobs : jobs / threads ≡ 0 = div-eq_of_lt more in ground (arith, zero_jobs)

add_loop_free :
    (fuel jobs threads : ℕ) (p : Pool)
    → p.busy_threads < p.total_threads
    → 0 < p.attr.jobs_per_thread
    → jobs + 2 ≤ threads + fuel
    → 0 < fuel
    → (add_loop fuel jobs threads p).1 ≡ true
unfolding add_loop
add_loop_free zero jobs threads p free some_jobs enough more = ground arith
add_loop_free (suc fuel) jobs threads p free some_jobs enough more = ground (
  arith,
  needs_worker-enough jobs threads p,
  create_worker_lem p,
  add_loop_free fuel jobs (threads + 1) (create_worker p).0,
)

-- `addWorker` ends, if the attributes ask for at least one job per thread, and the pool counts
-- no more persistent threads than busy ones and no more busy ones than threads.
pub add_worker_ends :
    (p : Pool) → IsAccounted p → 0 < p.attr.jobs_per_thread → (add_worker p).1 ≡ true
unfolding add_worker add_loop
add_worker_ends p counted some_jobs =
    let threads : ℕ = p.total_threads - p.persistent_threads in
    ground (
      arith,
      create_worker_lem p,
      add_loop_free (job_count p + 2) (job_count p) (threads + 1) (create_worker p).0,
    )

add_loop_limits :
    (fuel jobs threads : ℕ) (p : Pool)
    → exceeds p.total_threads p.attr.max_threads ≡ false
    → (exceeds (add_loop fuel jobs threads p).0.total_threads p.attr.max_threads ≡ false)
      × ((add_loop fuel jobs threads p).0.attr ≡ p.attr)
      × (job_count (add_loop fuel jobs threads p).0 ≡ job_count p)
unfolding add_loop
add_loop_limits zero jobs threads p h = (h, refl, refl)
add_loop_limits (suc fuel) jobs threads p h =
    ground
      (arith, h, create_worker_lem p, add_loop_limits fuel jobs (threads + 1) (create_worker p).0)

enqueue_lem :
    (j : Job) (prio : Priority) (p : Pool)
    → ((enqueue j prio p).total_threads ≡ p.total_threads)
      × ((enqueue j prio p).attr ≡ p.attr)
      × (job_count (enqueue j prio p) ≡ job_count p + 1)
enqueue_lem j low_priority p = (refl, refl, omega (arith, length-append p.low_job_q (j ∷ [])))
enqueue_lem j med_priority p = (refl, refl, omega (arith, length-append p.med_job_q (j ∷ [])))
enqueue_lem j high_priority p = (refl, refl, omega (arith, length-append p.high_job_q (j ∷ [])))

-- In a pool within its limits, `addJob` keeps the number of threads and of queued jobs within
-- them, and returns 0, also where the pool is full and has no job more than before. It does
-- return, if the attributes ask for at least one job per thread, and the pool counts no more
-- persistent threads than busy ones and no more busy ones than threads.
pub add_job_lem :
    (now worker : ℕ) (prio : Priority) (p : Pool)
    → IsWithin p
    → IsAccounted p
    → 0 < p.attr.jobs_per_thread
    → IsWithin (add_job now worker prio p).0
      × ((add_job now worker prio p).1 ≡ pos 0)
      × ((add_job now worker prio p).2 ≡ true)
      × (job_count (add_job now worker prio p).0
          ≡ (if leb p.attr.max_jobs_total (job_count p) then job_count p else job_count p + 1))
unfolding add_job add_worker
add_job_lem now worker prio p within counted some_jobs =
    let queued : Pool = enqueue (new_job now worker prio p) prio p in
    let looped =
      add_loop_limits (job_count queued + 3) (job_count queued)
        (queued.total_threads - queued.persistent_threads) queued in
    let ended = add_worker_ends queued in
    ground (
      arith,
      within,
      counted,
      some_jobs,
      enqueue_lem (new_job now worker prio p) prio p,
      enqueue-HasSame (new_job now worker prio p) prio p,
      looped,
      ended,
    )
