-- ===== src/Tests/Pools.antt =====
-- The theorems on the thread pool at concrete pools.
use npupnp.Common.{
  true, ℕ, ◌+◌, ◌*◌, ◌≡◌, refl, false, some, [], ◌∷◌, leb, if◌then◌else◌, arith, pos,
}
use npupnp.ThreadPool.Defs.{Job, Attr, Pool, new_pool, med_priority, high_priority}
use npupnp.ThreadPool.Jobs.{bump_priority, next_job, job_count}
use npupnp.ThreadPool.Jobs.Bump.{IsBumped, jobs_with, IsServed, bump_priority_lem, next_job_lem}
use npupnp.ThreadPool.Threads.{add_job, started, running}
use npupnp.ThreadPool.Threads.Limits.{IsWithin, add_job_lem}
use npupnp.ThreadPool.Threads.System.{System, returned, step, IsCounted}
use npupnp.ThreadPool.Threads.Account.{step-IsCounted}

abbrev attr : Attr
attr = record {
  min_threads = 2;
  max_threads = some 4;
  max_idle_time = 10000;
  jobs_per_thread = 10;
  max_jobs_total = 3;
  starvation_time = 500;
}

abbrev job : ℕ → Job
job n = record { worker = n; priority = med_priority; request_time = 100 * n; job_id = n }

-- Two threads, one of them at work; a medium job that has starved, and a low one.
abbrev pool : Pool
pool = record (new_pool attr) {
  total_threads = 2;
  busy_threads = 1;
  med_job_q = job 1 ∷ job 9 ∷ [];
  low_job_q = job 2 ∷ [];
}

abbrev system : System
system = record { pool = pool; threads = running (job 0) false 0 ∷ started 0 ∷ [] }

bump_priority_lem_example :
    IsBumped 1000 (bump_priority 1000 pool)
    × (jobs_with (λ j. 1) (bump_priority 1000 pool) ≡ jobs_with (λ j. 1) pool)
bump_priority_lem_example = bump_priority_lem 1000 pool (λ j. 1)

next_job_lem_example : IsServed pool (next_job 1000 pool)
next_job_lem_example = next_job_lem 1000 pool

add_job_lem_example :
    IsWithin (add_job 1000 5 high_priority pool).0
    × ((add_job 1000 5 high_priority pool).1 ≡ pos 0)
    × ((add_job 1000 5 high_priority pool).2 ≡ true)
    × (job_count (add_job 1000 5 high_priority pool).0 ≡ (
        if leb pool.attr.max_jobs_total (job_count pool)
        then job_count pool
        else job_count pool + 1))
add_job_lem_example =
    add_job_lem 1000 5 high_priority pool (ground arith) (ground arith) (ground arith)

step-IsCounted_example : IsCounted (step system (returned 0 1000 1))
step-IsCounted_example = step-IsCounted system (returned 0 1000 1) (refl, refl, refl)
