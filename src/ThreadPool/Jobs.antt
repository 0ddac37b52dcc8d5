-- ===== src/ThreadPool/Jobs.antt =====
-- The job queues: the statistics of the waiting times, `bumpPriority`, the choice of a worker's
-- next job, and the queue that `addJob` puts a job in.
pub mod Bump
pub mod Counters
use npupnp.Common.{
  ℕ, zero, suc, ◌+◌, ◌-◌, ◌*◌, Option, none, some, List, [], ◌∷◌, ◌++◌, leb, if◌then◌else◌, length,
}
use npupnp.ThreadPool.Defs.{Priority, low_priority, med_priority, high_priority, Job, Stats, Pool}

abbrev pub stats_account_lq : ℕ → Pool → Pool
stats_account_lq diff p = record p {
  stats = record p.stats {
    total_jobs_lq = p.stats.total_jobs_lq + 1;
    total_time_lq = p.stats.total_time_lq + diff;
  };
}

abbrev pub stats_account_mq : ℕ → Pool → Pool
stats_account_mq diff p = record p {
  stats = record p.stats {
    total_jobs_mq = p.stats.total_jobs_mq + 1;
    total_time_mq = p.stats.total_time_mq + diff;
  };
}

abbrev pub stats_account_hq : ℕ → Pool → Pool
stats_account_hq diff p = record p {
  stats = record p.stats {
    total_jobs_hq = p.stats.total_jobs_hq + 1;
    total_time_hq = p.stats.total_time_hq + diff;
  };
}

-- The clock is steady: `now` is not before the request.
abbrev pub waited : ℕ → Job → ℕ
waited now j = now - j.request_time

abbrev pub calc_wait_time : ℕ → Priority → Job → Pool → Pool
calc_wait_time now low_priority j p = stats_account_lq (waited now j) p
calc_wait_time now med_priority j p = stats_account_mq (waited now j) p
calc_wait_time now high_priority j p = stats_account_hq (waited now j) p

-- The first `if` of the loop of `bumpPriority`; `none` where it does not `continue`.
pub bump_med : ℕ → Pool → List Job → Option Pool
bump_med now p [] = none
bump_med now p (j ∷ q) =
    if leb p.attr.starvation_time (waited now j)
    then some (record (stats_account_mq (waited now j) p) {
      high_job_q = p.high_job_q ++ (j ∷ []);
      med_job_q = q;
    })
    else none

-- The second `if`; it reads `maxIdleTime`.
pub bump_low : ℕ → Pool → List Job → Option Pool
bump_low now p [] = none
bump_low now p (j ∷ q) =
    if leb p.attr.max_idle_time (waited now j)
    then some (record (stats_account_lq (waited now j) p) {
      med_job_q = p.med_job_q ++ (j ∷ []);
      low_job_q = q;
    })
    else none

pub bump_loop : ℕ → ℕ → Pool → Pool
bump_loop zero now p = p
bump_loop (suc fuel) now p = elim (bump_med now p p.med_job_q) [
  | some q ↦ bump_loop fuel now q
  | none ↦ elim (bump_low now p p.low_job_q) [ some q ↦ bump_loop fuel now q | none ↦ p ]
]

-- A low job moves at most twice and a medium one once, so this many rounds are enough.
unfoldable pub bump_priority : ℕ → Pool → Pool
bump_priority now p = bump_loop (2 * length p.low_job_q + length p.med_job_q) now p

-- The choice of the job: the highest queue that has one.
unfoldable pub pick : ℕ → Pool → List Job → List Job → List Job → Option (Job × Pool)
pick now p (j ∷ q) med low =
    some (j, calc_wait_time now high_priority j (record p { high_job_q = q }))
pick now p [] (j ∷ q) low = some (j, calc_wait_time now med_priority j (record p { med_job_q = q }))
pick now p [] [] (j ∷ q) = some (j, calc_wait_time now low_priority j (record p { low_job_q = q }))
pick now p [] [] [] = none

unfoldable pub next_job : ℕ → Pool → Option (Job × Pool)
unfolding pick
next_job now p = pick now p p.high_job_q p.med_job_q p.low_job_q

-- The jobs in the queues, as `addJob` and `addWorker` count them.
abbrev pub job_count : Pool → ℕ
job_count p = length p.high_job_q + length p.low_job_q + length p.med_job_q

-- The `switch` of `addJob`.
abbrev pub enqueue : Job → Priority → Pool → Pool
enqueue j high_priority p = record p { high_job_q = p.high_job_q ++ (j ∷ []) }
enqueue j med_priority p = record p { med_job_q = p.med_job_q ++ (j ∷ []) }
enqueue j low_priority p = record p { low_job_q = p.low_job_q ++ (j ∷ []) }
