-- ===== src/ThreadPool/Defs.antt =====
-- The types of the thread pool: `ThreadPriority`, `ThreadPoolJob`, `ThreadPoolAttr`,
-- `ThreadPoolStats` and the fields of `ThreadPool::Internal`.
use npupnp.Common.{ℕ, Bool, false, Option, none, List, [], ℤ, pos, negsuc}

pub data Priority : Type 0 where
  low_priority med_priority high_priority : Priority

pub record Job : Type 0 where
  pub worker : ℕ
  pub priority : Priority
  pub request_time : ℕ
  pub job_id : ℕ

-- `max_threads` is `none` for `INFINITE_THREADS`; the other numbers are not negative.
pub record Attr : Type 0 where
  pub min_threads : ℕ
  pub max_threads : Option ℕ
  pub max_idle_time : ℕ
  pub jobs_per_thread : ℕ
  pub max_jobs_total : ℕ
  pub starvation_time : ℕ

-- The counters that the pool keeps; a `double` here only ever sums whole numbers.
pub record Stats : Type 0 where
  pub total_time_hq : ℕ
  pub total_jobs_hq : ℕ
  pub total_time_mq : ℕ
  pub total_jobs_mq : ℕ
  pub total_time_lq : ℕ
  pub total_jobs_lq : ℕ
  pub total_work_time : ℕ
  pub total_idle_time : ℕ
  pub worker_threads : ℤ
  pub idle_threads : ℤ
  pub max_threads : ℕ

pub record Pool : Type 0 where
  pub last_job_id : ℕ
  pub shuttingdown : Bool
  pub total_threads : ℕ
  pub busy_threads : ℕ
  pub persistent_threads : ℕ
  pub low_job_q : List Job
  pub med_job_q : List Job
  pub high_job_q : List Job
  pub persistent_job : Option Job
  pub attr : Attr
  pub stats : Stats

abbrev pub no_stats : Stats
no_stats = record {
  total_time_hq = 0;
  total_jobs_hq = 0;
  total_time_mq = 0;
  total_jobs_mq = 0;
  total_time_lq = 0;
  total_jobs_lq = 0;
  total_work_time = 0;
  total_idle_time = 0;
  worker_threads = pos 0;
  idle_threads = pos 0;
  max_threads = 0;
}

-- `Internal::Internal` before it creates its workers.
abbrev pub new_pool : Attr → Pool
new_pool attr = record {
  last_job_id = 0;
  shuttingdown = false;
  total_threads = 0;
  busy_threads = 0;
  persistent_threads = 0;
  low_job_q = [];
  med_job_q = [];
  high_job_q = [];
  persistent_job = none;
  attr = attr;
  stats = no_stats;
}

-- `EMAXTHREADS`.
abbrev pub emaxthreads : ℤ
emaxthreads = negsuc 1

-- `INVALID_POLICY`.
abbrev pub invalid_policy : ℤ
invalid_policy = negsuc 2
