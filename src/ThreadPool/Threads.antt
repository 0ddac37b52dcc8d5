-- ===== src/ThreadPool/Threads.antt =====
-- The threads of the pool: `createWorker`, `addWorker`, `addJob`, `addPersistent`, `setAttr`,
-- `shutdown` and the locked sections of `WorkerThread`. Where `createWorker` waits for the new
-- thread, that thread is the next to take the lock; `pendingWorkerThreadStart` is set only there.
pub mod Growth
pub mod System
pub mod Account
pub mod Limits
use npupnp.Common.{
  ℕ, zero, suc, ◌+◌, ◌-◌, ◌/◌, Bool, true, false, not, ◌&&◌, ◌||◌, Option, none, some, List, [],
  ◌∷◌, ◌++◌, ◌==◌, ltb, leb, if◌then◌else◌, null, replicate, get_elem?, set, erase_at, ℤ, pos,
  eqb_ℤ, suc_ℤ, pred_ℤ, minus_one,
}
use npupnp.ThreadPool.Defs.{Priority, Job, Attr, Stats, Pool, emaxthreads, invalid_policy, new_pool}
use npupnp.ThreadPool.Jobs.{bump_priority, next_job, job_count, enqueue}

abbrev pub exceeds : ℕ → Option ℕ → Bool
exceeds n none = false
exceeds n (some limit) = ltb limit n

-- The first locked section of `WorkerThread`.
abbrev pub worker_start : Pool → Pool
worker_start p = record p { total_threads = p.total_threads + 1 }

abbrev pub note_max : Pool → Pool
note_max p = record p {
  stats = record p.stats {
    max_threads =
        if ltb p.stats.max_threads p.total_threads then p.total_threads else p.stats.max_threads;
  };
}

unfoldable pub create_worker : Pool → Pool × ℤ
create_worker p =
    if exceeds (p.total_threads + 1) p.attr.max_threads
    then (p, emaxthreads)
    else (note_max (worker_start p), pos 0)

-- The condition of the loop of `addWorker`.
abbrev pub needs_worker : ℕ → ℕ → Pool → Bool
needs_worker jobs threads p =
    threads == 0 || leb p.attr.jobs_per_thread (jobs / threads) || p.total_threads == p.busy_threads

-- The Boolean tells that the loop ended before the fuel.
pub add_loop : ℕ → ℕ → ℕ → Pool → Pool × Bool
add_loop zero jobs threads p = (p, false)
add_loop (suc fuel) jobs threads p =
    let (created, code) = create_worker p in
    let more = add_loop fuel jobs (threads + 1) created in
    if needs_worker jobs threads p
    then if eqb_ℤ code (pos 0) then more else (created, true)
    else (p, true)

-- Once there are more threads than jobs, and one that is not busy, the loop ends.
unfoldable pub add_worker : Pool → Pool × Bool
add_worker p = add_loop (job_count p + 3) (job_count p) (p.total_threads - p.persistent_threads) p

abbrev pub new_job : ℕ → ℕ → Priority → Pool → Job
new_job now worker prio p = record {
  worker = worker;
  priority = prio;
  request_time = now;
  job_id = p.last_job_id;
}

abbrev pub next_id : Pool → Pool
next_id p = record p { last_job_id = p.last_job_id + 1 }

-- With too many jobs the new one is dropped; the code is 0 all the same. The Boolean tells that
-- the loop of `addWorker` ended: where it is false, the code does not return.
unfoldable pub add_job : ℕ → ℕ → Priority → Pool → Pool × ℤ × Bool
add_job now worker prio p =
    if leb p.attr.max_jobs_total (job_count p)
    then (p, pos 0, true)
    else let (added, ended) = add_worker (enqueue (new_job now worker prio p) prio p) in
      (next_id added, pos 0, ended)

abbrev below_max : ℕ → Option ℕ → Bool
below_max n none = false
below_max n (some limit) = ltb n limit

abbrev put_persistent : ℕ → ℕ → Priority → Pool → Pool
put_persistent now worker prio p = record p { persistent_job = some (new_job now worker prio p) }

-- `addPersistent` up to where it waits; what follows the wait is `next_id`, a section of its own.
unfoldable pub add_persistent : ℕ → ℕ → Priority → Pool → Pool × ℤ
add_persistent now worker prio p =
    if below_max p.total_threads p.attr.max_threads
    then (put_persistent now worker prio (create_worker p).0, pos 0)
    else if p.total_threads == p.persistent_threads + 1
    then (p, emaxthreads)
    else (put_persistent now worker prio p, pos 0)

-- `shutdown` up to where it waits for the threads.
unfoldable pub shutdown_begin : Pool → Pool
shutdown_begin p = record p {
  high_job_q = [];
  med_job_q = [];
  low_job_q = [];
  persistent_job = none;
  shuttingdown = true;
}

-- The loops of the constructor and of `setAttr` that create the least number of threads.
pub create_workers : ℕ → Pool → Pool × ℤ
create_workers zero p = (p, pos 0)
create_workers (suc n) p =
    let (created, code) = create_worker p in
    let more = create_workers n created in if eqb_ℤ code (pos 0) then more else (created, code)

-- `Internal::Internal` with `ThreadPool::start`: -1 where the least number of threads is not
-- created, and the pool is shut down.
unfoldable pub start_pool : Bool → Attr → Pool × ℤ
unfolding create_workers
start_pool policy_ok attr =
    if not policy_ok
    then (new_pool attr, minus_one)
    else let (p, code) = create_workers attr.min_threads (new_pool attr) in
      if eqb_ℤ code (pos 0) then (p, pos 0) else (shutdown_begin p, minus_one)

-- With the system's answer to `SetPolicyType`. A failure to create threads shuts the pool down.
unfoldable pub set_attr : Bool → Attr → Pool → Pool × ℤ
unfolding create_workers
set_attr policy_ok attr p =
    if not policy_ok
    then (p, invalid_policy)
    else let changed : Pool = record p { attr = attr } in
      let (q, code) = create_workers (attr.min_threads - p.total_threads) changed in
      (if eqb_ℤ code (pos 0) then q else shutdown_begin q, code)

-- A worker thread where it does not hold the lock: just started, at work on a job (and whether
-- that is a persistent one), or in `wait_for`; with its variable `start`, in seconds.
pub data Thread : Type 0 where
  started : ℕ → Thread
  running : Job → Bool → ℕ → Thread
  waiting : ℕ → Thread

abbrev pub go_idle : ℕ → ℕ → Pool → Pool
go_idle wall start p = record p {
  stats = record p.stats {
    idle_threads = suc_ℤ p.stats.idle_threads;
    total_work_time = p.stats.total_work_time + (wall - start);
  };
}

abbrev pub job_over : Bool → Pool → Pool
job_over true p = record p {
  busy_threads = p.busy_threads - 1;
  persistent_threads = p.persistent_threads - 1;
}
job_over false p = record p {
  busy_threads = p.busy_threads - 1;
  stats = record p.stats { worker_threads = pred_ℤ p.stats.worker_threads };
}

-- From the lock to the loop that waits.
unfoldable pub worker_return : ℕ → Thread → Pool → Pool
worker_return wall (started start) p = go_idle wall start p
worker_return wall (running j persistent start) p = job_over persistent (go_idle wall start p)
worker_return wall (waiting start) p = p

abbrev pub is_idle : Pool → Bool
is_idle p =
    null p.low_job_q
    && null p.med_job_q
    && null p.high_job_q
    && elim p.persistent_job [ none ↦ true | some j ↦ false ]
    && not p.shuttingdown

abbrev pub may_die : Bool → Pool → Bool
may_die timed_out p =
    timed_out && ltb p.attr.min_threads p.total_threads
    || exceeds p.total_threads p.attr.max_threads

abbrev pub not_idle : Pool → Pool
not_idle p = record p { stats = record p.stats { idle_threads = pred_ℤ p.stats.idle_threads } }

-- From `exit_function` on.
abbrev pub exit_thread : Pool → Pool
exit_thread p = record p { total_threads = p.total_threads - 1 }

abbrev pub now_busy : Pool → Pool
now_busy p = record p { busy_threads = p.busy_threads + 1 }

abbrev pub add_idle_time : ℕ → Pool → Pool
add_idle_time n p = record p {
  stats = record p.stats { total_idle_time = p.stats.total_idle_time + n };
}

abbrev pub as_worker : Pool → Pool
as_worker p = record p { stats = record p.stats { worker_threads = suc_ℤ p.stats.worker_threads } }

-- A regular job, if there is one.
abbrev pub take_regular : ℕ → Option (Job × Pool) → Pool → Option Thread × Pool
take_regular wall none p = (none, exit_thread p)
take_regular wall (some (j, q)) p = (some (running j false wall), now_busy (as_worker q))

abbrev pub take_persistent : ℕ → Job → Pool → Option Thread × Pool
take_persistent wall j p = (
  some (running j true wall),
  now_busy (record p { persistent_job = none; persistent_threads = p.persistent_threads + 1 }),
)

-- From the loop that waits to the job, on the bumped pool.
pub take_job : ℕ → ℕ → Pool → Option Thread × Pool
take_job now wall p = if p.shuttingdown then (none, exit_thread p) else elim p.persistent_job [
  | some j ↦ take_persistent wall j p
  | none ↦ take_regular wall (next_job now p) p
]

-- The loop that waits, and what follows it; a thread that is `none` has ended. `timed_out` is
-- what the last `wait_for` returned.
unfoldable pub worker_next : Bool → ℕ → ℕ → ℕ → Pool → Option Thread × Pool
unfolding take_job
worker_next timed_out now wall start p =
    if is_idle p
    then if may_die timed_out p then (none, exit_thread (not_idle p)) else (some (waiting start), p)
    else take_job now wall (bump_priority now (add_idle_time (wall - start) (not_idle p)))
