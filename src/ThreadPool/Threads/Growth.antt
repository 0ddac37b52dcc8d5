-- ===== src/ThreadPool/Threads/Growth.antt =====
-- The calls of the pool only ever add threads.
use npupnp.Common.{ℕ, zero, suc, ◌+◌, ◌-◌, ◌≤◌, ◌≡◌, Bool, arith}
use npupnp.ThreadPool.Defs.{Priority, Job, Attr, Pool}
use npupnp.ThreadPool.Jobs.{enqueue}
use npupnp.ThreadPool.Threads.{
  create_worker, create_workers, add_loop, add_worker, add_job, add_persistent, shutdown_begin,
  set_attr, new_job,
}
use npupnp.ThreadPool.Jobs.Counters.{enqueue-HasSame}

-- The counters of `q` are those of `p`, up to more threads.
abbrev pub HasGrown : Pool → Pool → Type 0
HasGrown p q =
    (p.total_threads ≤ q.total_threads)
    × (q.busy_threads ≡ p.busy_threads)
    × (q.persistent_threads ≡ p.persistent_threads)

create_worker-HasGrown : (p : Pool) → HasGrown p (create_worker p).0
unfolding create_worker
create_worker-HasGrown p = ground arith

pub create_workers-HasGrown : (n : ℕ) (p : Pool) → HasGrown p (create_workers n p).0
unfolding create_workers
create_workers-HasGrown zero p = ground arith
create_workers-HasGrown (suc n) p =
    ground (arith, create_worker-HasGrown p, create_workers-HasGrown n (create_worker p).0)

add_loop-HasGrown : (fuel jobs threads : ℕ) (p : Pool) → HasGrown p (add_loop fuel jobs threads p).0
unfolding add_loop
add_loop-HasGrown zero jobs threads p = ground arith
add_loop-HasGrown (suc fuel) jobs threads p =
    ground (
      arith,
      create_worker-HasGrown p,
      add_loop-HasGrown fuel jobs (threads + 1) (create_worker p).0,
    )

add_worker-HasGrown : (p : Pool) → HasGrown p (add_worker p).0
unfolding add_worker
add_worker-HasGrown p = add_loop-HasGrown _ _ _ p

pub add_job-HasGrown :
    (now worker : ℕ) (prio : Priority) (p : Pool) → HasGrown p (add_job now worker prio p).0
unfolding add_job
add_job-HasGrown now worker prio p =
    let j : Job = new_job now worker prio p in
    ground (arith, enqueue-HasSame j prio p, add_worker-HasGrown (enqueue j prio p))

pub add_persistent-HasGrown :
    (now worker : ℕ) (prio : Priority) (p : Pool) → HasGrown p (add_persistent now worker prio p).0
unfolding add_persistent
add_persistent-HasGrown now worker prio p = ground (arith, create_worker-HasGrown p)

pub set_attr-HasGrown :
    (policy_ok : Bool) (attr : Attr) (p : Pool) → HasGrown p (set_attr policy_ok attr p).0
unfolding set_attr shutdown_begin
set_attr-HasGrown policy_ok attr p =
    ground (
      arith,
      create_workers-HasGrown (attr.min_threads - p.total_threads) (record p { attr = attr }),
    )
