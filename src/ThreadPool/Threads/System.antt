-- ===== src/ThreadPool/Threads/System.antt =====
-- The pool with its threads, and the locked sections in any order.
use npupnp.Common.{
  [], ◌∷◌, ℕ, ◌-◌, ◌≡◌, Bool, true, false, Option, none, some, List, ◌++◌, replicate, get_elem?,
  set, erase_at, tally,
}
use npupnp.ThreadPool.Defs.{new_pool, Priority, Attr, Pool}
use npupnp.ThreadPool.Threads.{
  start_pool, Thread, started, running, waiting, add_job, add_persistent, shutdown_begin, set_attr,
  worker_return, worker_next, next_id,
}

-- The pool, and its threads where none of them holds the lock.
pub record System : Type 0 where
  pub pool : Pool
  pub threads : List Thread

-- The locked sections: a worker that starts or has done its job, a worker that wakes up, and the
-- calls. The first number of `returned` and `woken` is the thread's place. A call that may create
-- threads has the wall clock in front, which they read as they start. `picked_up` is the end of
-- `addPersistent`, behind its wait.
pub data Call : Type 0 where
  returned : ℕ → ℕ → ℕ → Call
  woken : ℕ → Bool → ℕ → ℕ → Call
  added : ℕ → ℕ → ℕ → Priority → Call
  added_persistent : ℕ → ℕ → ℕ → Priority → Call
  picked_up : Call
  attr_set : ℕ → Bool → Attr → Call
  shut_down : Call

abbrev pub put_back : ℕ → Option Thread × Pool → System → System
put_back i (none, p) s = record { pool = p; threads = erase_at s.threads i }
put_back i (some t, p) s = record { pool = p; threads = set s.threads i t }

-- The threads that a call has created take their place behind the others.
abbrev pub grown : ℕ → Pool → System → System
grown wall p s = record {
  pool = p;
  threads = s.threads ++ replicate (p.total_threads - s.pool.total_threads) (started wall);
}

abbrev pub returns : ℕ → ℕ → ℕ → Option Thread → System → System
returns i now wall (some (started start)) s =
    put_back i (worker_next false now wall wall (worker_return wall (started start) s.pool)) s
returns i now wall (some (running j b start)) s =
    put_back i (worker_next false now wall wall (worker_return wall (running j b start) s.pool)) s
returns i now wall _ s = s

abbrev pub wakes : ℕ → Bool → ℕ → ℕ → Option Thread → System → System
wakes i timed_out now wall (some (waiting start)) s =
    put_back i (worker_next timed_out now wall start s.pool) s
wakes i timed_out now wall _ s = s

abbrev pub step : System → Call → System
step s (returned i now wall) = returns i now wall (get_elem? s.threads i) s
step s (woken i timed_out now wall) = wakes i timed_out now wall (get_elem? s.threads i) s
step s (added wall now worker prio) = grown wall (add_job now worker prio s.pool).0 s
step s (added_persistent wall now worker prio) =
    grown wall (add_persistent now worker prio s.pool).0 s
step s picked_up = grown 0 (next_id s.pool) s
step s (attr_set wall policy_ok attr) = grown wall (set_attr policy_ok attr s.pool).0 s
step s shut_down = grown 0 (shutdown_begin s.pool) s

abbrev pub one : Thread → ℕ
one t = 1

abbrev pub if_busy : Thread → ℕ
if_busy (running j b start) = 1
if_busy _ = 0

abbrev pub if_persistent : Thread → ℕ
if_persistent (running j true start) = 1
if_persistent _ = 0

-- The pool counts its threads, those at work, and those at work on a persistent job.
abbrev pub IsCounted : System → Type 0
IsCounted s =
    (s.pool.total_threads ≡ tally one s.threads)
    × (s.pool.busy_threads ≡ tally if_busy s.threads)
    × (s.pool.persistent_threads ≡ tally if_persistent s.threads)

-- The calls and the sections of workers in some order.
abbrev pub run : System → List Call → System
run s [] = s
run s (c ∷ cs) = run (step s c) cs

-- The pool that `start` makes, with its threads.
abbrev pub started_system : ℕ → Bool → Attr → System
started_system wall policy_ok attr =
    grown wall (start_pool policy_ok attr).0 (record { pool = new_pool attr; threads = [] })
