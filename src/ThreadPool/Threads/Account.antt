-- ===== src/ThreadPool/Threads/Account.antt =====
-- The counters of threads against the threads that there are, over every order of the locked
-- sections of the workers and of the calls of the pool.
use npupnp.Common.{
  [], ◌∷◌, ◌≤◌, ℕ, zero, suc, ◌+◌, ◌-◌, ◌≤◌, ◌<◌, ◌≡◌, inl, inr, refl, Bool, true, false, Option,
  none, some, List, replicate, get_elem?, tally, tally-append, tally-set, tally-erase_at, arith,
  Option-cases,
}
use npupnp.ThreadPool.Defs.{new_pool, Job, Attr, Pool}
use npupnp.ThreadPool.Jobs.{bump_priority, next_job}
use npupnp.ThreadPool.Threads.{
  start_pool, Thread, started, running, waiting, add_job, add_persistent, shutdown_begin, set_attr,
  next_id, worker_return, worker_next, take_job, add_idle_time, not_idle,
}
use npupnp.ThreadPool.Jobs.Counters.{HasSame, bump_priority-HasSame, next_job-HasSame}
use npupnp.ThreadPool.Threads.Limits.{IsAccounted}
use npupnp.ThreadPool.Threads.Growth.{
  create_workers-HasGrown, HasGrown, add_job-HasGrown, add_persistent-HasGrown, set_attr-HasGrown,
}
use npupnp.ThreadPool.Threads.System.{
  System, Call, returned, woken, added, added_persistent, picked_up, attr_set, shut_down, put_back,
  grown, returns, wakes, step, one, if_busy, if_persistent, IsCounted, run, started_system,
}

tally-replicate :
    (w : Thread → ℕ) (wall n : ℕ)
    → tally w (replicate n (started wall)) ≡ tally (λ (u : ℕ). w (started wall)) (replicate n 0)
tally-replicate w wall zero = refl
tally-replicate w wall (suc n) = ground (arith, tally-replicate w wall n)

tally_zero : (n : ℕ) → tally (λ (u : ℕ). 0) (replicate n 0) ≡ 0
tally_zero zero = refl
tally_zero (suc n) = ground (arith, tally_zero n)

tally_one : (n : ℕ) → tally (λ (u : ℕ). 1) (replicate n 0) ≡ n
tally_one zero = refl
tally_one (suc n) = ground (arith, tally_one n)

grown-IsCounted :
    (wall : ℕ) (p : Pool) (s : System)
    → IsCounted s
    → HasGrown s.pool p
    → IsCounted (grown wall p s)
grown-IsCounted wall p s counted more =
    let n : ℕ = p.total_threads - s.pool.total_threads in
    let new : List Thread = replicate n (started wall) in
    ground (
      arith,
      counted,
      more,
      tally-append one s.threads new,
      tally-replicate one wall n,
      tally_one n,
      tally-append if_busy s.threads new,
      tally-replicate if_busy wall n,
      tally_zero n,
      tally-append if_persistent s.threads new,
      tally-replicate if_persistent wall n,
    )

abbrev weight : (Thread → ℕ) → Option Thread → ℕ
weight w none = 0
weight w (some t) = w t

-- What a worker's section has done to the counters of the pool without that worker.
abbrev HasTaken : Pool → Option Thread × Pool → Type 0
HasTaken p (t, q) =
    (q.total_threads + 1 ≡ p.total_threads + weight one t)
    × (q.busy_threads ≡ p.busy_threads + weight if_busy t)
    × (q.persistent_threads ≡ p.persistent_threads + weight if_persistent t)

take_job-HasTaken :
    (now wall : ℕ) (p : Pool) → 0 < p.total_threads → HasTaken p (take_job now wall p)
unfolding take_job
take_job-HasTaken now wall p some_thread = elim (Option-cases p.persistent_job) [
  | inr (j, found) ↦ ground (arith, found)
  | inl lost ↦ elim (Option-cases (next_job now p)) [
    | inl empty ↦ ground (arith, lost, empty)
    | inr ((j, q), next) ↦ ground (arith, lost, next, next_job-HasSame now p q j next)
  ]
]

worker_next-HasTaken :
    (timed_out : Bool) (now wall start : ℕ) (p : Pool)
    → 0 < p.total_threads
    → HasTaken p (worker_next timed_out now wall start p)
unfolding worker_next
worker_next-HasTaken timed_out now wall start p some_thread =
    let woken : Pool = add_idle_time (wall - start) (not_idle p) in
    ground
      (arith, bump_priority-HasSame now woken, take_job-HasTaken now wall (bump_priority now woken))

worker_return_started :
    (wall start : ℕ) (p : Pool) → HasSame p (worker_return wall (started start) p)
unfolding worker_return
worker_return_started wall start p = (refl, refl, refl)

put_back-IsCounted :
    (i : ℕ) (t : Thread) (r : Option Thread × Pool) (p : Pool) (s : System)
    → get_elem? s.threads i ≡ some t
    → HasTaken p r
    → p.total_threads ≡ tally one s.threads
    → p.busy_threads + if_busy t ≡ tally if_busy s.threads
    → p.persistent_threads + if_persistent t ≡ tally if_persistent s.threads
    → IsCounted (put_back i r s)
put_back-IsCounted i t (none, q) p s found taken total busy persistent = ground (
  arith,
  taken,
  tally-erase_at one s.threads i t found,
  tally-erase_at if_busy s.threads i t found,
  tally-erase_at if_persistent s.threads i t found,
)
put_back-IsCounted i t (some u, q) p s found taken total busy persistent = ground (
  arith,
  taken,
  tally-set one s.threads i t u found,
  tally-set if_busy s.threads i t u found,
  tally-set if_persistent s.threads i t u found,
)

worker_return_running :
    (wall start : ℕ) (j : Job) (b : Bool) (p : Pool)
    → 0 < p.busy_threads
    → if_persistent (running j b start) ≤ p.persistent_threads
    → ((worker_return wall (running j b start) p).total_threads ≡ p.total_threads)
      × ((worker_return wall (running j b start) p).busy_threads + 1 ≡ p.busy_threads)
      × ((worker_return wall (running j b start) p).persistent_threads
            + if_persistent (running j b start)
          ≡ p.persistent_threads)
unfolding worker_return
worker_return_running wall start j true p busy persistent = ground arith
worker_return_running wall start j false p busy persistent = ground arith

counts_at :
    (i : ℕ) (t : Thread) (ts : List Thread)
    → get_elem? ts i ≡ some t
    → (0 < tally one ts)
      × (if_busy t ≤ tally if_busy ts)
      × (if_persistent t ≤ tally if_persistent ts)
counts_at i t ts found = ground (
  arith,
  tally-erase_at one ts i t found,
  tally-erase_at if_busy ts i t found,
  tally-erase_at if_persistent ts i t found,
)

returns-IsCounted :
    (i now wall : ℕ) (t : Thread) (s : System)
    → IsCounted s
    → get_elem? s.threads i ≡ some t
    → IsCounted (returns i now wall (some t) s)
returns-IsCounted i now wall (started start) s counted found =
    let p : Pool = worker_return wall (started start) s.pool in
    let same = worker_return_started wall start s.pool in
    let some_thread = counts_at i (started start) s.threads found in
    put_back-IsCounted i (started start) (worker_next false now wall wall p) p s found
      (worker_next-HasTaken false now wall wall p (omega arith)) (omega arith) (omega arith)
      (omega arith)
returns-IsCounted i now wall (running j b start) s counted found =
    let p : Pool = worker_return wall (running j b start) s.pool in
    let some_thread = counts_at i (running j b start) s.threads found in
    let over = worker_return_running wall start j b s.pool (omega arith) (omega arith) in
    put_back-IsCounted i (running j b start) (worker_next false now wall wall p) p s found
      (worker_next-HasTaken false now wall wall p (omega arith)) (omega arith) (omega arith)
      (omega arith)
returns-IsCounted i now wall (waiting start) s counted found = counted

wakes-IsCounted :
    (i : ℕ) (timed_out : Bool) (now wall : ℕ) (t : Thread) (s : System)
    → IsCounted s
    → get_elem? s.threads i ≡ some t
    → IsCounted (wakes i timed_out now wall (some t) s)
wakes-IsCounted i timed_out now wall (started start) s counted found = counted
wakes-IsCounted i timed_out now wall (running j b start) s counted found = counted
wakes-IsCounted i timed_out now wall (waiting start) s counted found =
    let some_thread = counts_at i (waiting start) s.threads found in
    put_back-IsCounted i (waiting start) (worker_next timed_out now wall start s.pool) s.pool s
      found (worker_next-HasTaken timed_out now wall start s.pool (omega arith)) (omega arith)
      (omega arith) (omega arith)

shutdown_begin-HasGrown : (p : Pool) → HasGrown p (shutdown_begin p)
unfolding shutdown_begin
shutdown_begin-HasGrown p = ground arith

-- If the pool's `totalThreads`, `busyThreads` and `persistentThreads` are the numbers of its
-- threads, of those at work and of those at work on a persistent job, they are so after any
-- locked section of a worker and after any call.
pub step-IsCounted : (s : System) (c : Call) → IsCounted s → IsCounted (step s c)
step-IsCounted s (returned i now wall) counted = elim (Option-cases (get_elem? s.threads i)) [
  | inl lost ↦ simp (lost) counted
  | inr (t, found) ↦ simp (found) (returns-IsCounted i now wall t s counted found)
]
step-IsCounted s (woken i timed_out now wall) counted =
    elim (Option-cases (get_elem? s.threads i)) [
      | inl lost ↦ simp (lost) counted
      | inr (t, found) ↦ simp (found) (wakes-IsCounted i timed_out now wall t s counted found)
    ]
step-IsCounted s (added wall now worker prio) counted =
    grown-IsCounted wall (add_job now worker prio s.pool).0 s counted
      (add_job-HasGrown now worker prio s.pool)
step-IsCounted s (added_persistent wall now worker prio) counted =
    grown-IsCounted wall (add_persistent now worker prio s.pool).0 s counted
      (add_persistent-HasGrown now worker prio s.pool)
step-IsCounted s picked_up counted = grown-IsCounted 0 (next_id s.pool) s counted (ground arith)
step-IsCounted s (attr_set wall policy_ok attr) counted =
    grown-IsCounted wall (set_attr policy_ok attr s.pool).0 s counted
      (set_attr-HasGrown policy_ok attr s.pool)
step-IsCounted s shut_down counted =
    grown-IsCounted 0 (shutdown_begin s.pool) s counted (shutdown_begin-HasGrown s.pool)

start_pool-HasGrown :
    (policy_ok : Bool) (attr : Attr) → HasGrown (new_pool attr) (start_pool policy_ok attr).0
unfolding start_pool shutdown_begin
start_pool-HasGrown policy_ok attr =
    ground (arith, create_workers-HasGrown attr.min_threads (new_pool attr))

run_steps-IsCounted : (s : System) (cs : List Call) → IsCounted s → IsCounted (run s cs)
run_steps-IsCounted s [] counted = counted
run_steps-IsCounted s (c ∷ cs) counted =
    run_steps-IsCounted (step s c) cs (step-IsCounted s c counted)

weights_order :
    (ts : List Thread)
    → (tally if_persistent ts ≤ tally if_busy ts) × (tally if_busy ts ≤ tally one ts)
weights_order [] = ground arith
weights_order (started start ∷ ts) = ground (arith, weights_order ts)
weights_order (running j true start ∷ ts) = ground (arith, weights_order ts)
weights_order (running j false start ∷ ts) = ground (arith, weights_order ts)
weights_order (waiting start ∷ ts) = ground (arith, weights_order ts)

-- In every state that a pool reaches from its start, the counters are right; so there are no more
-- persistent threads than busy ones, and no more busy ones than threads.
pub run-IsCounted :
    (wall : ℕ) (policy_ok : Bool) (attr : Attr) (cs : List Call)
    → IsCounted (run (started_system wall policy_ok attr) cs)
      × IsAccounted (run (started_system wall policy_ok attr) cs).pool
run-IsCounted wall policy_ok attr cs =
    let counted : IsCounted (run (started_system wall policy_ok attr) cs) =
      run_steps-IsCounted (started_system wall policy_ok attr) cs (
        grown-IsCounted wall (start_pool policy_ok attr).0
          (record { pool = new_pool attr; threads = [] }) (refl, refl, refl)
          (start_pool-HasGrown policy_ok attr)) in
    let order = weights_order (run (started_system wall policy_ok attr) cs).threads in
    (counted, ground (arith, counted, order))
