-- ===== src/ThreadPool/Jobs/Counters.antt =====
-- The queues do not touch the counters of threads.
use npupnp.Common.{ℕ, zero, suc, ◌≡◌, inl, inr, refl, some, List, [], ◌∷◌, arith, Option-cases}
use npupnp.ThreadPool.Defs.{Priority, low_priority, med_priority, high_priority, Job, Pool}
use npupnp.ThreadPool.Jobs.{bump_med, bump_low, bump_loop, bump_priority, pick, next_job, enqueue}

-- The counters of `q` are those of `p`.
abbrev pub HasSame : Pool → Pool → Type 0
HasSame p q =
    (q.total_threads ≡ p.total_threads)
    × (q.busy_threads ≡ p.busy_threads)
    × (q.persistent_threads ≡ p.persistent_threads)

pub enqueue-HasSame : (j : Job) (prio : Priority) (p : Pool) → HasSame p (enqueue j prio p)
enqueue-HasSame j low_priority p = (refl, refl, refl)
enqueue-HasSame j med_priority p = (refl, refl, refl)
enqueue-HasSame j high_priority p = (refl, refl, refl)

bump_med-HasSame : (now : ℕ) (p r : Pool) (q : List Job) → bump_med now p q ≡ some r → HasSame p r
unfolding bump_med
bump_med-HasSame now p r [] e = ground (arith, e)
bump_med-HasSame now p r (j ∷ q) e = ground (arith, e)

bump_low-HasSame : (now : ℕ) (p r : Pool) (q : List Job) → bump_low now p q ≡ some r → HasSame p r
unfolding bump_low
bump_low-HasSame now p r [] e = ground (arith, e)
bump_low-HasSame now p r (j ∷ q) e = ground (arith, e)

bump_loop-HasSame : (fuel now : ℕ) (p : Pool) → HasSame p (bump_loop fuel now p)
unfolding bump_loop
bump_loop-HasSame zero now p = (refl, refl, refl)
bump_loop-HasSame (suc fuel) now p = elim (Option-cases (bump_med now p p.med_job_q)) [
  | inr (r, moved) ↦
      ground
        (arith, moved, bump_med-HasSame now p r p.med_job_q moved, bump_loop-HasSame fuel now r)
  | inl stays ↦ elim (Option-cases (bump_low now p p.low_job_q)) [
    | inr (r, moved) ↦ ground (
      arith,
      stays,
      moved,
      bump_low-HasSame now p r p.low_job_q moved,
      bump_loop-HasSame fuel now r,
    )
    | inl ends ↦ ground (arith, stays, ends)
  ]
]

pub bump_priority-HasSame : (now : ℕ) (p : Pool) → HasSame p (bump_priority now p)
unfolding bump_priority
bump_priority-HasSame now p = bump_loop-HasSame _ now p

pick-HasSame :
    (now : ℕ) (p q : Pool) (j : Job) (high med low : List Job)
    → pick now p high med low ≡ some (j, q)
    → HasSame p q
unfolding pick
pick-HasSame now p q j (i ∷ high) med low e = ground (arith, e)
pick-HasSame now p q j [] (i ∷ med) low e = ground (arith, e)
pick-HasSame now p q j [] [] (i ∷ low) e = ground (arith, e)
pick-HasSame now p q j [] [] [] e = ground (arith, e)

pub next_job-HasSame : (now : ℕ) (p q : Pool) (j : Job) → next_job now p ≡ some (j, q) → HasSame p q
unfolding next_job
next_job-HasSame now p q j e = pick-HasSame now p q j p.high_job_q p.med_job_q p.low_job_q e
