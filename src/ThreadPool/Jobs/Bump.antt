-- ===== src/ThreadPool/Jobs/Bump.antt =====
-- What `bumpPriority` leaves in the queues, and which job comes next.
use npupnp.Common.{
  ℕ, zero, suc, ◌+◌, ◌*◌, ◌≤◌, ◌<◌, ◌≡◌, refl, Option, none, some, List, [], ◌∷◌, ◌++◌, length,
  length-append, tally, tally-append, arith, Option-cases, inl, inr,
}
use npupnp.ThreadPool.Defs.{Job, Pool}
use npupnp.ThreadPool.Jobs.{bump_med, bump_low, bump_loop, bump_priority, waited, pick, next_job}

-- The job in front, if any, has waited less than the limit.
abbrev pub IsFresh : ℕ → ℕ → List Job → Type 0
IsFresh now limit [] = Unit {0}
IsFresh now limit (j ∷ q) = waited now j < limit

abbrev pub IsBumped : ℕ → Pool → Type 0
IsBumped now p =
    IsFresh now p.attr.starvation_time p.med_job_q × IsFresh now p.attr.max_idle_time p.low_job_q

-- The weights of the jobs in all the queues, added up: with the weight 1 for one job and 0 for
-- the others, how often it is there.
abbrev pub jobs_with : (Job → ℕ) → Pool → ℕ
jobs_with f p = tally f p.high_job_q + tally f p.med_job_q + tally f p.low_job_q

abbrev moves_left : Pool → ℕ
moves_left p = 2 * length p.low_job_q + length p.med_job_q

IsFresh-empty : (now limit : ℕ) (q : List Job) → length q ≤ 0 → IsFresh now limit q
IsFresh-empty now limit [] h = tt
IsFresh-empty now limit (j ∷ q) h = ground arith

bump_med-none :
    (now : ℕ) (p : Pool) (q : List Job)
    → bump_med now p q ≡ none
    → IsFresh now p.attr.starvation_time q
unfolding bump_med
bump_med-none now p [] e = ground arith
bump_med-none now p (j ∷ q) e = ground (arith, e)

bump_low-none :
    (now : ℕ) (p : Pool) (q : List Job)
    → bump_low now p q ≡ none
    → IsFresh now p.attr.max_idle_time q
unfolding bump_low
bump_low-none now p [] e = ground arith
bump_low-none now p (j ∷ q) e = ground (arith, e)

bump_med-some :
    (now : ℕ) (p r : Pool) (f : Job → ℕ) (q : List Job)
    → p.med_job_q ≡ q
    → bump_med now p q ≡ some r
    → (moves_left r + 1 ≡ moves_left p) × (jobs_with f r ≡ jobs_with f p) × (r.attr ≡ p.attr)
unfolding bump_med
bump_med-some now p r f [] same e = ground (arith, e)
bump_med-some now p r f (j ∷ q) same e =
    ground (arith, e, same, tally-append f p.high_job_q (j ∷ []))

bump_low-some :
    (now : ℕ) (p r : Pool) (f : Job → ℕ) (q : List Job)
    → p.low_job_q ≡ q
    → bump_low now p q ≡ some r
    → (moves_left r + 1 ≡ moves_left p) × (jobs_with f r ≡ jobs_with f p) × (r.attr ≡ p.attr)
unfolding bump_low
bump_low-some now p r f [] same e = ground (arith, e)
bump_low-some now p r f (j ∷ q) same e =
    ground (arith, e, same, tally-append f p.med_job_q (j ∷ []), length-append p.med_job_q (j ∷ []))

bump_loop_lem :
    (fuel now : ℕ) (p : Pool) (f : Job → ℕ)
    → moves_left p ≤ fuel
    → IsBumped now (bump_loop fuel now p)
      × (jobs_with f (bump_loop fuel now p) ≡ jobs_with f p)
      × ((bump_loop fuel now p).attr ≡ p.attr)
unfolding bump_loop
bump_loop_lem zero now p f enough = (
  (
    IsFresh-empty now p.attr.starvation_time p.med_job_q (omega arith),
    IsFresh-empty now p.attr.max_idle_time p.low_job_q (omega arith),
  ),
  refl,
  refl,
)
bump_loop_lem (suc fuel) now p f enough = elim (Option-cases (bump_med now p p.med_job_q)) [
  | inr (r, moved) ↦
      ground
        (arith, moved, bump_med-some now p r f p.med_job_q refl moved, bump_loop_lem fuel now r f)
  | inl stays ↦ elim (Option-cases (bump_low now p p.low_job_q)) [
    | inr (r, moved) ↦ ground (
      arith,
      stays,
      moved,
      bump_low-some now p r f p.low_job_q refl moved,
      bump_loop_lem fuel now r f,
    )
    | inl ends ↦ ground (
      arith,
      stays,
      ends,
      bump_med-none now p p.med_job_q stays,
      bump_low-none now p p.low_job_q ends,
    )
  ]
]

-- After `bumpPriority` the job in front of the medium queue has waited less than the starvation
-- time, and the one in front of the low queue less than the idle time; no job is lost or
-- duplicated, whichever weights count them.
pub bump_priority_lem :
    (now : ℕ) (p : Pool) (f : Job → ℕ)
    → IsBumped now (bump_priority now p) × (jobs_with f (bump_priority now p) ≡ jobs_with f p)
unfolding bump_priority
bump_priority_lem now p f =
    let all = bump_loop_lem (moves_left p) now p f (omega arith) in ground (arith, all)

-- The jobs in the order in which they are taken.
abbrev pub waiting : Pool → List Job
waiting p = p.high_job_q ++ (p.med_job_q ++ p.low_job_q)

abbrev pub IsServed : Pool → Option (Job × Pool) → Type 0
IsServed p none = waiting p ≡ []
IsServed p (some (j, q)) = waiting p ≡ j ∷ waiting q

pick_lem :
    (now : ℕ) (p : Pool) (high med low : List Job)
    → p.high_job_q ≡ high
    → p.med_job_q ≡ med
    → p.low_job_q ≡ low
    → IsServed p (pick now p high med low)
unfolding pick
pick_lem now p (j ∷ q) med low h m l = rw h refl
pick_lem now p [] (j ∷ q) low h m l = simp (h, m) refl
pick_lem now p [] [] (j ∷ q) h m l = simp (h, m, l) refl
pick_lem now p [] [] [] h m l = simp (h, m, l) refl

-- A worker gets the first job of the highest queue that has one, and leaves the others in their
-- order; it gets none just when all the queues are empty.
pub next_job_lem : (now : ℕ) (p : Pool) → IsServed p (next_job now p)
unfolding next_job
next_job_lem now p = pick_lem now p p.high_job_q p.med_job_q p.low_job_q refl refl refl
