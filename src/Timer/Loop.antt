-- ===== src/Timer/Loop.antt =====
-- The loop of the timer thread: which jobs it hands to the pool, and in which order.
use npupnp.Common.{
  ℕ, zero, suc, ◌≤◌, ◌<◌, ◌≡◌, refl, ◌∙◌, Bool, true, false, not, List, [], ◌∷◌, ◌++◌, map, inl,
  inr, Bool-cases, leb, All, keep, length, append_assoc, arith,
}
use npupnp.Timer.{
  TimerEvent, Timer, Action, exits, waits, waits_until, hand_over, front, work_round, work_rounds,
  is_blocking, schedule, remove, shutdown_begin,
}
use npupnp.Timer.Order.{IsValid, IsSorted, Call, schedules, removes, shuts_down, works, step}

abbrev pub is_due : ℕ → TimerEvent → Bool
is_due now e = leb e.event_time now

abbrev pub is_later : ℕ → TimerEvent → Bool
is_later now e = not (leb e.event_time now)

abbrev pub job_of : TimerEvent → Action
job_of e = hand_over e e.persistence

-- What the thread waits for when this queue is left.
abbrev pub wait_for : List TimerEvent → Action
wait_for [] = waits
wait_for (e ∷ rest) = waits_until e.event_time

none_due :
    (now t : ℕ) (q : List TimerEvent)
    → now < t
    → All (λ y. t ≤ y.event_time) q
    → (keep (is_due now) q ≡ []) × (keep (is_later now) q ≡ q)
none_due now t [] h a = (refl, refl)
none_due now t (x ∷ xs) h a = ground (arith, none_due now t xs h a.1)

is_blocking-job_of : (e : TimerEvent) → is_blocking (job_of e) ≡ false
is_blocking-job_of e = ground arith

round_due :
    (now : ℕ) (t : Timer) (x : TimerEvent) (xs : List TimerEvent)
    → t.event_q ≡ x ∷ xs
    → t.inshutdown ≡ false
    → leb x.event_time now ≡ true
    → work_round now t ≡ (record t { event_q = xs }, job_of x)
unfolding work_round front
round_due now t x xs e d h = ground arith

round_later :
    (now : ℕ) (t : Timer) (x : TimerEvent) (xs : List TimerEvent)
    → t.event_q ≡ x ∷ xs
    → t.inshutdown ≡ false
    → leb x.event_time now ≡ false
    → work_round now t ≡ (t, waits_until x.event_time)
unfolding work_round front
round_later now t x xs e d h = ground arith

work_rounds-go :
    (fuel now : ℕ) (t : Timer) (q : List TimerEvent) (done : List Action)
    → length q < fuel
    → t.event_q ≡ q
    → t.inshutdown ≡ false
    → IsSorted q
    → work_rounds fuel now t done ≡ (
      record t { event_q = keep (is_later now) q },
      done ++ (map job_of (keep (is_due now) q) ++ (wait_for (keep (is_later now) q) ∷ [])),
      true,
    )
unfolding work_rounds work_round front
work_rounds-go zero now t q done f e d s = absurd (omega arith)
work_rounds-go (suc fuel) now t [] done f e d s = ground arith
work_rounds-go (suc fuel) now t (x ∷ xs) done f e d s = elim (Bool-cases (leb x.event_time now)) [
  | inl due ↦
      rw (round_due now t x xs e d due, is_blocking-job_of x, due)
        (work_rounds-go fuel now (record t { event_q = xs }) xs (done ++ job_of x ∷ [])
            (omega arith) refl d s.1
          ∙ rw append_assoc)
  | inr later ↦
      rw (round_later now t x xs e d later, later)
        (ground (arith, none_due now x.event_time xs (ground arith) s.0))
]

-- At one reading of the clock, a valid timer that is not shutting down hands over exactly the
-- events whose time has come, in the order of the queue, keeps exactly the others, and then
-- waits for the first of these. It does so within one round more than there are events.
pub work_rounds_lem :
    (now : ℕ) (t : Timer)
    → IsValid t
    → t.inshutdown ≡ false
    → work_rounds (suc (length t.event_q)) now t [] ≡ (
      record t { event_q = keep (is_later now) t.event_q },
      map job_of (keep (is_due now) t.event_q) ++ (wait_for (keep (is_later now) t.event_q) ∷ []),
      true,
    )
work_rounds_lem now t v d =
    work_rounds-go (suc (length t.event_q)) now t t.event_q [] (omega arith) refl d v.sorted

-- A history of calls by clients, with no round of the timer thread.
abbrev pub calls : Timer → List Call → Timer
calls t [] = t
calls t (c ∷ cs) = calls (step t c) cs

abbrev pub IsClientCall : Call → Type 0
IsClientCall (works now) = ⊥
IsClientCall _ = Unit

calls-inshutdown :
    (t : Timer) (cs : List Call)
    → All IsClientCall cs
    → t.inshutdown ≡ true
    → (calls t cs).inshutdown ≡ true
unfolding schedule remove shutdown_begin
calls-inshutdown t [] a h = h
calls-inshutdown t (schedules d w k p ∷ cs) a h =
    calls-inshutdown (step t (schedules d w k p)) cs a.1 h
calls-inshutdown t (removes i ∷ cs) a h =
    calls-inshutdown (step t (removes i)) cs a.1 (ground arith)
calls-inshutdown t (shuts_down ∷ cs) a h = calls-inshutdown (step t (shuts_down)) cs a.1 refl
calls-inshutdown t (works now ∷ cs) a h = elim a.0 [ ]

-- Once `shutdown` has begun, whatever clients schedule or remove before the thread runs again,
-- its next round hands over no job: it leaves, and lowers the flag that `shutdown` waits for.
work_round-shutdown :
    (now : ℕ) (t : Timer) (cs : List Call)
    → All IsClientCall cs
    → ((work_round now (calls (shutdown_begin t) cs)).1 ≡ exits)
      × ((work_round now (calls (shutdown_begin t) cs)).0.inshutdown ≡ false)
unfolding work_round
work_round-shutdown now t cs a =
    rw (calls-inshutdown (shutdown_begin t) cs a begun, work_round) (refl, refl)
  where
    begun : (shutdown_begin t).inshutdown ≡ true
    begun = unfold shutdown_begin in refl
