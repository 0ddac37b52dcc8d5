-- ===== src/Timer/Order.antt =====
-- The event queue is sorted by time, whatever is scheduled and removed.
use npupnp.Common.{ℕ, ◌+◌, ◌≤◌, ◌<◌, ◌≡◌, List, [], ◌∷◌, All, arith}
use npupnp.ThreadPool.Defs.{Priority}
use npupnp.Timer.{
  TimerEvent, Timer, Duration, insert_event, erase_id, schedule, remove, shutdown_begin, work_round,
  front,
}

abbrev pub IsSorted : List TimerEvent → Type 0
IsSorted [] = Unit {0}
IsSorted (x ∷ xs) = All (λ y. x.event_time ≤ y.event_time) xs × IsSorted xs

-- The ids in the queue differ, and are below `n`.
abbrev pub HasFreshIds : ℕ → List TimerEvent → Type 0
HasFreshIds n [] = Unit {0}
HasFreshIds n (x ∷ xs) = (x.id < n) × All (λ y. y.id ≡ x.id → ⊥) xs × HasFreshIds n xs

pub record IsValid (t : Timer) : Type 0 where
  pub sorted : IsSorted t.event_q
  pub fresh : HasFreshIds t.last_event_id t.event_q

All-insert_event :
    (P : TimerEvent → Type 0) (e : TimerEvent) (q : List TimerEvent)
    → P e
    → All P q
    → All P (insert_event e q)
unfolding insert_event
All-insert_event P e [] h a = (h, tt)
All-insert_event P e (x ∷ xs) h a = ground (arith, All-insert_event P e xs h a.1)

All-le :
    (m n : ℕ) (q : List TimerEvent)
    → m ≤ n
    → All (λ y. n ≤ y.event_time) q
    → All (λ y. m ≤ y.event_time) q
All-le m n [] h a = tt
All-le m n (x ∷ xs) h a = (omega arith, All-le m n xs h a.1)

insert_event-IsSorted :
    (e : TimerEvent) (q : List TimerEvent) → IsSorted q → IsSorted (insert_event e q)
unfolding insert_event
insert_event-IsSorted e [] s = (tt, tt)
insert_event-IsSorted e (x ∷ xs) s = ground (
  arith,
  insert_event-IsSorted e xs s.1,
  All-insert_event (λ y. x.event_time ≤ y.event_time) e xs,
  All-le e.event_time x.event_time xs,
)

HasFreshIds-suc : (n : ℕ) (q : List TimerEvent) → HasFreshIds n q → HasFreshIds (n + 1) q
HasFreshIds-suc n [] h = tt
HasFreshIds-suc n (x ∷ xs) h = (omega (arith, h.0), h.1, HasFreshIds-suc n xs h.2)

pub below-ne : (n : ℕ) (q : List TimerEvent) → HasFreshIds n q → All (λ y. y.id ≡ n → ⊥) q
below-ne n [] h = tt
below-ne n (x ∷ xs) h = (λ e. omega (arith, h.0), below-ne n xs h.2)

insert_event-HasFreshIds :
    (e : TimerEvent) (m : ℕ) (q : List TimerEvent)
    → e.id < m
    → All (λ y. y.id ≡ e.id → ⊥) q
    → HasFreshIds m q
    → HasFreshIds m (insert_event e q)
unfolding insert_event
insert_event-HasFreshIds e m [] l ne h = (l, tt, tt)
insert_event-HasFreshIds e m (x ∷ xs) l ne h = ground (
  arith,
  insert_event-HasFreshIds e m xs l ne.1 h.2,
  All-insert_event (λ y. y.id ≡ x.id → ⊥) e xs (λ (p : e.id ≡ x.id). ne.0 (omega arith)),
)

All-erase_id :
    (P : TimerEvent → Type 0) (i : ℕ) (q : List TimerEvent) → All P q → All P (erase_id i q)
unfolding erase_id
All-erase_id P i [] h = tt
All-erase_id P i (x ∷ xs) h = ground (arith, All-erase_id P i xs h.1)

erase_id-IsSorted : (i : ℕ) (q : List TimerEvent) → IsSorted q → IsSorted (erase_id i q)
unfolding erase_id
erase_id-IsSorted i [] s = tt
erase_id-IsSorted i (x ∷ xs) s =
    ground
      (arith, erase_id-IsSorted i xs s.1, All-erase_id (λ y. x.event_time ≤ y.event_time) i xs s.0)

erase_id-HasFreshIds :
    (i n : ℕ) (q : List TimerEvent) → HasFreshIds n q → HasFreshIds n (erase_id i q)
unfolding erase_id
erase_id-HasFreshIds i n [] h = tt
erase_id-HasFreshIds i n (x ∷ xs) h =
    ground (arith, erase_id-HasFreshIds i n xs h.2, All-erase_id (λ y. y.id ≡ x.id → ⊥) i xs h.1)

-- What the client calls and the timer thread do to the timer.
pub data Call : Type 0 where
  schedules : Duration → ℕ → ℕ → Priority → Call
  removes : ℕ → Call
  shuts_down : Call
  works : ℕ → Call

abbrev pub step : Timer → Call → Timer
step t (schedules d when worker p) = (schedule d when worker p t).0
step t (removes i) = (remove i t).0
step t shuts_down = shutdown_begin t
step t (works now) = (work_round now t).0

front-IsValid :
    (now : ℕ) (t : Timer) (q : List TimerEvent)
    → IsSorted q
    → HasFreshIds t.last_event_id q
    → IsValid t
    → IsValid (front now t q).0
unfolding front
front-IsValid now t [] s f v = v
front-IsValid now t (e ∷ rest) s f v = ground arith

-- Every call and every round of the timer thread keeps a valid timer valid: the queue sorted by
-- time, and the ids in it distinct and below the next id.
pub step-IsValid : (t : Timer) (c : Call) → IsValid t → IsValid (step t c)
unfolding schedule remove shutdown_begin work_round
step-IsValid t (schedules d when worker p) v = record {
  sorted = insert_event-IsSorted _ t.event_q v.sorted;
  fresh =
      insert_event-HasFreshIds _ (t.last_event_id + 1) t.event_q (omega arith)
        (below-ne t.last_event_id t.event_q v.fresh)
        (HasFreshIds-suc t.last_event_id t.event_q v.fresh);
}
step-IsValid t (removes i) v = ground (
  arith,
  erase_id-IsSorted i t.event_q v.sorted,
  erase_id-HasFreshIds i t.last_event_id t.event_q v.fresh,
)
step-IsValid t shuts_down v = record { sorted = tt; fresh = tt }
step-IsValid t (works now) v = ground (arith, front-IsValid now t t.event_q v.sorted v.fresh v)
