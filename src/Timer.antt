-- ===== src/Timer.antt =====
-- src/threadutil/TimerThread.cpp and src/inc/TimerThread.h: the queue of timed events, and the
-- loop of the timer thread. The mutex is held but while the loop waits, so each function here is
-- one locked section. The clock is an argument; a worker is the number of its object.
pub mod Order
pub mod Ids
pub mod Loop
use npupnp.Common.{
  ℕ, zero, suc, ◌+◌, ◌*◌, Bool, true, false, List, [], ◌∷◌, ◌++◌, ◌==◌, leb, if◌then◌else◌,
}
use npupnp.ThreadPool.Defs.{Priority}

pub data Duration : Type 0 where
  short_term persistent : Duration

pub data TimeoutType : Type 0 where
  abs_sec rel_sec : TimeoutType

pub record TimerEvent : Type 0 where
  pub worker : ℕ
  pub event_time : ℕ
  pub id : ℕ
  pub priority : Priority
  pub persistence : Duration

pub record Timer : Type 0 where
  pub last_event_id : ℕ
  pub event_q : List TimerEvent
  pub inshutdown : Bool

-- `TimerThread::Internal` before its thread runs.
abbrev pub idle_timer : Timer
idle_timer = record { last_event_id = 0; event_q = []; inshutdown = false }

-- The clock counts nanoseconds.
abbrev pub seconds : ℕ → ℕ
seconds n = n * 1000000000

abbrev pub milliseconds : ℕ → ℕ
milliseconds n = n * 1000000

-- `find_if (e.eventTime >= when)`, then `emplace` in front of what was found.
insert_event : TimerEvent → List TimerEvent → List TimerEvent
insert_event e [] = e ∷ []
insert_event e (x ∷ xs) =
    let rest = insert_event e xs in if leb e.event_time x.event_time then e ∷ x ∷ xs else x ∷ rest

-- `schedule` at a point in time; the number is what it stores through `id`.
unfoldable pub schedule : Duration → ℕ → ℕ → Priority → Timer → Timer × ℕ
unfolding insert_event
schedule persistence when worker priority t = (
  record t {
    event_q =
        insert_event
          (record {
            worker = worker;
            event_time = when;
            id = t.last_event_id;
            priority = priority;
            persistence = persistence;
          })
          t.event_q;
    last_event_id = t.last_event_id + 1;
  },
  t.last_event_id,
)

-- `schedule` after a delay in milliseconds.
unfoldable pub schedule_after : ℕ → Duration → ℕ → ℕ → Priority → Timer → Timer × ℕ
schedule_after now persistence delay = schedule persistence (now + milliseconds delay)

-- `schedule` at a `time_t`, absolute or relative.
unfoldable pub schedule_at : ℕ → Duration → TimeoutType → ℕ → ℕ → Priority → Timer → Timer × ℕ
schedule_at now persistence abs_sec time = schedule persistence (seconds time)
schedule_at now persistence rel_sec time = schedule persistence (now + seconds time)

-- `find_if (e.id == id)`, then `erase`.
erase_id : ℕ → List TimerEvent → List TimerEvent
erase_id i [] = []
erase_id i (x ∷ xs) = let rest = erase_id i xs in if x.id == i then xs else x ∷ rest

has_id : ℕ → List TimerEvent → Bool
has_id i [] = false
has_id i (x ∷ xs) = if x.id == i then true else has_id i xs

-- `true` is the code's 0, `false` its -1.
unfoldable pub remove : ℕ → Timer → Timer × Bool
unfolding erase_id has_id
remove i t =
    if has_id i t.event_q then (record t { event_q = erase_id i t.event_q }, true) else (t, false)

-- The part of `shutdown` before it waits for `inshutdown` to fall.
pub shutdown_begin : Timer → Timer
shutdown_begin t = record t { inshutdown = true; event_q = [] }

-- What one round of the loop does: it leaves, hands a job to the pool, or waits.
pub data Action : Type 0 where
  exits : Action
  adds_persistent adds_job : ℕ → Priority → Action
  waits_until : ℕ → Action
  waits : Action

abbrev pub hand_over : TimerEvent → Duration → Action
hand_over e persistent = adds_persistent e.worker e.priority
hand_over e short_term = adds_job e.worker e.priority

front : ℕ → Timer → List TimerEvent → Timer × Action
front now t [] = (t, waits)
front now t (e ∷ rest) =
    if leb e.event_time now
    then (record t { event_q = rest }, hand_over e e.persistence)
    else (t, waits_until e.event_time)

-- One round of `TimerJobWorker::work`, with the clock read at its start.
pub work_round : ℕ → Timer → Timer × Action
unfolding front
work_round now t =
    if t.inshutdown then (record t { inshutdown = false }, exits) else front now t t.event_q

abbrev pub is_blocking : Action → Bool
is_blocking exits = true
is_blocking (waits_until t) = true
is_blocking waits = true
is_blocking _ = false

-- Rounds at one reading of the clock, until one waits or leaves; the jobs handed over, in order.
-- `none` means that the fuel ran out.
pub work_rounds : ℕ → ℕ → Timer → List Action → Timer × List Action × Bool
unfolding work_round
work_rounds zero now t done = (t, done, false)
work_rounds (suc fuel) now t done =
    let (t', a) = work_round now t in
    let more = work_rounds fuel now t' (done ++ a ∷ []) in
    if is_blocking a then (t', done ++ a ∷ [], true) else more
