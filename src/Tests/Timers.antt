-- ===== src/Tests/Timers.antt =====
-- The timer's theorems at concrete queues.
use npupnp.Common.{ℕ, ◌≡◌, refl, true, false, [], ◌∷◌, length, suc, arith}
use npupnp.ThreadPool.Defs.{med_priority}
use npupnp.Timer.{Timer, TimerEvent, short_term, work_rounds}
use npupnp.Timer.Order.{IsValid, step, step-IsValid, schedules}
use npupnp.Timer.Loop.{job_of, wait_for, work_rounds_lem}

abbrev event : ℕ → ℕ → TimerEvent
event id when = record {
  worker = 7;
  event_time = when;
  id = id;
  priority = med_priority;
  persistence = short_term;
}

abbrev two_events : Timer
two_events = record {
  last_event_id = 5;
  event_q = event 3 10 ∷ event 4 20 ∷ [];
  inshutdown = false;
}

two_events-IsValid : IsValid two_events
two_events-IsValid = ground arith

step-IsValid_example : IsValid (step two_events (schedules short_term 15 9 med_priority))
step-IsValid_example =
    step-IsValid two_events (schedules short_term 15 9 med_priority) two_events-IsValid

work_rounds_lem_example : work_rounds (suc (length two_events.event_q)) 15 two_events [] ≡ (
  record two_events { event_q = event 4 20 ∷ [] },
  job_of (event 3 10) ∷ wait_for (event 4 20 ∷ []) ∷ [],
  true,
)
work_rounds_lem_example = work_rounds_lem 15 two_events two_events-IsValid refl
