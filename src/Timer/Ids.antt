-- ===== src/Timer/Ids.antt =====
-- Events found by their id, after a schedule and after a removal.
use npupnp.Common.{
  ℕ, ◌+◌, length, is_some, ◌≡◌, refl, Option, none, some, List, [], ◌∷◌, ◌==◌, if◌then◌else◌, All,
  find_if, arith,
}
use npupnp.ThreadPool.Defs.{Priority}
use npupnp.Timer.{TimerEvent, Timer, Duration, insert_event, erase_id, has_id, schedule, remove}
use npupnp.Timer.Order.{IsValid, HasFreshIds, below-ne}

-- The event that `id` stands for.
abbrev pub find_event : ℕ → List TimerEvent → Option TimerEvent
find_event i = find_if (λ e. e.id == i)

find_event-insert_event :
    (j : ℕ) (e : TimerEvent) (q : List TimerEvent)
    → All (λ y. y.id ≡ e.id → ⊥) q
    → find_event j (insert_event e q) ≡ (if e.id == j then some e else find_event j q)
unfolding insert_event
find_event-insert_event j e [] h = refl
find_event-insert_event j e (x ∷ xs) h =
    ground (arith, find_event-insert_event j e xs h.1, λ (p : x.id ≡ e.id). h.0 p)

length-insert_event :
    (e : TimerEvent) (q : List TimerEvent) → length (insert_event e q) ≡ length q + 1
unfolding insert_event
length-insert_event e [] = refl
length-insert_event e (x ∷ xs) = ground (arith, length-insert_event e xs)

pub length-schedule :
    (d : Duration) (when worker : ℕ) (p : Priority) (t : Timer)
    → length (schedule d when worker p t).0.event_q ≡ length t.event_q + 1
unfolding schedule
length-schedule d when worker p t = length-insert_event _ t.event_q

-- In a valid timer, a scheduled event is found under the id that `schedule` returned, and no
-- other id changes.
pub find_event-schedule :
    (d : Duration) (when worker : ℕ) (p : Priority) (t : Timer) (j : ℕ)
    → IsValid t
    → find_event j (schedule d when worker p t).0.event_q ≡ (
        if (schedule d when worker p t).1 == j
        then some (record {
          worker = worker;
          event_time = when;
          id = (schedule d when worker p t).1;
          priority = p;
          persistence = d;
        })
        else find_event j t.event_q)
unfolding schedule
find_event-schedule d when worker p t j v =
    find_event-insert_event j _ t.event_q (below-ne t.last_event_id t.event_q v.fresh)

find_event_ne : (i : ℕ) (q : List TimerEvent) → All (λ y. y.id ≡ i → ⊥) q → find_event i q ≡ none
find_event_ne i [] h = refl
find_event_ne i (x ∷ xs) h = ground (arith, find_event_ne i xs h.1)

All-ne_eq :
    (i j : ℕ) (q : List TimerEvent) → i ≡ j → All (λ y. y.id ≡ i → ⊥) q → All (λ y. y.id ≡ j → ⊥) q
All-ne_eq i j [] e h = tt
All-ne_eq i j (x ∷ xs) e h = (λ p. h.0 (omega arith), All-ne_eq i j xs e h.1)

find_event-erase_id :
    (i j n : ℕ) (q : List TimerEvent)
    → HasFreshIds n q
    → find_event j (erase_id i q) ≡ (if i == j then none else find_event j q)
unfolding erase_id
find_event-erase_id i j n [] h = ground arith
find_event-erase_id i j n (x ∷ xs) h =
    ground (arith, find_event-erase_id i j n xs h.2, find_event_ne j xs, All-ne_eq x.id j xs)

has_id-find_event : (i : ℕ) (q : List TimerEvent) → has_id i q ≡ is_some (find_event i q)
unfolding has_id
has_id-find_event i [] = refl
has_id-find_event i (x ∷ xs) = ground (arith, has_id-find_event i xs)

-- In a valid timer, `remove` takes exactly the event with this id out of the queue, and returns
-- 0 just when there was one, else -1.
pub find_event-remove :
    (i j : ℕ) (t : Timer)
    → IsValid t
    → (find_event j (remove i t).0.event_q ≡ (if i == j then none else find_event j t.event_q))
      × ((remove i t).1 ≡ is_some (find_event i t.event_q))
unfolding remove
find_event-remove i j t v = ground (
  arith,
  find_event-erase_id i j t.last_event_id t.event_q v.fresh,
  has_id-find_event i t.event_q,
)
