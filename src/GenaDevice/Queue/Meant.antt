-- ===== src/GenaDevice/Queue/Meant.antt =====
-- What `genaNotifyAllXML` is meant to do to the queues and to the pool, apart from its code.
use npupnp.Common.{
  ℕ, Bytes, leb, null, not, ◌&&◌, ◌==◌, ◌+◌, ◌≡◌, refl, ap, List, [], ◌∷◌, ◌++◌, if◌then◌else◌,
  length, length-append, ℤ, arith,
}
use npupnp.ServiceTable.{Notification, Subscription, has_expired}
use npupnp.GenaDevice.Queue.{
  Limits, Event, discard_loop, maybe_discard_events, queued, notification,
}

-- The events of a queue behind its front that are left: from the first on that is not too old
-- and that fits, with those behind it and the front.
abbrev pub fitting : Limits → ℕ → List Notification → List Notification
fitting l now [] = []
fitting l now (n ∷ rest) =
    let less = fitting l now rest in
    if leb (length rest + 2) l.max_len && leb now (l.max_age + n.ctime) then n ∷ rest else less

-- A queue with the event behind what is left of the others; the front stays.
abbrev pub joined : Limits → Event → ℕ → Bytes → List Notification → List Notification
joined l e now sid [] = notification e now sid ∷ []
joined l e now sid (front ∷ rest) = front ∷ (fitting l now rest ++ (notification e now sid ∷ []))

discard_loop-fitting :
    (l : Limits) (now : ℕ) (q : List Notification) → discard_loop l now q ≡ fitting l now q
unfolding discard_loop
discard_loop-fitting l now [] = refl
discard_loop-fitting l now (n ∷ rest) = ground (arith, discard_loop-fitting l now rest)

pub maybe_discard-joined :
    (l : Limits) (e : Event) (now : ℕ) (sid : Bytes) (q : List Notification)
    → maybe_discard_events l now q ++ (notification e now sid ∷ []) ≡ joined l e now sid q
unfolding maybe_discard_events
maybe_discard-joined l e now sid [] = refl
maybe_discard-joined l e now sid (front ∷ rest) =
    ap (λ t. front ∷ (t ++ (notification e now sid ∷ []))) (discard_loop-fitting l now rest)

-- What is meant to become of an active subscription.
abbrev pub notified : Limits → Event → ℕ → Subscription → Subscription
notified l e now s = record s { outgoing = joined l e now s.sid s.outgoing }

pub queued-notified :
    (l : Limits) (e : Event) (now : ℕ) (s : Subscription) → queued l e now s ≡ notified l e now s
queued-notified l e now s =
    ap (λ q. record s { outgoing = q }) (maybe_discard-joined l e now s.sid s.outgoing)

-- The list that is meant: expired subscriptions are gone, and the event is queued for each active
-- one.
abbrev pub delivered : Limits → Event → ℕ → List Subscription → List Subscription
delivered l e now [] = []
delivered l e now (s ∷ ss) =
    let rest = delivered l e now ss in
    if has_expired now s then rest else (if s.active then notified l e now s else s) ∷ rest

-- The pool that is meant: it was asked, in their order, for a job for each active subscription
-- that had no event waiting.
abbrev pub asked : {P : Type 0} → (Notification → P → P × ℤ) → Event → ℕ → List Subscription → P → P
asked add_job e now [] pool = pool
asked add_job e now (s ∷ ss) pool = asked add_job e now ss (
    if not (has_expired now s) && (s.active && null s.outgoing)
    then (add_job (notification e now s.sid) pool).0
    else pool)

pub joined-length :
    (l : Limits) (e : Event) (now : ℕ) (sid : Bytes) (q : List Notification)
    → (length (joined l e now sid q) == 1) ≡ null q
joined-length l e now sid [] = refl
joined-length l e now sid (front ∷ rest) =
    ground (
      arith,
      length-append {0} {A = Notification} (fitting l now rest) (notification e now sid ∷ []),
    )
