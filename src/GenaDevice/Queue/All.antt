-- ===== src/GenaDevice/Queue/All.antt =====
-- Which subscriptions an event is queued for, and how long the queues get.
use npupnp.Common.{
  ℕ, null, ◌==◌, zero, suc, ◌+◌, ◌≡◌, ◌≤◌, refl, ap, sym, ◌∙◌, true, false, inl, inr, Bool-cases,
  List, [], ◌∷◌, ◌++◌, if◌then◌else◌, length, length-append, ℤ, pos, pred_ℤ, arith,
}
use npupnp.ServiceTable.{Notification, Subscription, ServiceInfo, next_subscription, has_expired}
use npupnp.GenaDevice.Queue.{
  Limits, Event, discard_loop, maybe_discard_events, queued, notification, kickstart, notify_loop,
  notify_all_service,
}
use npupnp.GenaDevice.Queue.Meant.{
  notified, delivered, asked, queued-notified, maybe_discard-joined, joined-length,
}

length-discard_loop :
    (l : Limits) (now : ℕ) (q : List Notification)
    → 1 ≤ l.max_len
    → 1 + length (discard_loop l now q) ≤ l.max_len
unfolding discard_loop
length-discard_loop l now [] h = omega arith
length-discard_loop l now (n ∷ q) h = ground (arith, length-discard_loop l now q h)

abbrev pub HasSameFront : List Notification → List Notification → Type 0
HasSameFront [] after = Unit {0}
HasSameFront (n ∷ rest) after = (kept : List Notification) × (after ≡ n ∷ kept)

-- An event joins a queue that has been cut to the limit, which is at least 1, so a queue is
-- never longer than the limit and one more. The event in front, which is in the pool, stays in
-- front.
pub queued_bounds :
    (l : Limits) (e : Event) (now : ℕ) (s : Subscription)
    → 1 ≤ l.max_len
    → (length (queued l e now s).outgoing ≤ l.max_len + 1)
      × HasSameFront s.outgoing (queued l e now s).outgoing
queued_bounds l e now s h = (fits s.outgoing, front s.outgoing)
  where
    fits :
        (q : List Notification)
        → length (maybe_discard_events l now q ++ (notification e now s.sid ∷ [])) ≤ l.max_len + 1
    fits [] = unfold maybe_discard_events in omega arith
    fits (n ∷ q) =
        unfold maybe_discard_events in
        omega (
          arith,
          length-discard_loop l now q h,
          length-append {0} {A = Notification} (discard_loop l now q)
              (notification e now s.sid ∷ []),
        )

    front :
        (q : List Notification)
        → HasSameFront q (maybe_discard_events l now q ++ (notification e now s.sid ∷ []))
    front [] = tt
    front (m ∷ q) = (
      discard_loop l now q ++ (notification e now s.sid ∷ []),
      unfold maybe_discard_events in refl,
    )

-- Where an event has been queued, the pool is asked for a job for it just when no event waited
-- in front of it; else the pool is left as it was, and the code is 0.
pub kickstart-waiting :
    {P : Type 0} (add_job : Notification → P → P × ℤ) (l : Limits) (e : Event) (now : ℕ)
    (s : Subscription) (pool : P)
    → kickstart add_job e now (queued l e now s) pool
      ≡ (if null s.outgoing then add_job (notification e now s.sid) pool else (pool, pos 0))
unfolding kickstart
kickstart-waiting add_job l e now s pool =
    ap (λ q. if length q == 1 then add_job (notification e now s.sid) pool else (pool, pos 0))
      (maybe_discard-joined l e now s.sid s.outgoing)
    ∙ ap (λ b. if b then add_job (notification e now s.sid) pool else (pool, pos 0))
        (joined-length l e now s.sid s.outgoing)

module _ {P : Type 0} (add_job : Notification → P → P × ℤ) (l : Limits) (e : Event) (now : ℕ) where
  next_subscription-delivered :
      (ss : List Subscription) (t : ℤ)
      → delivered l e now ss
        ≡ (next_subscription now ss t).0 ++ delivered l e now (next_subscription now ss t).1
  unfolding next_subscription
  next_subscription-delivered [] t = refl
  next_subscription-delivered (s ∷ ss) t = elim (Bool-cases (has_expired now s)) [
    | inl over ↦ rw over (next_subscription-delivered ss (pred_ℤ t))
    | inr live ↦ elim (Bool-cases s.active) [
      | inl on ↦ simp (live, on)
      | inr off ↦ simp (live, off) (ap (◌∷◌ s) (next_subscription-delivered ss t))
    ]
  ]

  next_subscription-length :
      (ss : List Subscription) (t : ℤ) → length (next_subscription now ss t).1 ≤ length ss
  unfolding next_subscription
  next_subscription-length [] t = omega arith
  next_subscription-length (s ∷ ss) t =
      ground (arith, next_subscription-length ss t, next_subscription-length ss (pred_ℤ t))

  -- What the walk stops at is active and not expired.
  next_subscription-first :
      (ss : List Subscription) (t : ℤ) (s : Subscription) (rest : List Subscription)
      → (next_subscription now ss t).1 ≡ s ∷ rest
      → (has_expired now s ≡ false) × (s.active ≡ true)
  unfolding next_subscription
  next_subscription-first [] t s rest h = cc
  next_subscription-first (x ∷ ss) t s rest h =
      ground
        (arith, next_subscription-first ss t s rest, next_subscription-first ss (pred_ℤ t) s rest)

  kickstart-zero :
      ((n : Notification) (pool : P) → (add_job n pool).1 ≡ pos 0)
      → (s : Subscription) (pool : P) → (kickstart add_job e now s pool).1 ≡ pos 0
  unfolding kickstart
  kickstart-zero ok s pool = ground (arith, ok (notification e now s.sid) pool)

  delivered-live :
      (s : Subscription) (ss : List Subscription)
      → has_expired now s ≡ false
      → s.active ≡ true
      → delivered l e now (s ∷ ss) ≡ queued l e now s ∷ delivered l e now ss
  delivered-live s ss live on =
      let meant : delivered l e now (s ∷ ss) ≡ notified l e now s ∷ delivered l e now ss =
        ground (arith, live, on) in
      meant ∙ ap (λ t. t ∷ delivered l e now ss) (sym (queued-notified l e now s))

  abbrev StartsLive : List Subscription → Type 0
  StartsLive left =
      (s : Subscription) (rest : List Subscription)
      → left ≡ s ∷ rest
      → (has_expired now s ≡ false) × (s.active ≡ true)

  notify_loop-delivered :
      ((n : Notification) (pool : P) → (add_job n pool).1 ≡ pos 0)
      → (fuel : ℕ) (left : List Subscription) (total : ℤ) (pool : P) → length left ≤ fuel
      → StartsLive left
      → ((notify_loop add_job l e now fuel left total pool).0 ≡ delivered l e now left)
        × ((notify_loop add_job l e now fuel left total pool).3 ≡ pos 0)
  unfolding notify_loop
  notify_loop-delivered ok zero [] total pool h st = (refl, refl)
  notify_loop-delivered ok zero (s ∷ rest) total pool h st = absurd (omega arith)
  notify_loop-delivered ok (suc fuel) [] total pool h st = (refl, refl)
  notify_loop-delivered ok (suc fuel) (s ∷ rest) total pool h st =
      let s' = queued l e now s in
      let pool' = (kickstart add_job e now s' pool).0 in
      let left = (next_subscription now rest total).1 in
      let zero_code : (kickstart add_job e now s' pool).1 ≡ pos 0 = kickstart-zero ok s' pool in
      let ih =
        notify_loop-delivered ok fuel left (next_subscription now rest total).2 pool'
          (omega (arith, next_subscription-length rest total))
          (next_subscription-first rest total) in
      let (live, on) = st s rest refl in
      (
        simp (zero_code, ih.0)
            (ap (◌∷◌ s') (sym (next_subscription-delivered rest total))
              ∙ sym (delivered-live s rest live on)),
        simp (zero_code, ih.1),
      )

  next_subscription-asked :
      (ss : List Subscription) (t : ℤ) (pool : P)
      → asked add_job e now ss pool ≡ asked add_job e now (next_subscription now ss t).1 pool
  unfolding next_subscription
  next_subscription-asked [] t pool = refl
  next_subscription-asked (s ∷ ss) t pool = elim (Bool-cases (has_expired now s)) [
    | inl over ↦ rw over (next_subscription-asked ss (pred_ℤ t) pool)
    | inr live ↦ elim (Bool-cases s.active) [
      | inl on ↦ simp (live, on)
      | inr off ↦ simp (live, off) (next_subscription-asked ss t pool)
    ]
  ]

  asked-live :
      (s : Subscription) (ss : List Subscription) (pool : P)
      → has_expired now s ≡ false
      → s.active ≡ true
      → asked add_job e now (s ∷ ss) pool
        ≡ asked add_job e now ss (kickstart add_job e now (queued l e now s) pool).0
  unfolding kickstart
  asked-live s ss pool live on =
      rw (live, on, kickstart-waiting add_job l e now s pool)
        (elim (Bool-cases (null s.outgoing)) [
          | inl alone ↦ rw (alone) refl
          | inr waits ↦ rw (waits) refl
        ])

  notify_loop-asked :
      ((n : Notification) (pool : P) → (add_job n pool).1 ≡ pos 0)
      → (fuel : ℕ) (left : List Subscription) (total : ℤ) (pool : P) → length left ≤ fuel
      → StartsLive left
      → (notify_loop add_job l e now fuel left total pool).2 ≡ asked add_job e now left pool
  unfolding notify_loop
  notify_loop-asked ok zero [] total pool h st = refl
  notify_loop-asked ok zero (s ∷ rest) total pool h st = absurd (omega arith)
  notify_loop-asked ok (suc fuel) [] total pool h st = refl
  notify_loop-asked ok (suc fuel) (s ∷ rest) total pool h st =
      let s' = queued l e now s in
      let pool' = (kickstart add_job e now s' pool).0 in
      let left = (next_subscription now rest total).1 in
      let zero_code : (kickstart add_job e now s' pool).1 ≡ pos 0 = kickstart-zero ok s' pool in
      let ih =
        notify_loop-asked ok fuel left (next_subscription now rest total).2 pool'
          (omega (arith, next_subscription-length rest total))
          (next_subscription-first rest total) in
      let (live, on) = st s rest refl in
      simp (zero_code, ih)
        (sym (next_subscription-asked rest total pool') ∙ sym (asked-live s rest pool live on))

-- If the pool answers every job with 0, then a `genaNotifyAllXML` drops the expired subscriptions,
-- queues the event for each active one, behind the front of its queue and those of the others
-- that are left by the limits, leaves the rest as they were, and returns `UPNP_E_SUCCESS`. The
-- pool was asked, in their order, for a job for each active subscription that had no event
-- waiting, and for no other.
pub notify_all_service-delivered :
    {P : Type 0} (add_job : Notification → P → P × ℤ) (l : Limits) (e : Event) (now : ℕ)
    (service : ServiceInfo) (pool : P)
    → ((n : Notification) (p : P) → (add_job n p).1 ≡ pos 0)
    → ((notify_all_service add_job l e now service pool).0.subscription_list
        ≡ delivered l e now service.subscription_list)
      × ((notify_all_service add_job l e now service pool).1
          ≡ asked add_job e now service.subscription_list pool)
      × ((notify_all_service add_job l e now service pool).2 ≡ pos 0)
unfolding notify_all_service
notify_all_service-delivered add_job l e now service pool ok =
    let ss = service.subscription_list in
    let t = service.total_subscriptions in
    let (list, code) =
      notify_loop-delivered add_job l e now ok (length ss) (next_subscription now ss t).1
        (next_subscription now ss t).2 pool (next_subscription-length add_job l e now ss t)
        (next_subscription-first add_job l e now ss t) in
    let jobs =
      notify_loop-asked add_job l e now ok (length ss) (next_subscription now ss t).1
        (next_subscription now ss t).2 pool (next_subscription-length add_job l e now ss t)
        (next_subscription-first add_job l e now ss t) in
    (
      rw list (sym (next_subscription-delivered add_job l e now ss t)),
      jobs ∙ sym (next_subscription-asked add_job l e now ss t pool),
      code,
    )
