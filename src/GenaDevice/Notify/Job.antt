-- ===== src/GenaDevice/Notify/Job.antt =====
-- What a finished notification job leaves behind.
use npupnp.Common.{
  ℕ, ap, ◌∙◌, ◌==◌, Bool, Option, List, [], ◌∷◌, Option-cases, ◌+◌, ◌^◌, ◌≡◌, ◌<◌, refl, true,
  false, none, some, Bool-cases, inl, inr, if◌then◌else◌, Bytes, equal, ℤ, arith, ltb,
}
use npupnp.ServiceTable.{
  Notification, Subscription, ServiceInfo, get_subscription_sid, find_sid, has_expired, update_sid,
}
use npupnp.ServiceTable.Lookup.{
  SidsDiffer, find_sid_same, get_subscription_sid_lem, find_sid-remove_subscription_sid,
  find_sid-update_sid,
}
use npupnp.GenaDevice.Notify.{
  NotifyResult, no_url, bad_response, judged, send, gena_notify, next_event_key, drop_first, sent,
  removes, activate, work_end,
}

-- From a key below 2147483648, the key of the next event counts up, and after 2147483647 starts
-- again at 1: it is never 0, which stands for the first event.
pub next_event_key_lem :
    (k : ℕ)
    → k < 2 ^ 31
    → (0 < next_event_key k)
      × (next_event_key k < 2 ^ 31)
      × (next_event_key k ≡ (if ltb (k + 1) (2 ^ 31) then k + 1 else 1))
unfolding next_event_key
next_event_key_lem k h = ground arith

-- The status of the first delivery URL that answers.
abbrev pub first_answer : (Bytes → Option ℕ) → List Bytes → Option ℕ
first_answer perform [] = none
first_answer perform (url ∷ more) = elim (perform url) [
  | some code ↦ some code
  | none ↦ first_answer perform more
]

abbrev pub is_412 : Option ℕ → Bool
is_412 none = false
is_412 (some code) = code == 412

removes-judged : (code : ℕ) → removes (judged code) ≡ (code == 412)
unfolding judged
removes-judged code = ground arith

removes-send :
    (perform : Bytes → Option ℕ) (list : List Bytes) (last : NotifyResult)
    → removes last ≡ false
    → removes (send perform list last) ≡ is_412 (first_answer perform list)
unfolding send
removes-send perform [] last h = h
removes-send perform (url ∷ more) last h = elim (Option-cases (perform url)) [
  | inl silent ↦ ground (arith, silent, removes-send perform more bad_response refl)
  | inr (code, answered) ↦ ground (arith, answered, removes-judged code)
]

-- A subscription is removed just when the first delivery URL that answers says 412.
removes-gena_notify :
    (perform : Bytes → Option ℕ) (s : Subscription)
    → removes (gena_notify perform s) ≡ is_412 (first_answer perform s.delivery_urls)
unfolding gena_notify
removes-gena_notify perform s = removes-send perform s.delivery_urls no_url refl

work_end-looked :
    {P : Type 0} (add_job : Notification → P → P × ℤ) (now : ℕ) (n : Notification)
    (result : NotifyResult) (service : ServiceInfo) (pool : P) (s : Subscription) (j : Bytes)
    → service.active ≡ true
    → SidsDiffer service.subscription_list
    → find_sid n.sid service.subscription_list ≡ some s
    → has_expired now s ≡ false
    → ((work_end add_job now n result service pool).1
        ≡ activate add_job (drop_first s.outgoing) pool)
      × (find_sid j (work_end add_job now n result service pool).0.subscription_list ≡ (
          if equal n.sid j
          then if removes result then none else some (sent s)
          else find_sid j service.subscription_list))
unfolding work_end
work_end-looked add_job now n result service pool s j on d found live =
    let checked : ServiceInfo = (get_subscription_sid now n.sid service).0 in
    let looked = get_subscription_sid_lem now n.sid j service d in
    let there : (get_subscription_sid now n.sid service).1 ≡ some s =
      ground (arith, looked.0, found, live) in
    let marked : ServiceInfo = record checked {
      subscription_list = update_sid n.sid sent checked.subscription_list;
    } in
    let moved = find_sid-update_sid n.sid j sent checked.subscription_list (λ u. refl) in
    let same = find_sid_same n.sid j service.subscription_list in
    elim (Bool-cases (removes result)) [
      | inl off ↦ ground (
        arith,
        on,
        there,
        off,
        looked.1,
        moved,
        same,
        found,
        find_sid-remove_subscription_sid n.sid j marked,
      )
      | inr keep ↦ ground (arith, on, there, keep, looked.1, moved, same, found)
    ]

-- The key of the event behind the one with key `k`.
abbrev pub counted_up : ℕ → ℕ
counted_up k = if ltb (k + 1) (2 ^ 31) then k + 1 else 1

-- The first of some events asks the pool for a job; with no event the pool is as it was.
abbrev pub asked_for : {P : Type 0} → (Notification → P → P × ℤ) → List Notification → P → P
asked_for add_job [] pool = pool
asked_for add_job (n ∷ q) pool = (add_job n pool).0

activate-asked_for :
    {P : Type 0} (add_job : Notification → P → P × ℤ) (q : List Notification) (pool : P)
    → activate add_job q pool ≡ asked_for add_job q pool
unfolding activate
activate-asked_for add_job [] pool = refl
activate-asked_for add_job (n ∷ q) pool = refl

-- In an active service whose SIDs differ, let the queue of a live subscription be an event and
-- others behind it, and its key be below 2147483648. When the job for the event is done, whatever
-- became of the transfer, the event is off the queue and the others are left in their order, the
-- key has counted up (to 1 behind 2147483647), and the first of the others is handed to the pool,
-- if there is one. The subscription is removed just when the first delivery URL that answered, of
-- the copy that the job worked on, said 412; no other subscription changes.
pub work_end_lem :
    {P : Type 0} (add_job : Notification → P → P × ℤ) (perform : Bytes → Option ℕ) (now : ℕ)
    (n front : Notification) (service : ServiceInfo) (pool : P) (copy s : Subscription)
    (q : List Notification) (j : Bytes)
    → service.active ≡ true
    → SidsDiffer service.subscription_list
    → find_sid n.sid service.subscription_list ≡ some s
    → has_expired now s ≡ false
    → s.outgoing ≡ front ∷ q
    → s.to_send_event_key < 2 ^ 31
    → ((work_end add_job now n (gena_notify perform copy) service pool).1
        ≡ asked_for add_job q pool)
      × (find_sid j
            (work_end add_job now n (gena_notify perform copy) service pool).0.subscription_list
          ≡ (if equal n.sid j
              then if is_412 (first_answer perform copy.delivery_urls)
                then none
                else some
                    (record s { to_send_event_key = counted_up s.to_send_event_key; outgoing = q })
              else find_sid j service.subscription_list))
work_end_lem add_job perform now n front service pool copy s q j on d found live queue small =
    let (jobs, list) =
      work_end-looked add_job now n (gena_notify perform copy) service pool s j on d found live in
    let left : drop_first s.outgoing ≡ q = rw (queue) refl in
    let key : next_event_key s.to_send_event_key ≡ counted_up s.to_send_event_key =
      (next_event_key_lem s.to_send_event_key small).2 in
    let after : sent s
        ≡ record s { to_send_event_key = counted_up s.to_send_event_key; outgoing = q } =
      ap (λ k. record s { to_send_event_key = k; outgoing = drop_first s.outgoing }) key
      ∙ ap (λ o. record s { to_send_event_key = counted_up s.to_send_event_key; outgoing = o })
          left in
    (
      jobs ∙ ap (λ o. activate add_job o pool) left ∙ activate-asked_for add_job q pool,
      list
          ∙ ap
              (λ b.
                if equal n.sid j
                then if b then none else some (sent s)
                else find_sid j service.subscription_list)
              (removes-gena_notify perform copy)
          ∙ ap
              (λ t.
                if equal n.sid j
                then if is_412 (first_answer perform copy.delivery_urls) then none else some t
                else find_sid j service.subscription_list)
              after,
    )
