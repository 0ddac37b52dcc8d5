-- ===== src/GenaDevice/Notify.antt =====
-- `genaNotify`, the job `GenaNotifyJobWorker::work` around it, and `genaInitNotifyXML`, on the
-- service of the event. The transfer (`curl_easy_perform`) is an argument: the HTTP status of the
-- answer, or `none` where it fails.
pub mod Job
use npupnp.Common.{
  ℕ, zero, suc, ◌+◌, ◌%◌, ◌^◌, Bool, true, false, not, ◌&&◌, ◌||◌, Option, none, some, List, [],
  ◌∷◌, ◌++◌, ◌==◌, leb, if◌then◌else◌, Bytes, null, ℤ, pos, negsuc, eqb_ℤ,
}
use npupnp.ServiceTable.{
  Notification, Subscription, ServiceInfo, copy_subscription, get_subscription_sid,
  remove_subscription_sid, update_sid,
}
use npupnp.GenaDevice.Queue.{Event, notification, out_of_memory}

pub data NotifyResult : Type 0 where
  no_url success bad_response unaccepted unaccepted_remove_sub : NotifyResult

judged : ℕ → NotifyResult
judged code =
    if code == 200 then success else if code == 412 then unaccepted_remove_sub else unaccepted

-- The loop over the delivery URLs, up to the first that answers.
send : (Bytes → Option ℕ) → List Bytes → NotifyResult → NotifyResult
unfolding judged
send perform [] last = last
send perform (url ∷ more) last =
    let next = send perform more bad_response in
    elim (perform url) [ some code ↦ judged code | none ↦ next ]

-- `perform url` is the transfer of this event to that URL.
unfoldable pub gena_notify : (Bytes → Option ℕ) → Subscription → NotifyResult
unfolding send
gena_notify perform sub = send perform sub.delivery_urls no_url

-- The first locked section of the job: the copy of the subscription that the event goes to.
unfoldable pub work_begin : ℕ → Notification → ServiceInfo → ServiceInfo × Option Subscription
work_begin now n service =
    if not service.active
    then (service, none)
    else let (checked, found) = get_subscription_sid now n.sid service in
      elim found [ none ↦ (checked, none) | some s ↦ (checked, some (copy_subscription s)) ]

-- `ToSendEventKey++` on 32 bits, then the test for a negative number.
unfoldable pub next_event_key : ℕ → ℕ
next_event_key k = let wrapped = (k + 1) % 2 ^ 32 in if leb (2 ^ 31) wrapped then 1 else wrapped

abbrev pub drop_first : List Notification → List Notification
drop_first [] = []
drop_first (n ∷ q) = q

abbrev pub sent : Subscription → Subscription
sent s = record s {
  to_send_event_key = next_event_key s.to_send_event_key;
  outgoing = drop_first s.outgoing;
}

abbrev pub removes : NotifyResult → Bool
removes unaccepted_remove_sub = true
removes _ = false

module _ {P : Type 0} (add_job : Notification → P → P × ℤ) where
  -- The event in front, if any, goes to the pool.
  pub activate : List Notification → P → P
  activate [] pool = pool
  activate (n ∷ q) pool = (add_job n pool).0

  -- The second locked section, behind the transfer.
  unfoldable pub work_end : ℕ → Notification → NotifyResult → ServiceInfo → P → ServiceInfo × P
  unfolding activate
  work_end now n result service pool =
      if not service.active
      then (service, pool)
      else let (checked, found) = get_subscription_sid now n.sid service in
        elim found [
          | none ↦ (checked, pool)
          | some s ↦
              let marked : ServiceInfo = record checked {
                subscription_list = update_sid n.sid sent checked.subscription_list;
              } in
              (
                if removes result then remove_subscription_sid n.sid marked else marked,
                activate (drop_first s.outgoing) pool,
              )
        ]

  -- The two writes of `genaInitNotifyXML` to the subscription.
  abbrev init_queued : Event → ℕ → Bool → Subscription → Subscription
  init_queued e now added s = record s {
    active = true;
    outgoing = if added then s.outgoing ++ (notification e now s.sid ∷ []) else s.outgoing;
  }

  pub init_code : ℤ → ℤ
  init_code ret = if eqb_ℤ ret (pos 0) then pos 0 else out_of_memory

  -- `UPNP_E_INVALID_SID`.
  abbrev pub invalid_sid : ℤ
  invalid_sid = negsuc 108

  -- `genaInitNotifyXML` from the subscription on: the first event, which activates it.
  unfoldable pub init_notify_service : Event → ℕ → Bytes → ServiceInfo → P → ServiceInfo × P × ℤ
  unfolding init_code
  init_notify_service e now sid service pool =
      let (checked, found) = get_subscription_sid now sid service in
      elim found [
        | none ↦ (checked, pool, invalid_sid)
        | some s ↦
            if s.active
            then (checked, pool, invalid_sid)
            else let (pool', ret) = add_job (notification e now sid) pool in
              (
                record checked {
                  subscription_list =
                      update_sid sid (init_queued e now (eqb_ℤ ret (pos 0)))
                        checked.subscription_list;
                },
                pool',
                init_code ret,
              )
      ]
