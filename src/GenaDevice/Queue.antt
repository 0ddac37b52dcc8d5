-- ===== src/GenaDevice/Queue.antt =====
-- The queues of events, one for each subscription: `maybeDiscardEvents` and `genaNotifyAllXML`.
-- `add_job` is `gSendThreadPool.addJob` with a job for the event; it is an argument, with the
-- pool's state. The limits (`g_UpnpSdkEQMaxLen`, `g_UpnpSdkEQMaxAge`) are not negative.
pub mod Meant
pub mod All
use npupnp.Common.{
  ℕ, zero, suc, ◌+◌, Bool, true, false, not, ◌&&◌, ◌||◌, List, [], ◌∷◌, ◌++◌, ◌==◌, ltb,
  if◌then◌else◌, Bytes, length, ℤ, pos, negsuc, eqb_ℤ, minus_one,
}
use npupnp.ServiceTable.{Notification, Subscription, ServiceInfo, next_subscription}

pub record Limits : Type 0 where
  pub max_len : ℕ
  pub max_age : ℕ

-- The loop from the second event on; the size counts the first one.
discard_loop : Limits → ℕ → List Notification → List Notification
discard_loop l now [] = []
discard_loop l now (n ∷ rest) =
    let less = discard_loop l now rest in
    if ltb l.max_len (1 + length (n ∷ rest)) || ltb (l.max_age + n.ctime) now
    then less
    else n ∷ rest

unfoldable pub maybe_discard_events : Limits → ℕ → List Notification → List Notification
unfolding discard_loop
maybe_discard_events l now [] = []
maybe_discard_events l now (first ∷ rest) = first ∷ discard_loop l now rest

-- What all the subscribers are sent.
pub record Event : Type 0 where
  pub device_handle : ℤ
  pub udn : Bytes
  pub serv_id : Bytes
  pub property_set : Bytes

abbrev pub notification : Event → ℕ → Bytes → Notification
notification e now sid = record {
  device_handle = e.device_handle;
  udn = e.udn;
  serv_id = e.serv_id;
  sid = sid;
  property_set = e.property_set;
  ctime = now;
}

abbrev pub queued : Limits → Event → ℕ → Subscription → Subscription
queued l e now s = record s {
  outgoing = maybe_discard_events l now s.outgoing ++ (notification e now s.sid ∷ []);
}

abbrev pub out_of_memory : ℤ
out_of_memory = negsuc 103

module _ {P : Type 0} (add_job : Notification → P → P × ℤ) where
  -- The pool is only asked if the event is alone in the queue. The number is the code's `ret`.
  pub kickstart : Event → ℕ → Subscription → P → P × ℤ
  kickstart e now s pool =
      if length s.outgoing == 1 then add_job (notification e now s.sid) pool else (pool, pos 0)

  -- The loop from `finger` on: the list from there, the count, the pool and `ret`.
  unfoldable pub notify_loop :
      Limits → Event → ℕ → ℕ → List Subscription → ℤ → P → List Subscription × ℤ × P × ℤ
  unfolding kickstart maybe_discard_events
  notify_loop l e now zero left total pool = (left, total, pool, pos 0)
  notify_loop l e now (suc fuel) [] total pool = ([], total, pool, pos 0)
  notify_loop l e now (suc fuel) (s ∷ rest) total pool =
      let s' = queued l e now s in
      let (pool', ret) = kickstart e now s' pool in
      let (passed, left, total') = next_subscription now rest total in
      let (list, count, last, code) = notify_loop l e now fuel left total' pool' in
      if not (eqb_ℤ ret (pos 0))
      then (s' ∷ rest, total, pool', if eqb_ℤ ret minus_one then out_of_memory else ret)
      else (s' ∷ (passed ++ list), count, last, code)

  -- `genaNotifyAllXML` on the service that was found.
  unfoldable pub notify_all_service : Limits → Event → ℕ → ServiceInfo → P → ServiceInfo × P × ℤ
  unfolding notify_loop
  notify_all_service l e now service pool =
      let (passed, left, total) =
        next_subscription now service.subscription_list service.total_subscriptions in
      let (list, count, last, code) =
        notify_loop l e now (length service.subscription_list) left total pool in
      (
        record service { subscription_list = passed ++ list; total_subscriptions = count },
        last,
        code,
      )
