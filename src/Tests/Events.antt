-- ===== src/Tests/Events.antt =====
-- The theorems on events at a concrete subscription, with a pool that counts its jobs.
use npupnp.Common.{
  ℕ, null, suc, ◌≡◌, ◌≤◌, refl, true, none, some, [], ◌∷◌, if◌then◌else◌, codes, equal, length,
  arith, ℤ, pos,
}
use npupnp.ServiceTable.{Notification, Subscription, ServiceInfo, find_sid}
use npupnp.GenaDevice.Queue.{Limits, Event, notification, queued, kickstart, notify_all_service}
use npupnp.GenaDevice.Queue.Meant.{delivered, asked}
use npupnp.GenaDevice.Queue.All.{
  HasSameFront, queued_bounds, notify_all_service-delivered, kickstart-waiting,
}
use npupnp.GenaDevice.Notify.{gena_notify, work_end}
use npupnp.GenaDevice.Notify.Job.{work_end_lem, asked_for, first_answer, is_412, counted_up}

abbrev add_job : Notification → ℕ → ℕ × ℤ
add_job n jobs = (suc jobs, pos 0)

abbrev limits : Limits
limits = record { max_len = 10; max_age = 30 }

abbrev event : Event
event = record {
  device_handle = pos 1;
  udn = codes "u";
  serv_id = codes "i";
  property_set = codes "p";
}

abbrev first : Notification
first = notification event 5 (codes "a")

abbrev second : Notification
second = notification event 6 (codes "a")

abbrev subscription : Subscription
subscription = record {
  sid = codes "a";
  to_send_event_key = 1;
  expire_time = pos 100;
  active = true;
  delivery_urls = codes "http://192.168.1.9/cb" ∷ [];
  outgoing = first ∷ second ∷ [];
}

abbrev service : ServiceInfo
service = record {
  service_type = codes "t";
  service_id = codes "i";
  scpd_url = codes "/d";
  control_url = codes "/c";
  event_url = codes "/e";
  udn = codes "u";
  active = true;
  total_subscriptions = pos 1;
  subscription_list = subscription ∷ [];
}

queued_bounds_example :
    (length (queued limits event 10 subscription).outgoing ≤ 11)
    × HasSameFront subscription.outgoing (queued limits event 10 subscription).outgoing
queued_bounds_example = queued_bounds limits event 10 subscription (omega arith)

notify_all_service-delivered_example :
    ((notify_all_service add_job limits event 10 service 0).0.subscription_list
      ≡ delivered limits event 10 service.subscription_list)
    × ((notify_all_service add_job limits event 10 service 0).1
        ≡ asked add_job event 10 service.subscription_list 0)
    × ((notify_all_service add_job limits event 10 service 0).2 ≡ pos 0)
notify_all_service-delivered_example =
    notify_all_service-delivered add_job limits event 10 service 0 (λ n p. refl)

kickstart-waiting_example : kickstart add_job event 10 (queued limits event 10 subscription) 0 ≡ (
    if null subscription.outgoing
    then add_job (notification event 10 subscription.sid) 0
    else (0, pos 0))
kickstart-waiting_example = kickstart-waiting add_job limits event 10 subscription 0

found : find_sid (codes "a") service.subscription_list ≡ some subscription
unfolding equal
found = refl

work_end_lem_example :
    ((work_end add_job 10 first (gena_notify (λ url. some 200) subscription) service 0).1
      ≡ asked_for add_job (second ∷ []) 0)
    × (find_sid
          (codes "a")
          (work_end add_job 10 first
            (gena_notify (λ url. some 200) subscription)
            service
            0).0.subscription_list
        ≡ (if equal (codes "a") (codes "a")
            then if is_412 (first_answer (λ url. some 200) subscription.delivery_urls)
              then none
              else some (record subscription {
                to_send_event_key = counted_up subscription.to_send_event_key;
                outgoing = second ∷ [];
              })
            else find_sid (codes "a") service.subscription_list))
work_end_lem_example =
    work_end_lem add_job (λ url. some 200) 10 first first service 0 subscription subscription
      (second ∷ []) (codes "a") refl (tt, tt) found refl refl (ground arith)
