-- ===== src/GenaDevice/Subscribe/Limits.antt =====
-- The subscriptions of a service stay counted, distinct and within the device's maximum.
use npupnp.Common.{
  ℕ, ◌≡◌, ◌<◌, refl, false, Option, none, some, Bytes, codes, length, ℤ, pos, arith, Option-cases,
  Bool-cases, inl, inr,
}
use npupnp.Uri.HostPort.{Resolver}
use npupnp.Handles.{HandleInfo}
use npupnp.ServiceTable.{ServiceInfo, get_subscription_sid, find_sid}
use npupnp.ServiceTable.Count.{IsCounted}
use npupnp.ServiceTable.Invariant.{
  IsValid, remove_subscription_sid-IsValid, get_subscription_sid-IsValid, update_sid-IsValid,
  concat-IsValid,
}
use npupnp.GenaDevice.Request.{Request}
use npupnp.HttpUtils.Headers.{find_header}
use npupnp.GenaDevice.Callbacks.{NetIf, UrlList, urls, refused}
use npupnp.GenaDevice.Subscribe.{
  subscribe_service, renew_service, unsubscribe_service, is_full, is_over_full, new_subscription,
  granted_timeout, with_urls, renewed,
}

-- What control points ask of a service.
pub data Call : Type 0 where
  subscribes : ℕ → Bytes → Request → Call
  renews : ℕ → Bytes → Request → Call
  unsubscribes : ℕ → Bytes → Call

module _ (r : Resolver) (n : NetIf) (h : HandleInfo) where
  abbrev pub step : ServiceInfo → Call → ServiceInfo
  step service (subscribes now sid req) = (subscribe_service r n now sid h req service).0
  step service (renews now sid req) = (renew_service now sid h req service).0
  step service (unsubscribes now sid) = (unsubscribe_service now sid service).0

-- The SID generated for a subscription is not in use.
abbrev pub HasNewSid : ServiceInfo → Call → Type 0
HasNewSid service (subscribes now sid req) = find_sid sid service.subscription_list ≡ none
HasNewSid service _ = Unit

-- `is_full` refuses just when the maximum is reached.
room_left :
    (h : HandleInfo) (service : ServiceInfo) (m : ℕ)
    → IsCounted service
    → is_full h service ≡ false
    → h.max_subscriptions ≡ pos m
    → length service.subscription_list < m
room_left h service m c full e = ground (arith, c, e)

with_urls-IsValid :
    (now : ℕ) (sid : Bytes) (h : HandleInfo) (req : Request) (service : ServiceInfo)
    (list : Option UrlList)
    → find_sid sid service.subscription_list ≡ none
    → is_full h service ≡ false
    → IsValid h.max_subscriptions service
    → IsValid h.max_subscriptions (with_urls now sid h req service list).0
unfolding with_urls
with_urls-IsValid now sid h req service none new room v = v
with_urls-IsValid now sid h req service (some (refused e)) new room v = v
with_urls-IsValid now sid h req service (some (urls out)) new room v =
    concat-IsValid (new_subscription now sid out (granted_timeout h req)) h.max_subscriptions
      service new (λ m e. room_left h service m v.counted room e) v

subscribe_service-IsValid :
    (r : Resolver) (n : NetIf) (now : ℕ) (sid : Bytes) (h : HandleInfo) (req : Request)
    (service : ServiceInfo)
    → find_sid sid service.subscription_list ≡ none
    → IsValid h.max_subscriptions service
    → IsValid h.max_subscriptions (subscribe_service r n now sid h req service).0
unfolding subscribe_service
subscribe_service-IsValid r n now sid h req service new v = elim (Bool-cases service.active) [
  | inr off ↦ simp (off, subscribe_service) v
  | inl on ↦ elim (Bool-cases (is_full h service)) [
    | inl full ↦ simp (on, full, subscribe_service) v
    | inr room ↦ elim (Option-cases (find_header (codes "callback") req.headers)) [
      | inl missing ↦ simp (on, room, missing, subscribe_service) v
      | inr (ulist, given) ↦
          simp (on, room, given, subscribe_service)
            (with_urls-IsValid now sid h req service _ new room v)
    ]
  ]
]

renew_service-IsValid :
    (now : ℕ) (sid : Bytes) (h : HandleInfo) (req : Request) (service : ServiceInfo)
    → IsValid h.max_subscriptions service
    → IsValid h.max_subscriptions (renew_service now sid h req service).0
unfolding renew_service
renew_service-IsValid now sid h req service v =
    let checked : ServiceInfo = (get_subscription_sid now sid service).0 in
    let valid : IsValid h.max_subscriptions checked =
      get_subscription_sid-IsValid now sid h.max_subscriptions service v in
    elim (Bool-cases service.active) [
      | inr off ↦ simp (off, renew_service) v
      | inl on ↦ elim (Option-cases (get_subscription_sid now sid service).1) [
        | inl lost ↦ simp (on, lost, renew_service) valid
        | inr (s, found) ↦ elim (Bool-cases (is_over_full h checked)) [
          | inl over ↦
              simp (on, found, over, renew_service)
                (remove_subscription_sid-IsValid s.sid h.max_subscriptions checked valid)
          | inr within ↦
              simp (on, found, within, renew_service)
                (update_sid-IsValid sid (renewed now (granted_timeout h req)) h.max_subscriptions
                  checked (λ u. refl) valid)
        ]
      ]
    ]

unsubscribe_service-IsValid :
    (now : ℕ) (sid : Bytes) (limit : ℤ) (service : ServiceInfo)
    → IsValid limit service
    → IsValid limit (unsubscribe_service now sid service).0
unfolding unsubscribe_service
unsubscribe_service-IsValid now sid limit service v =
    let checked : ServiceInfo = (get_subscription_sid now sid service).0 in
    let valid : IsValid limit checked = get_subscription_sid-IsValid now sid limit service v in
    elim (Bool-cases service.active) [
      | inr off ↦ simp (off, unsubscribe_service) v
      | inl on ↦ elim (Option-cases (get_subscription_sid now sid service).1) [
        | inl lost ↦ simp (on, lost, unsubscribe_service) valid
        | inr (s, found) ↦
            simp (on, found, unsubscribe_service)
              (remove_subscription_sid-IsValid sid limit checked valid)
      ]
    ]

-- Every request of a control point keeps a valid service valid: the count right, the SIDs
-- distinct, and the number of subscriptions within the device's maximum, if the SID made for a
-- new subscription is not in use.
pub request-IsValid :
    (r : Resolver) (n : NetIf) (h : HandleInfo) (service : ServiceInfo) (c : Call)
    → HasNewSid service c
    → IsValid h.max_subscriptions service
    → IsValid h.max_subscriptions (step r n h service c)
request-IsValid r n h service (subscribes now sid req) new v =
    subscribe_service-IsValid r n now sid h req service new v
request-IsValid r n h service (renews now sid req) new v =
    renew_service-IsValid now sid h req service v
request-IsValid r n h service (unsubscribes now sid) new v =
    unsubscribe_service-IsValid now sid h.max_subscriptions service v
