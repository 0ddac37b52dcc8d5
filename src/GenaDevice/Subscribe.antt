-- ===== src/GenaDevice/Subscribe.antt =====
-- The handlers of SUBSCRIBE and UNSUBSCRIBE requests, as far as they work on the service that the
-- request's path names (`get_device_handle_info_for_path` finds it and its handle). The new SID
-- (`gena_sid_uuid`) and the clock are arguments.
pub mod Answers
pub mod Limits
use npupnp.Common.{
  ℕ, zero, suc, ◌+◌, ◌-◌, Bool, true, false, not, ◌&&◌, ◌||◌, Option, none, some, List, [], ◌∷◌,
  ◌++◌, ◌==◌, leb, ltb, if◌then◌else◌, Bytes, codes, equal, map, to_lower, length, ℤ, pos, negsuc,
  ◌+ℤ◌, ltb_ℤ, eqb_ℤ, suc_ℤ, minus_one, show_ℕ, ◌⊎◌, inl, inr,
}
use npupnp.Uri.HostPort.{Resolver}
use npupnp.Handles.{HandleInfo}
use npupnp.ServiceTable.{
  Subscription, ServiceInfo, get_subscription_sid, remove_subscription_sid, update_sid,
}
use npupnp.GenaDevice.Request.{
  Request, Response, status, subscribed, has_header, http_ok, http_bad_request, http_not_found,
  http_precondition_failed, http_internal_server_error, gena_default_timeout, timeout_header_value,
}
use npupnp.HttpUtils.Headers.{find_header}
use npupnp.GenaDevice.Callbacks.{NetIf, UrlList, urls, refused, create_url_list}

-- The TIMEOUT header of the answer.
timeout_text : ℤ → Bytes
unfolding show_ℕ
timeout_text (pos n) = codes "Second-" ++ show_ℕ n
timeout_text (negsuc n) = codes "Second-" ++ codes "Second-infinite"

-- `respond_ok` always succeeds.
respond_ok : ℤ → Bytes → HandleInfo → Response
unfolding timeout_text
respond_ok time_out sid h = subscribed sid (timeout_text time_out) h.product_version

-- The timeout granted: what is asked for, or the default, within the device's maximum.
unfoldable pub granted_timeout : HandleInfo → Request → ℤ
granted_timeout h req =
    let asked : ℤ = elim (timeout_header_value req) [ none ↦ gena_default_timeout | some t ↦ t ] in
    if not (eqb_ℤ h.max_subscription_time_out minus_one)
    then (if eqb_ℤ asked minus_one || ltb_ℤ h.max_subscription_time_out asked
        then h.max_subscription_time_out
        else asked)
    else asked

-- The event that is handed to the device's callback, outside of the lock.
pub record SubscriptionRequest : Type 0 where
  pub service_id : Bytes
  pub udn : Bytes
  pub sid : Bytes

-- The service afterwards, the answer, and the event for the callback.
abbrev pub Outcome : Type 0
Outcome = ServiceInfo × Response × Option SubscriptionRequest

pub refuse : ServiceInfo → ℕ → Outcome
refuse service code = (service, status code, none)

pub new_subscription : ℕ → Bytes → List Bytes → ℤ → Subscription
unfolding ◌+ℤ◌
new_subscription now sid delivery_urls time_out = record {
  sid = sid;
  to_send_event_key = 0;
  expire_time = if ltb_ℤ time_out (pos 0) then pos 0 else pos now +ℤ time_out;
  active = false;
  delivery_urls = delivery_urls;
  outgoing = [];
}

-- The subscription is put in, and the answer made.
pub add_subscription : ℕ → Bytes → HandleInfo → Request → ServiceInfo → List Bytes → Outcome
unfolding granted_timeout new_subscription respond_ok
add_subscription now sid h req service delivery_urls =
    let time_out = granted_timeout h req in
    (
      record service {
        subscription_list =
            service.subscription_list ++ (new_subscription now sid delivery_urls time_out ∷ []);
        total_subscriptions = suc_ℤ service.total_subscriptions;
      },
      respond_ok time_out sid h,
      some (record { service_id = service.service_id; udn = service.udn; sid = sid }),
    )

-- Too many subscriptions for one more.
abbrev pub is_full : HandleInfo → ServiceInfo → Bool
is_full h service =
    not (eqb_ℤ h.max_subscriptions minus_one)
    && not (ltb_ℤ service.total_subscriptions h.max_subscriptions)

pub with_urls : ℕ → Bytes → HandleInfo → Request → ServiceInfo → Option UrlList → Outcome
unfolding add_subscription refuse
with_urls now sid h req service (some (urls out)) = add_subscription now sid h req service out
with_urls now sid h req service _ = refuse service http_precondition_failed

-- `gena_process_subscription_request` from the service on.
unfoldable pub subscribe_service :
    Resolver → NetIf → ℕ → Bytes → HandleInfo → Request → ServiceInfo → Outcome
unfolding refuse with_urls
subscribe_service r n now sid h req service =
    if not service.active
    then refuse service http_not_found
    else if is_full h service
    then refuse service http_internal_server_error
    else elim (find_header (codes "callback") req.headers) [
      | none ↦ refuse service http_precondition_failed
      | some ulist ↦ with_urls now sid h req service (create_url_list r n req.client_address ulist)
    ]

-- The checks in front of it; `none` lets the request pass.
unfoldable pub subscribe_refusal : Request → Option ℕ
unfolding equal to_lower
subscribe_refusal req = elim (find_header (codes "nt") req.headers) [
  | none ↦ some http_bad_request
  | some nt ↦
      if not (equal (map to_lower nt) (codes "upnp:event"))
      then some http_precondition_failed
      else if has_header (codes "sid") req
      then some http_bad_request
      else none
]

-- Too many subscriptions even without one more.
abbrev pub is_over_full : HandleInfo → ServiceInfo → Bool
is_over_full h service =
    not (eqb_ℤ h.max_subscriptions minus_one)
    && ltb_ℤ h.max_subscriptions service.total_subscriptions

-- The write to `sub->expireTime`.
abbrev pub renewed : ℕ → ℤ → Subscription → Subscription
renewed now time_out s = record s {
  expire_time = if eqb_ℤ time_out minus_one then pos 0 else pos now +ℤ time_out;
}

-- `gena_process_subscription_renewal_request` from the service on.
unfoldable pub renew_service :
    ℕ → Bytes → HandleInfo → Request → ServiceInfo → ServiceInfo × Response
unfolding granted_timeout respond_ok
renew_service now sid h req service =
    if not service.active
    then (service, status http_precondition_failed)
    else let (checked, found) = get_subscription_sid now sid service in
      elim found [
        | none ↦ (checked, status http_precondition_failed)
        | some sub ↦
            if is_over_full h checked
            then (remove_subscription_sid sub.sid checked, status http_internal_server_error)
            else let time_out = granted_timeout h req in
              (
                record checked {
                  subscription_list =
                      update_sid sid (renewed now time_out) checked.subscription_list;
                },
                respond_ok time_out sub.sid h,
              )
      ]

-- `gena_process_unsubscribe_request` from the service on.
unfoldable pub unsubscribe_service : ℕ → Bytes → ServiceInfo → ServiceInfo × Response
unsubscribe_service now sid service =
    if not service.active
    then (service, status http_precondition_failed)
    else let (checked, found) = get_subscription_sid now sid service in
      elim found [
        | none ↦ (checked, status http_precondition_failed)
        | some sub ↦ (remove_subscription_sid sid checked, status http_ok)
      ]

abbrev pub sid_size : ℕ
sid_size = 41

-- The checks that a renewal and an UNSUBSCRIBE make first: the SID, or the refusal.
unfoldable pub named_sid : Request → Bytes ⊎ ℕ
named_sid req =
    if has_header (codes "callback") req || has_header (codes "nt") req
    then inr http_bad_request
    else elim (find_header (codes "sid") req.headers) [
      | none ↦ inr http_precondition_failed
      | some sid ↦ if ltb sid_size (length sid) then inr http_precondition_failed else inl sid
    ]
