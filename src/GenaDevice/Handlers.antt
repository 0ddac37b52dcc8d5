-- ===== src/GenaDevice/Handlers.antt =====
-- The GENA requests on the whole table of handles: the handlers of gena_device.cpp with their
-- lookups, and `genaCallback` of src/gena/gena_callback2.cpp. The text of a new SID
-- (`gena_sid_uuid`) and the handler of NOTIFY, a control point's, are arguments.
pub mod Valid
use npupnp.Common.{
  ℕ, Option, none, some, List, [], ◌∷◌, ◌++◌, inl, inr, ◌⊎◌, Bytes, codes, ℤ, pos, set,
  if◌then◌else◌,
}
use npupnp.Uri.HostPort.{Resolver}
use npupnp.ServiceTable.{ServiceInfo, clear_service_table}
use npupnp.Handles.{HandleInfo, Handles, Found, get_device, get_device_handle_info_for_path, store}
use npupnp.GenaDevice.Request.{
  Request, Response, status, has_header, http_internal_server_error, http_precondition_failed,
}
use npupnp.GenaDevice.Callbacks.{NetIf}
use npupnp.GenaDevice.Subscribe.{
  SubscriptionRequest, subscribe_service, renew_service, unsubscribe_service, subscribe_refusal,
  named_sid,
}

pub data Method : Type 0 where
  subscribe_method unsubscribe_method notify_method other_method : Method

-- `UPNP_EVENT_SUBSCRIPTION_REQUEST` for the callback of a handle, with its cookie.
pub record CallbackEvent : Type 0 where
  pub callback : ℕ
  pub cookie : ℕ
  pub request : SubscriptionRequest

abbrev pub Reply : Type 0
Reply = Handles × Response × Option CallbackEvent

abbrev event_for : HandleInfo → Option SubscriptionRequest → Option CallbackEvent
event_for h none = none
event_for h (some request) =
    some (record { callback = h.callback; cookie = h.cookie; request = request })

abbrev pub http_not_implemented : ℕ
http_not_implemented = 501

-- A handler on the service that the request's path names, or the status where there is none.
abbrev pub with_found :
    ℕ → Handles → Option Found → (Found → ServiceInfo × Response) → Handles × Response
with_found code hs none handle = (hs, status code)
with_found code hs (some f) handle = (store f (handle f).0 hs, (handle f).1)

pub subscribe_found : Resolver → NetIf → ℕ → Bytes → Request → Handles → Option Found → Reply
subscribe_found r n now uuid req hs none = (hs, status http_internal_server_error, none)
subscribe_found r n now uuid req hs (some f) =
    let (service, answer, request) =
      subscribe_service r n now (codes "uuid:" ++ uuid) f.info req f.service in
    (store f service hs, answer, event_for f.info request)

abbrev pub subscribe_checked : Resolver → NetIf → ℕ → Bytes → Request → Handles → Option ℕ → Reply
subscribe_checked r n now uuid req hs (some code) = (hs, status code, none)
subscribe_checked r n now uuid req hs none =
    subscribe_found r n now uuid req hs (get_device_handle_info_for_path r req.url hs)

unfoldable pub gena_process_subscription_request :
    Resolver → NetIf → ℕ → Bytes → Request → Handles → Reply
gena_process_subscription_request r n now uuid req hs =
    subscribe_checked r n now uuid req hs (subscribe_refusal req)

abbrev pub renew_named : Resolver → ℕ → Request → Handles → Bytes ⊎ ℕ → Handles × Response
renew_named r now req hs (inr code) = (hs, status code)
renew_named r now req hs (inl sid) =
    with_found http_precondition_failed hs (get_device_handle_info_for_path r req.url hs)
      (λ f. renew_service now sid f.info req f.service)

unfoldable pub gena_process_subscription_renewal_request :
    Resolver → ℕ → Request → Handles → Handles × Response
gena_process_subscription_renewal_request r now req hs = renew_named r now req hs (named_sid req)

abbrev pub unsubscribe_named : Resolver → ℕ → Request → Handles → Bytes ⊎ ℕ → Handles × Response
unsubscribe_named r now req hs (inr code) = (hs, status code)
unsubscribe_named r now req hs (inl sid) =
    with_found http_precondition_failed hs (get_device_handle_info_for_path r req.url hs)
      (λ f. unsubscribe_service now sid f.service)

unfoldable pub gena_process_unsubscribe_request :
    Resolver → ℕ → Request → Handles → Handles × Response
gena_process_unsubscribe_request r now req hs = unsubscribe_named r now req hs (named_sid req)

abbrev quietly : Handles × Response → Reply
quietly (hs, answer) = (hs, answer, none)

unfoldable pub gena_callback :
    (Request → Response) → Resolver → NetIf → ℕ → Bytes → Method → Request → Handles → Reply
unfolding gena_process_subscription_request gena_process_subscription_renewal_request
    gena_process_unsubscribe_request
gena_callback notified r n now uuid subscribe_method req hs =
    if has_header (codes "nt") req
    then gena_process_subscription_request r n now uuid req hs
    else quietly (gena_process_subscription_renewal_request r now req hs)
gena_callback notified r n now uuid unsubscribe_method req hs =
    quietly (gena_process_unsubscribe_request r now req hs)
gena_callback notified r n now uuid notify_method req hs = (hs, notified req, none)
gena_callback notified r n now uuid other_method req hs = (hs, status http_not_implemented, none)
