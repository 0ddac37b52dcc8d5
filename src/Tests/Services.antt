-- ===== src/Tests/Services.antt =====
-- The theorems on the service table, the handles and the subscriptions at concrete tables.
use npupnp.Common.{
  ◌≡◌, refl, true, false, none, some, [], ◌∷◌, if◌then◌else◌, arith, Bytes, codes, equal, ℤ, pos,
  negsuc, ltb_ℤ, minus_one,
}
use npupnp.ServiceTable.{
  Subscription, ServiceInfo, ServiceDesc, DeviceDesc, find_sid, get_subscription_sid, has_expired,
}
use npupnp.ServiceTable.Lookup.{get_subscription_sid_lem}
use npupnp.ServiceTable.Invariant.{IsValid}
use npupnp.Uri.HostPort.{Resolver, SockAddr, af_inet}
use npupnp.Handles.{Handles, HandleInfo, hnd_device, empty_handles, get_free_handle}
use npupnp.GenaDevice.Request.{
  Request, status, http_ok, http_precondition_failed, timeout_header_value,
}
use npupnp.GenaDevice.Callbacks.{NetIf, create_url_list}
use npupnp.GenaDevice.Callbacks.Sound.{IsAnswer, create_url_list-IsChecked}
use npupnp.GenaDevice.Subscribe.{
  granted_timeout, new_subscription, subscribe_service, unsubscribe_service,
}
use npupnp.GenaDevice.Handlers.{subscribe_method, gena_callback}
use npupnp.GenaDevice.Handlers.Valid.{HandlesAreValid, gena_callback-IsValid}
use npupnp.GenaDevice.Subscribe.Answers.{
  live, subscribe_service_lem, Decided, unsubscribe_service_lem, new_subscription-never_expires,
}

abbrev subscription : Bytes → Subscription
subscription sid = record {
  sid = sid;
  to_send_event_key = 0;
  expire_time = pos 100;
  active = true;
  delivery_urls = [];
  outgoing = [];
}

abbrev service : ServiceInfo
service = record {
  service_type = codes "t";
  service_id = codes "i";
  scpd_url = codes "/d";
  control_url = codes "/c";
  event_url = codes "/e";
  udn = codes "u";
  active = true;
  total_subscriptions = pos 1;
  subscription_list = subscription (codes "a") ∷ [];
}

get_subscription_sid_lem_example :
    ((get_subscription_sid 200 (codes "a") service).1 ≡ none)
    × (find_sid (codes "b") (get_subscription_sid 200 (codes "a") service).0.subscription_list ≡ (
        if equal (codes "a") (codes "b")
        then (get_subscription_sid 200 (codes "a") service).1
        else none))
unfolding equal
get_subscription_sid_lem_example =
    get_subscription_sid_lem 200 (codes "a") (codes "b") service (tt, tt)

abbrev described : ServiceDesc
described = record {
  service_type = codes "t";
  service_id = codes "i";
  scpd_url = codes "/d";
  control_url = codes "/c";
  event_sub_url = codes "/e";
}

abbrev device : DeviceDesc
device = record {
  udn = codes "u";
  services = described ∷ record described { control_url = [] } ∷ [];
}

abbrev info : HandleInfo
info = record {
  htype = hnd_device;
  callback = 1;
  cookie = 2;
  product_version = codes "v";
  max_age = pos 1800;
  service_table = service ∷ [];
  max_subscriptions = pos 2;
  max_subscription_time_out = pos 900;
  client_sub_list = [];
  ssdp_search_list = [];
  subs_ops_timeout_ms = 5000;
  advert = record {
    desc_url = [];
    lower_desc_url = [];
    power_state = pos 0;
    sleep_period = pos 0;
    registration_state = pos 0;
    root = record { device_type = []; udn = []; services = [] };
    embedded = [];
  };
}

first_handle : get_free_handle empty_handles ≡ some 1
unfolding get_free_handle
first_handle = refl

abbrev resolver : Resolver
resolver = record {
  getaddrinfo = λ name. none;
  inet_pton4 = λ name. some (1 ∷ 2 ∷ 3 ∷ 4 ∷ []);
  inet_pton6 = λ name. none;
}

abbrev client : SockAddr
client = record { family = af_inet; addr = 1 ∷ 2 ∷ 3 ∷ 4 ∷ []; port = 4000; scope_id = 0 }

abbrev net_if : NetIf
net_if = record {
  interface_for_address = λ a. some 1;
  is_link_local = λ a. false;
  maybe_scope_url_addr = λ u a. codes "http://1.2.3.4:80/x";
}

abbrev callback : Bytes
callback = codes "<http://1.2.3.4:80/x>"

create_url_list-IsChecked_example :
    IsAnswer resolver net_if client callback (create_url_list resolver net_if client callback)
create_url_list-IsChecked_example = create_url_list-IsChecked resolver net_if client callback

abbrev request : Bytes → Request
request timeout = record {
  url = codes "/e";
  headers = (codes "callback", callback) ∷ (codes "timeout", timeout) ∷ [];
  client_address = client;
}

abbrev short_request : Request
short_request = request (codes "Second-1000")

abbrev negative_request : Request
negative_request = request (codes "Second--5")

service-IsValid : IsValid (pos 2) service
service-IsValid = record { counted = refl; differ = (tt, tt); limited = λ m e. ground (arith, e) }

no_uuid : find_sid (codes "uuid:b") service.subscription_list ≡ none
unfolding equal
no_uuid = refl

subscribe_service_lem_example :
    Decided resolver net_if 50
      (codes "b")
      info
      short_request
      service
      (subscribe_service resolver net_if 50 (codes "b") info short_request service)
subscribe_service_lem_example =
    subscribe_service_lem resolver net_if 50 (codes "b") info short_request service

unsubscribe_service_lem_example :
    ((unsubscribe_service 50 (codes "a") service).1 ≡ elim (live 50 (codes "a") service) [
      | none ↦ status http_precondition_failed
      | some s ↦ status http_ok
    ])
    × (find_sid (codes "a") (unsubscribe_service 50 (codes "a") service).0.subscription_list ≡ (
        if equal (codes "a") (codes "a")
        then none
        else find_sid (codes "a") service.subscription_list))
unsubscribe_service_lem_example =
    unsubscribe_service_lem 50 (codes "a") (codes "a") service refl (tt, tt)

asked : timeout_header_value short_request ≡ some (pos 1000)
unfolding timeout_header_value
asked = refl

asked_enough : (t : ℤ) → timeout_header_value short_request ≡ some t → ltb_ℤ t minus_one ≡ false
asked_enough t e = ground (arith, asked, e)

asked_negative : timeout_header_value negative_request ≡ some (negsuc 4)
unfolding timeout_header_value
asked_negative = refl

new_subscription-never_expires_example :
    has_expired 1000000 (new_subscription 50 (codes "b") [] (granted_timeout info negative_request))
    ≡ false
new_subscription-never_expires_example =
    new_subscription-never_expires info negative_request 3 900 50 1000000 (codes "b") [] refl
      asked_negative

abbrev handles : Handles
handles = none ∷ some info ∷ []

gena_callback-IsValid_example :
    HandlesAreValid
      (gena_callback
        (λ req. status http_ok)
        resolver
        net_if
        50
        (codes "b")
        subscribe_method
        short_request
        handles).0
gena_callback-IsValid_example =
    gena_callback-IsValid (λ req. status http_ok) resolver net_if 50 (codes "b") subscribe_method
      short_request handles (tt, ((service-IsValid, tt), tt)) (tt, ((no_uuid, tt), tt))
