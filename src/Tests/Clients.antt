-- ===== src/Tests/Clients.antt =====
-- The theorems on control points and discovery at a concrete state.
use npupnp.Common.{
  ◌&&◌, leb, ltb, if◌then◌else◌, arith, ◌≡◌, refl, true, false, List, Bytes, ℤ, All, none, some, [],
  ◌∷◌, codes, map, pos, set, equal_nocase,
}
use npupnp.Timer.{idle_timer}
use npupnp.HttpUtils.Methods.{httpmethod_str2enum}
use npupnp.Uri.Chars.{upnp_strlcpy}
use npupnp.Uri.HostPort.{Resolver}
use npupnp.NetIf.{Interface, ipv4}
use npupnp.Handles.{
  Handles, HandleInfo, hnd_client, hnd_device, HandleType, ClientSubscription, empty_handles,
  get_client, get_client_handle_info, drop_slots, num_handle,
}
use npupnp.Handles.Devices.{devices_from}
use npupnp.GenaClient.{Env}
use npupnp.GenaClient.Subscriptions.{
  Client, client_subs, gena_unsubscribe_sid, gena_unregister_client,
}
use npupnp.GenaClient.Removed.{
  IsGone, IsUnregistered, gena_unsubscribe_sid-IsGone, gena_unsubscribe_sid-timer,
  gena_unregister_client-IsUnregistered,
}
use npupnp.GenaClient.Notify.{
  XmlLibrary, Notification, character_data, end_element, gena_process_notification_event,
}
use npupnp.GenaClient.Notify.Known.{IsAnswered, gena_process_notification_event-IsAnswered}
use npupnp.SsdpParser.{Packet, fresh_packet}
use npupnp.Ssdp.{Net, device, dispatch, ssdp_request_type1}
use npupnp.Ssdp.Valid.{IsSearch, dispatch-IsSearch}
use npupnp.Ssdp.Device.{device_loop, versioned, same_serv_or_dev_no_vers}
use npupnp.Ssdp.Search.{with_age, device_loop-all}
use npupnp.Ssdp.Versions.{typed, reply_with, versioned_lem}
use npupnp.Ssdp.Packets.{usn_of}
use npupnp.Ssdp.Ctrlpt.{
  Event, advertisement_alive, ssdp_handle_ctrlpt_msg, search_timeout, advertised,
}
use npupnp.Ssdp.Ctrlpt.Sound.{IsSound, ssdp_handle_ctrlpt_msg-IsSound}
use npupnp.Ssdp.Ctrlpt.Searches.{Network, Searcher, search_by_target, search_expired}
use npupnp.Ssdp.Ctrlpt.Searches.Expiry.{search_expired-search_by_target}

abbrev kept_sub : ClientSubscription
kept_sub = record {
  renew_event_id = pos 0;
  sid = codes "uuid:1";
  event_url = codes "http://192.168.1.5/e";
}

abbrev entry : HandleType → HandleInfo
entry htype = record {
  htype = htype;
  callback = 1;
  cookie = 2;
  product_version = codes "v";
  max_age = pos 1800;
  service_table = [];
  max_subscriptions = pos 2;
  max_subscription_time_out = pos 900;
  client_sub_list = kept_sub ∷ [];
  ssdp_search_list = [];
  subs_ops_timeout_ms = 5000;
  advert = record {
    desc_url = [];
    lower_desc_url = [];
    power_state = pos 0;
    sleep_period = pos 0;
    registration_state = pos 0;
    root = record { device_type = []; udn = []; services = [] };
    embedded = [];
  };
}

abbrev handles : Handles
handles = set (set empty_handles 1 (some (entry hnd_client))) 2 (some (entry hnd_device))

abbrev state : Client
state = record { handles = handles; timer = idle_timer; jobs = []; sent = [] }

abbrev lan : Interface
lan = record {
  flags = 1;
  name = codes "eth0";
  friendlyname = [];
  index = pos 2;
  addresses = (ipv4 (192 ∷ 168 ∷ 1 ∷ 1 ∷ []), ipv4 (255 ∷ 255 ∷ 255 ∷ 0 ∷ [])) ∷ [];
}

abbrev resolver : Resolver
resolver = record {
  getaddrinfo = λ name. none;
  inet_pton4 = λ name. some (192 ∷ 168 ∷ 1 ∷ 5 ∷ []);
  inet_pton6 = λ name. none;
}

abbrev env : Env
env = record {
  resolver = resolver;
  netifs = lan ∷ [];
  inet_ntop = λ six b. codes "192.168.1.1";
  port4 = 49152;
  port6 = 49152;
  client_info = codes "c";
  trimstring = λ set s. s;
  transport = λ r.
      some (record {
        http_status = 200;
        lines = codes "SID:uuid:7" ∷ codes "TIMEOUT:Second-1800" ∷ [];
      });
}

gena_unsubscribe_sid-IsGone_example :
    IsGone
      (codes "uuid:1")
      (client_subs (pos 1) (gena_unsubscribe_sid env (λ c. c) (pos 1) (codes "uuid:1") state).0)
gena_unsubscribe_sid-IsGone_example =
    gena_unsubscribe_sid-IsGone env (λ c. c) (pos 1) (codes "uuid:1") state

gena_unsubscribe_sid-timer_example :
    (gena_unsubscribe_sid env (λ c. c) (pos 1) (codes "uuid:1") state).0.timer ≡ idle_timer
gena_unsubscribe_sid-timer_example = gena_unsubscribe_sid-timer env (pos 1) (codes "uuid:1") state

is_client_one : client_subs (pos 1) state ≡ some (1, entry hnd_client)
unfolding get_client
is_client_one = refl

gena_unregister_client-IsUnregistered_example :
    IsUnregistered (pos 1) 1 (gena_unregister_client 2 env (λ c. c) (pos 1) state)
gena_unregister_client-IsUnregistered_example =
    gena_unregister_client-IsUnregistered env (pos 1) state 1 (entry hnd_client) is_client_one

abbrev xml : XmlLibrary
xml = record {
  parse = λ s.
      some (character_data (codes "1") ∷ end_element (some (codes "e:property")) (codes "v") ∷ []);
  trimstring = λ set s. s;
}

abbrev notification : Notification
notification = record {
  headers =
      (codes "sid", codes "uuid:1")
      ∷ (codes "seq", codes "0")
      ∷ (codes "nt", codes "upnp:event")
      ∷ (codes "nts", codes "upnp:propchange")
      ∷ (codes "content-type", codes "text/xml")
      ∷ [];
  postdata = codes "<x/>";
}

gena_process_notification_event-IsAnswered_example :
    IsAnswered notification (gena_process_notification_event xml (λ c. c) notification state)
gena_process_notification_event-IsAnswered_example =
    gena_process_notification_event-IsAnswered xml (λ c. c) notification state

abbrev search : Packet
search = record fresh_packet {
  method = some (codes "M-SEARCH");
  url = some (codes "*");
  host = some (codes "239.255.255.250:1900");
  mx = some (codes "2");
}

abbrev net : Net
net = record { resolver = resolver; netifs = lan ∷ [] }

reaches_devices : dispatch net (ipv4 (192 ∷ 168 ∷ 1 ∷ 9 ∷ [])) search ≡ device
unfolding dispatch httpmethod_str2enum
reaches_devices = refl

dispatch-IsSearch_example : IsSearch net (ipv4 (192 ∷ 168 ∷ 1 ∷ 9 ∷ [])) search
dispatch-IsSearch_example =
    dispatch-IsSearch net (ipv4 (192 ∷ 168 ∷ 1 ∷ 9 ∷ [])) search reaches_devices

device_loop-all_example :
    device_loop num_handle 0 handles ≡ map with_age (devices_from 1 (drop_slots 1 handles))
device_loop-all_example = device_loop-all handles refl

-- A type that only begins like ours is taken for ours.
takes_prefix :
    same_serv_or_dev_no_vers (codes "urn:x:device:BasicPlus:1") (codes "urn:x:device:Basic:1")
    ≡ true
unfolding same_serv_or_dev_no_vers
takes_prefix = refl

versioned_lem_example :
    versioned
      (typed (codes "urn:x:device:Basic") 1)
      (typed (codes "URN:x:device:basic") 2)
      (codes "uuid:1")
      (codes "/d")
      (codes "/l")
      (pos 1800)
    ≡ (if equal_nocase (codes "urn:x:device:Basic") (codes "URN:x:device:basic") && leb 1 2
        then reply_with
            (typed (codes "urn:x:device:Basic") 1)
            (codes "uuid:1")
            (if ltb 1 2 then codes "/l" else codes "/d")
            (pos 1800)
        else [])
unfolding usn_of
versioned_lem_example =
    versioned_lem (codes "urn:x:device:Basic") (codes "URN:x:device:basic") (codes "uuid:1")
      (codes "/d") (codes "/l") (pos 1800) 1 2 refl (omega arith) (omega arith) refl

abbrev alive : Packet
alive = record fresh_packet {
  method = some (codes "NOTIFY");
  nts = some (codes "ssdp:alive");
  nt = some (codes "upnp:rootdevice");
  usn = some (codes "uuid:7::upnp:rootdevice");
  location = some (codes "http://192.168.1.9/d");
  cache_control = some (codes "max-age=1800");
}

abbrev tells_of : List Event → List (Bytes × ℤ)
tells_of (advertisement_alive c d k ∷ []) = (d.device_id, d.expires) ∷ []
tells_of _ = []

tells :
    tells_of (ssdp_handle_ctrlpt_msg (λ url a. url) alive (ipv4 (192 ∷ 168 ∷ 1 ∷ 9 ∷ [])) handles)
    ≡ (codes "uuid:7", pos 1800) ∷ []
unfolding ssdp_handle_ctrlpt_msg upnp_strlcpy advertised
tells = refl

ssdp_handle_ctrlpt_msg-IsSound_example :
    All
      (IsSound alive)
      (ssdp_handle_ctrlpt_msg (λ url a. url) alive (ipv4 (192 ∷ 168 ∷ 1 ∷ 9 ∷ [])) handles)
ssdp_handle_ctrlpt_msg-IsSound_example =
    ssdp_handle_ctrlpt_msg-IsSound (λ url a. url) alive (ipv4 (192 ∷ 168 ∷ 1 ∷ 9 ∷ [])) handles

abbrev network : Network
network = record {
  client_info = codes "c";
  code = λ job. 0;
  netifs = 1;
  sockets4 = true ∷ [];
  sockets6 = false ∷ [];
}

abbrev searcher : Searcher
searcher = record { handles = handles; timer = idle_timer }

search_expired-search_by_target_example :
    search_expired idle_timer.last_event_id
      (search_by_target 0 network (pos 3) (codes "ssdp:all") [] (pos 0) 9 searcher).0.handles
    ≡ (handles, search_timeout 1 9 ∷ [])
unfolding ssdp_request_type1 get_client_handle_info
search_expired-search_by_target_example =
    search_expired-search_by_target 0 network (pos 3) (codes "ssdp:all") [] (pos 0) 9 searcher 1
      (entry hnd_client) refl refl refl
