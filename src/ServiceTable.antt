-- ===== src/ServiceTable.antt =====
-- src/gena/service_table.cpp and src/inc/service_table.h: a device's services, and for each the
-- list of its subscriptions. A pointer into a list is a copy of the entry; what the code writes
-- through it is written by `update_sid`. The clock is an argument.
pub mod Count
pub mod Lookup
pub mod Invariant
pub mod Fill
use npupnp.Common.{
  ℕ, Bool, true, false, not, ◌&&◌, Option, none, some, List, [], ◌∷◌, ◌++◌, ◌==◌, if◌then◌else◌,
  Bytes, equal, null, ℤ, pos, pred_ℤ, ltb_ℤ, eqb_ℤ, find_if, find_index,
}
use npupnp.Uri.HostPort.{Resolver}
use npupnp.Uri.Parse.{Uri, parse_uri}

-- `struct Notification` of gena_device.cpp.
pub record Notification : Type 0 where
  pub device_handle : ℤ
  pub udn : Bytes
  pub serv_id : Bytes
  pub sid : Bytes
  pub property_set : Bytes
  pub ctime : ℕ

pub record Subscription : Type 0 where
  pub sid : Bytes
  pub to_send_event_key : ℕ
  pub expire_time : ℤ
  pub active : Bool
  pub delivery_urls : List Bytes
  pub outgoing : List Notification

pub record ServiceInfo : Type 0 where
  pub service_type : Bytes
  pub service_id : Bytes
  pub scpd_url : Bytes
  pub control_url : Bytes
  pub event_url : Bytes
  pub udn : Bytes
  pub active : Bool
  pub total_subscriptions : ℤ
  pub subscription_list : List Subscription

-- The queued events are not copied.
pub copy_subscription : Subscription → Subscription
copy_subscription s = record s { outgoing = [] }

-- The loop of `RemoveSubscriptionSID`: the entries kept, and the count.
remove_sid : Bytes → List Subscription → ℤ → List Subscription × ℤ
unfolding equal
remove_sid sid [] total = ([], total)
remove_sid sid (s ∷ ss) total =
    let found = remove_sid sid ss (pred_ℤ total) in
    let (kept, count) = remove_sid sid ss total in
    if equal sid s.sid then found else (s ∷ kept, count)

unfoldable pub remove_subscription_sid : Bytes → ServiceInfo → ServiceInfo
unfolding remove_sid
remove_subscription_sid sid service =
    let (kept, count) = remove_sid sid service.subscription_list service.total_subscriptions in
    record service { subscription_list = kept; total_subscriptions = count }

abbrev pub has_expired : ℕ → Subscription → Bool
has_expired now s = not (eqb_ℤ s.expire_time (pos 0)) && ltb_ℤ s.expire_time (pos now)

-- `std::find_if` by the sid, then `erase` of what was found.
erase_sid : Bytes → List Subscription → List Subscription
unfolding equal
erase_sid sid [] = []
erase_sid sid (s ∷ ss) = let rest = erase_sid sid ss in if equal sid s.sid then ss else s ∷ rest

abbrev pub find_sid : Bytes → List Subscription → Option Subscription
find_sid sid = find_if (λ s. equal sid s.sid)

-- An expired subscription is erased when it is asked for.
unfoldable pub get_subscription_sid : ℕ → Bytes → ServiceInfo → ServiceInfo × Option Subscription
unfolding erase_sid
get_subscription_sid now sid service = elim (find_sid sid service.subscription_list) [
  | none ↦ (service, none)
  | some s ↦
      if has_expired now s
      then (
        record service {
          subscription_list = erase_sid sid service.subscription_list;
          total_subscriptions = pred_ℤ service.total_subscriptions;
        },
        none,
      )
      else (service, some s)
]

-- A write through the pointer that `get_subscription_sid` returned.
unfoldable pub update_sid :
    Bytes → (Subscription → Subscription) → List Subscription → List Subscription
unfolding equal
update_sid sid f [] = []
update_sid sid f (s ∷ ss) =
    let rest = update_sid sid f ss in if equal sid s.sid then f s ∷ ss else s ∷ rest

-- `GetNextSubscription` from `current` on: the entries passed over, what is left from the entry
-- found on (empty for `end`), and the count. Expired entries on the way are erased.
unfoldable pub next_subscription :
    ℕ → List Subscription → ℤ → List Subscription × List Subscription × ℤ
next_subscription now [] total = ([], [], total)
next_subscription now (s ∷ ss) total =
    let erased = next_subscription now ss (pred_ℤ total) in
    let (passed, left, count) = next_subscription now ss total in
    if has_expired now s
    then erased
    else if s.active
    then ([], s ∷ ss, total)
    else (s ∷ passed, left, count)

-- A pointer to a service is its position in the table.
unfoldable pub find_service_id : List ServiceInfo → Bytes → Bytes → Option ℕ
unfolding equal
find_service_id table service_id udn =
    find_index (λ si. equal service_id si.service_id && equal udn si.udn) table

-- Whether a service's URL has this path and query.
abbrev url_matches : Resolver → Uri → Bytes → Bool
url_matches r given url = if null url then false else elim (parse_uri r url) [
  | none ↦ false
  | some parsed ↦ equal parsed.path given.path && equal parsed.query given.query
]

-- `FindServiceEventURLPath` and `FindServiceControlURLPath`.
unfoldable pub find_service_event_url_path : Resolver → List ServiceInfo → Bytes → Option ℕ
unfolding parse_uri equal
find_service_event_url_path r table path = elim (parse_uri r path) [
  | none ↦ none
  | some given ↦ find_index (λ si. url_matches r given si.event_url) table
]

unfoldable pub find_service_control_url_path : Resolver → List ServiceInfo → Bytes → Option ℕ
unfolding parse_uri equal
find_service_control_url_path r table path = elim (parse_uri r path) [
  | none ↦ none
  | some given ↦ find_index (λ si. url_matches r given si.control_url) table
]

-- What `fillServiceList` reads of `UPnPServiceDesc` and `UPnPDeviceDesc`.
pub record ServiceDesc : Type 0 where
  pub service_type : Bytes
  pub service_id : Bytes
  pub scpd_url : Bytes
  pub control_url : Bytes
  pub event_sub_url : Bytes

pub record DeviceDesc : Type 0 where
  pub udn : Bytes
  pub services : List ServiceDesc

abbrev pub new_service : Bytes → ServiceDesc → ServiceInfo
new_service udn d = record {
  service_type = d.service_type;
  service_id = d.service_id;
  scpd_url = d.scpd_url;
  control_url = d.control_url;
  event_url = d.event_sub_url;
  udn = udn;
  active = true;
  total_subscriptions = pos 0;
  subscription_list = [];
}

-- A service with no control URL is taken out again.
pub fill_services : Bytes → List ServiceDesc → List ServiceInfo → List ServiceInfo
fill_services udn [] table = table
fill_services udn (d ∷ ds) table =
    fill_services udn ds (if null d.control_url then table else table ++ new_service udn d ∷ [])

pub fill_service_list : DeviceDesc → List ServiceInfo → List ServiceInfo
unfolding fill_services
fill_service_list dev table = fill_services dev.udn dev.services table

pub fill_devices : List DeviceDesc → List ServiceInfo → List ServiceInfo
unfolding fill_service_list
fill_devices [] table = table
fill_devices (dev ∷ devs) table = fill_devices devs (fill_service_list dev table)

-- The root device's services, then those of each embedded device.
unfoldable pub init_service_table : DeviceDesc → List DeviceDesc → List ServiceInfo
unfolding fill_devices fill_service_list
init_service_table dev embedded = fill_devices embedded (fill_service_list dev [])

pub clear_service_table : List ServiceInfo → List ServiceInfo
clear_service_table table = []
