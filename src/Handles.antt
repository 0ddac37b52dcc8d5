-- ===== src/Handles.antt =====
-- The table of device and client handles of src/api/upnpapi.cpp, with `Handle_Info` of
-- src/inc/upnpapi.h. A pointer to a handle or to a service is its position in the table.
pub mod Slots
pub mod Places
pub mod Clients
pub mod Devices
pub mod Firsts
use npupnp.Common.{
  ℕ, zero, suc, ◌+◌, ◌-◌, Bool, true, false, not, ◌&&◌, ◌||◌, Option, none, some, List, [], ◌∷◌,
  ◌==◌, leb, ltb, if◌then◌else◌, Bytes, get_elem?, set, ℤ, pos, negsuc, ltb_ℤ, find_if, replicate,
}
use npupnp.ServiceTable.{
  ServiceInfo, find_service_id, find_service_event_url_path, find_service_control_url_path,
}
use npupnp.Uri.HostPort.{Resolver}

pub data HandleType : Type 0 where
  hnd_invalid hnd_client hnd_device : HandleType

-- A subscription of a control point; -1 is no renewal event.
pub record ClientSubscription : Type 0 where
  pub renew_event_id : ℤ
  pub sid : Bytes
  pub event_url : Bytes

-- What a discovery message is about, or a search asks for.
pub data SearchType : Type 0 where
  ssdp_serror ssdp_all ssdp_rootdevice ssdp_deviceudn ssdp_devicetype ssdp_service : SearchType

-- A search of a control point that has not timed out.
pub record SsdpSearchArg : Type 0 where
  pub timeout_event_id : ℕ
  pub request_type : SearchType
  pub search_target : Bytes
  pub cookie : ℕ

-- A device of a description, with the types of its services.
pub record DeviceDesc : Type 0 where
  pub device_type : Bytes
  pub udn : Bytes
  pub services : List Bytes

-- What the discovery code reads of a handle: the root device, and the embedded devices.
pub record Advert : Type 0 where
  pub desc_url : Bytes
  pub lower_desc_url : Bytes
  pub power_state : ℤ
  pub sleep_period : ℤ
  pub registration_state : ℤ
  pub root : DeviceDesc
  pub embedded : List DeviceDesc

-- The fields that the modelled code reads or writes.
pub record HandleInfo : Type 0 where
  pub htype : HandleType
  pub callback : ℕ
  pub cookie : ℕ
  pub product_version : Bytes
  pub max_age : ℤ
  pub service_table : List ServiceInfo
  pub max_subscriptions : ℤ
  pub max_subscription_time_out : ℤ
  pub client_sub_list : List ClientSubscription
  pub ssdp_search_list : List SsdpSearchArg
  pub subs_ops_timeout_ms : ℕ
  pub advert : Advert

abbrev pub Handles : Type 0
Handles = List (Option HandleInfo)

abbrev pub num_handle : ℕ
num_handle = 200

abbrev pub empty_handles : Handles
empty_handles = replicate num_handle none

-- `std::find` of a null pointer, counted from `i`.
first_null : ℕ → Handles → Option ℕ
first_null i [] = none
first_null i (none ∷ hs) = some i
first_null i (some h ∷ hs) = first_null (suc i) hs

-- Slot 0 is passed over; `none` is `UPNP_E_OUTOF_HANDLE`.
unfoldable pub get_free_handle : Handles → Option ℕ
unfolding first_null
get_free_handle [] = none
get_free_handle (h ∷ hs) = first_null 1 hs

-- `true` is `UPNP_E_SUCCESS`, `false` is `UPNP_E_INVALID_HANDLE`.
unfoldable pub free_handle : ℕ → Handles → Handles × Bool
free_handle i hs =
    if leb 1 i && ltb i num_handle
    then elim (get_elem? hs i) [ some (some h) ↦ (set hs i none, true) | _ ↦ (hs, false) ]
    else (hs, false)

slot : ℕ → Handles → Option HandleInfo
slot i hs = elim (get_elem? hs i) [ some (some h) ↦ some h | _ ↦ none ]

-- The position and the entry, whatever its type; `none` if out of range or free.
unfoldable pub get_handle_info : ℤ → Handles → Option (ℕ × HandleInfo)
unfolding slot
get_handle_info (negsuc n) hs = none
get_handle_info (pos i) hs =
    if ltb i 1 || leb num_handle i
    then none
    else elim (slot i hs) [ none ↦ none | some h ↦ some (i, h) ]

abbrev pub is_device : HandleType → Bool
is_device hnd_device = true
is_device _ = false

abbrev pub is_client : HandleType → Bool
is_client hnd_client = true
is_client _ = false

-- `GetHandleInfo(...) == HND_DEVICE`.
unfoldable pub get_device : ℤ → Handles → Option (ℕ × HandleInfo)
unfolding get_handle_info
get_device h hs = elim (get_handle_info h hs) [
  | none ↦ none
  | some (i, info) ↦ if is_device info.htype then some (i, info) else none
]

-- `GetHandleInfo(...) == HND_CLIENT`.
unfoldable pub get_client : ℤ → Handles → Option (ℕ × HandleInfo)
unfolding get_handle_info
get_client h hs = elim (get_handle_info h hs) [
  | none ↦ none
  | some (i, info) ↦ if is_client info.htype then some (i, info) else none
]

-- The first slot from `i` on, of the entries `hs` there, that passes.
first_slot : (HandleInfo → Bool) → ℕ → Handles → Option (ℕ × HandleInfo)
first_slot p i [] = none
first_slot p i (none ∷ hs) = first_slot p (suc i) hs
first_slot p i (some h ∷ hs) =
    let later = first_slot p (suc i) hs in if p h then some (i, h) else later

abbrev pub drop_slots : ℕ → Handles → Handles
drop_slots zero hs = hs
drop_slots (suc n) [] = []
drop_slots (suc n) (h ∷ hs) = drop_slots n hs

unfoldable pub get_client_handle_info : Handles → Option (ℕ × HandleInfo)
unfolding first_slot
get_client_handle_info hs = first_slot (λ h. is_client h.htype) 1 (drop_slots 1 hs)

-- The walk over the devices: the first one behind `start`.
unfoldable pub get_device_handle_info : ℤ → Handles → Option (ℕ × HandleInfo)
unfolding first_slot
get_device_handle_info (negsuc n) hs = none
get_device_handle_info (pos start) hs =
    if leb (num_handle - 1) start
    then none
    else first_slot (λ h. is_device h.htype) (suc start) (drop_slots (suc start) hs)

-- The service that a path names in one device: by its control URL, else by its event URL.
service_for_path : Resolver → Bytes → HandleInfo → Option ℕ
unfolding find_service_control_url_path find_service_event_url_path
service_for_path r path h = elim (find_service_control_url_path r h.service_table path) [
  | some k ↦ some k
  | none ↦ find_service_event_url_path r h.service_table path
]

-- A service with its position, and the handle that it belongs to with its slot.
pub record Found : Type 0 where
  pub index : ℕ
  pub info : HandleInfo
  pub position : ℕ
  pub service : ServiceInfo

found_at : ℕ → HandleInfo → Option ℕ → Option Found
found_at i h none = none
found_at i h (some k) = elim (get_elem? h.service_table k) [
  | none ↦ none
  | some si ↦ some (record { index = i; info = h; position = k; service = si })
]

path_slot : Resolver → Bytes → ℕ → Handles → Option Found
unfolding service_for_path found_at
path_slot r path i [] = none
path_slot r path i (none ∷ hs) = path_slot r path (suc i) hs
path_slot r path i (some h ∷ hs) =
    let later = path_slot r path (suc i) hs in
    if is_device h.htype
    then elim (found_at i h (service_for_path r path h)) [ none ↦ later | some f ↦ some f ]
    else later

unfoldable pub get_device_handle_info_for_path : Resolver → Bytes → Handles → Option Found
unfolding path_slot
get_device_handle_info_for_path r path hs = path_slot r path 1 (drop_slots 1 hs)

-- A device's service by its id and the device's UDN (`GetHandleInfo`, then `FindServiceId`).
unfoldable pub service_of : ℤ → Bytes → Bytes → Handles → Option Found
unfolding get_device found_at find_service_id
service_of h serv_id udn hs = elim (get_device h hs) [
  | none ↦ none
  | some (i, info) ↦ found_at i info (find_service_id info.service_table serv_id udn)
]

-- What is written through the pointers of a service that was found.
unfoldable pub store : Found → ServiceInfo → Handles → Handles
store f service hs =
    set hs f.index
      (some (record (f.info) { service_table = set f.info.service_table f.position service }))
