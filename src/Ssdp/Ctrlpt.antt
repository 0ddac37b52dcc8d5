-- ===== src/Ssdp/Ctrlpt.antt =====
-- src/ssdp/ssdp_ctrlpt.cpp: the searches of a control point, and the discovery messages that it
-- hands to the application. Other threads, the sending of the packets and `maybeScopeUrlAddr`
-- (which prints an address) are arguments.
pub mod Sound
pub mod Searches
use npupnp.Common.{
  ℕ, ◌+◌, ◌*◌, ◌==◌, Bool, true, false, not, ◌&&◌, ◌||◌, Option, none, some, List, [], ◌∷◌, ◌++◌,
  if◌then◌else◌, Bytes, codes, take, drop, null, starts_with, first_or, equal, is_some, length, ltb,
  ltb_ℤ, map, min, span, to_lower, find_if, keep, set, ℤ, pos, negsuc, minus_one, show_ℤ,
}
use npupnp.Uri.Chars.{is_space, upnp_strlcpy}
use npupnp.GenaDevice.Request.{scan_int}
use npupnp.SsdpParser.{Packet}
use npupnp.NetIf.{IpAddr}
use npupnp.Timer.{Timer, schedule_at, schedule_after, rel_sec, short_term}
use npupnp.Handles.{
  Handles, HandleInfo, SsdpSearchArg, get_client_handle_info, SearchType, ssdp_serror, ssdp_all,
  ssdp_rootdevice, ssdp_deviceudn, ssdp_devicetype, ssdp_service,
}
use npupnp.Ssdp.{
  Entity, no_entity, unique_service_name, ssdp_request_type, ssdp_request_type1, line_size,
}

-- The part of `Upnp_Discovery` that is not empty.
pub record Discovery : Type 0 where
  pub expires : ℤ
  pub device_id : Bytes
  pub device_type : Bytes
  pub service_type : Bytes
  pub location : Bytes
  pub os : Bytes
  pub date : Bytes
  pub dest_addr : IpAddr

-- The calls of the application: its callback and its cookie.
pub data Event : Type 0 where
  advertisement_alive advertisement_byebye : ℕ → Discovery → ℕ → Event
  search_result : ℕ → Discovery → ℕ → Event
  search_timeout : ℕ → ℕ → Event

-- `sscanf` with `max-age = %d%1c`, which has to read one item.
unfoldable pub scan_max_age : Bytes → Option ℤ
unfolding starts_with span is_space scan_int
scan_max_age s =
    let t : Bytes = (span is_space (drop 7 s)).1 in
    if starts_with (codes "max-age") s && first_or 0 t == b'=' then scan_int (drop 1 t) else none

-- A header that is absent gives -1; `none` is a bad one.
unfoldable pub expires_of : Option Bytes → Option ℤ
unfolding scan_max_age to_lower
expires_of none = some minus_one
expires_of (some value) = scan_max_age (map to_lower value)

abbrev pub line : Bytes → Bytes
line s = (upnp_strlcpy s line_size).0

abbrev pub line_of : Option Bytes → Bytes
line_of none = []
line_of (some s) = line s

-- The location with its scope; `none` is a bad one.
unfoldable pub location_of : (Bytes → IpAddr → Bytes) → Option Bytes → IpAddr → Option Bytes
unfolding upnp_strlcpy
location_of scoped none addr = some []
location_of scoped (some url) addr =
    if null (scoped url addr) then none else some (line (scoped url addr))

abbrev pub os_of : Packet → Bytes
os_of p = elim p.server [ none ↦ line_of p.user_agent | some server ↦ line server ]

-- `ssdp_request_type` writes to the entity also when it fails.
abbrev pub nt_entity : Option Bytes → Entity × Bool
nt_entity none = (no_entity, false)
nt_entity (some nt) = (
  record ((unique_service_name nt no_entity).0) { request_type = ssdp_request_type1 nt },
  is_some (ssdp_request_type nt),
)

abbrev pub usn_entity : Option Bytes → Entity → Entity × Bool
usn_entity none evt = (evt, false)
usn_entity (some usn) evt = unique_service_name usn evt

-- The entity, whether NT was found, and whether USN was.
unfoldable pub entity_of_packet : Packet → Entity × Bool × Bool
unfolding unique_service_name ssdp_request_type1 ssdp_request_type
entity_of_packet p =
    let (after_nt, nt_found) = nt_entity p.nt in
    let (evt, usn_found) = usn_entity p.usn after_nt in (evt, nt_found, usn_found)

-- The first bytes of two strings are the same: `strncmp`.
unfoldable pub same_start : ℕ → Bytes → Bytes → Bool
unfolding equal
same_start n s t = equal (take n s) (take n t)

abbrev is_rootdevice : SearchType → Bool
is_rootdevice ssdp_rootdevice = true
is_rootdevice _ = false

-- The match of a search with the ST of an answer.
unfoldable pub matches_search : Bytes → SearchType → SsdpSearchArg → Bool
unfolding same_start
matches_search st answered search = elim search.request_type [
  | ssdp_serror ↦ false
  | ssdp_all ↦ true
  | ssdp_rootdevice ↦ is_rootdevice answered
  | ssdp_deviceudn ↦ same_start (length st) search.search_target st
  | ssdp_devicetype ↦
      same_start (min (length st) (length search.search_target)) search.search_target st
  | ssdp_service ↦
      same_start (min (length st) (length search.search_target)) search.search_target st
]

-- A message that is no answer, by its NTS: the callback is called at once.
unfoldable pub advertised : Option Bytes → Bool → ℕ → Discovery → ℕ → List Event
unfolding equal
advertised none found callback param cookie = []
advertised (some nts) found callback param cookie =
    if equal nts (codes "ssdp:alive")
    then (if found && (not (null param.location) && ltb_ℤ (pos 0) param.expires)
        then advertisement_alive callback param cookie ∷ []
        else [])
    else if equal nts (codes "ssdp:byebye")
    then (if found then advertisement_byebye callback param cookie ∷ [] else [])
    else []

-- The jobs that call back for the searches of the client's list that match.
unfoldable pub search_results : Bytes → SearchType → ℕ → Discovery → List SsdpSearchArg → List Event
unfolding matches_search
search_results st answered callback param searches =
    map (λ s. search_result callback param s.cookie) (keep (matches_search st answered) searches)

abbrev pub is_ok_status : Option Bytes → Bool
is_ok_status none = false
is_ok_status (some status) = equal status (codes "200")

-- With the entity of the ST of an answer, if it has one.
unfoldable pub replied_about :
    Option Bytes → Bytes → Option Entity → Bool → ℕ → Discovery → List SsdpSearchArg → List Event
unfolding equal search_results
replied_about status st none usn_found callback param searches = []
replied_about status st (some evt) usn_found callback param searches =
    if is_ok_status status
      && (ltb_ℤ (pos 0) param.expires && (not (null param.location) && usn_found))
    then search_results st evt.request_type callback param searches
    else []

-- An answer to a search, by its status and its ST.
unfoldable pub replied :
    Option Bytes → Option Bytes → Bool → ℕ → Discovery → List SsdpSearchArg → List Event
unfolding ssdp_request_type replied_about
replied status none usn_found callback param searches = []
replied status (some st) usn_found callback param searches =
    replied_about status st (ssdp_request_type st) usn_found callback param searches

-- With what was read of the headers.
abbrev pub handled :
    Packet → IpAddr → HandleInfo → Option ℤ → Option Bytes → Entity × Bool × Bool → List Event
handled p addr info none location entity = []
handled p addr info (some expires) none entity = []
handled p addr info (some expires) (some location) (evt, nt_found, usn_found) =
    let found : Bool = nt_found || usn_found in
    let param : Discovery = record {
      expires = expires;
      device_id = if found then line evt.udn else [];
      device_type = if found then line evt.device_type else [];
      service_type = if found then line evt.service_type else [];
      location = location;
      os = os_of p;
      date = line_of p.date;
      dest_addr = addr;
    } in
    if p.isresponse
    then replied p.status p.st usn_found info.callback param info.ssdp_search_list
    else advertised p.nts (nt_found && usn_found) info.callback param info.cookie

-- For the client, if there is one.
unfoldable pub handled_for :
    (Bytes → IpAddr → Bytes) → Packet → IpAddr → Option (ℕ × HandleInfo) → List Event
unfolding expires_of location_of entity_of_packet
handled_for scoped p addr none = []
handled_for scoped p addr (some (i, info)) =
    handled p addr info (expires_of p.cache_control) (location_of scoped p.location addr)
      (entity_of_packet p)

-- The lock is taken anew before the list is read; the table is taken to be the same.
unfoldable pub ssdp_handle_ctrlpt_msg :
    (Bytes → IpAddr → Bytes) → Packet → IpAddr → Handles → List Event
unfolding handled_for get_client_handle_info
ssdp_handle_ctrlpt_msg scoped p addr hs = handled_for scoped p addr (get_client_handle_info hs)
