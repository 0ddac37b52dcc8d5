-- ===== src/Ssdp.antt =====
-- src/ssdp/ssdp_server.cpp: what a discovery message is about, which messages are taken, and who
-- gets them.
pub mod Packets
pub mod Device
pub mod Valid
pub mod Search
pub mod Versions
pub mod Ctrlpt
use npupnp.Common.{
  ℕ, ◌-◌, ◌==◌, Bool, true, false, not, ◌&&◌, ◌||◌, Option, none, some, List, [], ◌∷◌,
  if◌then◌else◌, Bytes, codes, take, null, starts_with, equal, equal_nocase, is_some, length, ltb_ℤ,
  ℤ, pos,
}
use npupnp.Uri.Chars.{atoi}
use npupnp.Uri.HostPort.{HostPort, Resolver, parse_hostport}
use npupnp.HttpUtils.Methods.{
  HttpMethod, httpmethod_str2enum, httpmethod_notify, httpmethod_msearch, httpmethod_unknown,
}
use npupnp.GenaDevice.Request.{signed32}
use npupnp.NetIf.{IpAddr, Interface, ip_of_text, ip_ok, set_scope_idx, interface_for_address}
use npupnp.SsdpParser.{Packet}
use npupnp.Handles.{
  SearchType, ssdp_serror, ssdp_all, ssdp_rootdevice, ssdp_deviceudn, ssdp_devicetype, ssdp_service,
}

-- `strstr`: the text from the first occurrence on.
unfoldable pub strstr : Bytes → Bytes → Option Bytes
unfolding starts_with
strstr [] needle = if null needle then some [] else none
strstr (c ∷ s) needle =
    let later = strstr s needle in if starts_with needle (c ∷ s) then some (c ∷ s) else later

abbrev pub contains : Bytes → Bytes → Bool
contains s needle = is_some (strstr s needle)

-- The fields of `SsdpEntity` that are written here.
pub record Entity : Type 0 where
  pub request_type : SearchType
  pub udn : Bytes
  pub device_type : Bytes
  pub service_type : Bytes

abbrev pub no_entity : Entity
no_entity = record { request_type = ssdp_serror; udn = []; device_type = []; service_type = [] }

abbrev pub line_size : ℕ
line_size = 180

-- The text before the first `::`, or at most 180 bytes.
unfoldable pub udn_of : Bytes → Bytes
unfolding strstr
udn_of cmd = elim (strstr cmd (codes "::")) [
  | none ↦ take line_size cmd
  | some rest ↦ take (length cmd - length rest) cmd
]

-- `unique_service_name`, which leaves a field that it does not find as it was.
unfoldable pub unique_service_name : Bytes → Entity → Entity × Bool
unfolding strstr udn_of starts_with
unique_service_name cmd evt =
    let is_uuid : Bool = starts_with (codes "uuid:") cmd in
    let urn : Bytes = elim (strstr cmd (codes "urn:")) [ none ↦ [] | some u ↦ take line_size u ] in
    let is_urn : Bool = contains cmd (codes "urn:") in
    let is_service : Bool = is_urn && contains cmd (codes ":service:") in
    let is_device : Bool = is_urn && contains cmd (codes ":device:") in
    (
      record evt {
        udn = if is_uuid then udn_of cmd else evt.udn;
        service_type = if is_service then urn else evt.service_type;
        device_type = if is_device then urn else evt.device_type;
      },
      is_uuid || (is_service || is_device),
    )

unfoldable pub ssdp_request_type1 : Bytes → SearchType
unfolding strstr
ssdp_request_type1 cmd =
    if contains cmd (codes ":all")
    then ssdp_all
    else if contains cmd (codes ":rootdevice")
    then ssdp_rootdevice
    else if contains cmd (codes "uuid:")
    then ssdp_deviceudn
    else if contains cmd (codes "urn:") && contains cmd (codes ":device:")
    then ssdp_devicetype
    else if contains cmd (codes "urn:") && contains cmd (codes ":service:")
    then ssdp_service
    else ssdp_serror

abbrev pub is_error : SearchType → Bool
is_error ssdp_serror = true
is_error _ = false

-- The entity; `none` for -1.
unfoldable pub ssdp_request_type : Bytes → Option Entity
unfolding unique_service_name ssdp_request_type1
ssdp_request_type cmd =
    let evt : Entity = record ((unique_service_name cmd no_entity).0) {
      request_type = ssdp_request_type1 cmd;
    } in
    if is_error (ssdp_request_type1 cmd) then none else some evt

-- What the checks of a message read.
pub record Net : Type 0 where
  pub resolver : Resolver
  pub netifs : List Interface

-- The multicast addresses.
unfoldable pub is_multicast_host : Bytes → Bool
unfolding equal equal_nocase
is_multicast_host host =
    equal host (codes "239.255.255.250:1900")
    || (equal_nocase host (codes "[FF02::C]:1900") || equal_nocase host (codes "[FF05::C]:1900"))

-- A search by multicast needs a positive MX.
unfoldable pub has_mx : Option Bytes → Bool
unfolding atoi signed32
has_mx none = false
has_mx (some mx) = ltb_ℤ (pos 0) (signed32 (atoi mx))

-- The address is one of an interface of ours.
abbrev pub is_our_host : Net → IpAddr → Option (HostPort × ℕ) → Bool
is_our_host net claddr none = false
is_our_host net claddr (some (hp, used)) =
    let addr : IpAddr = ip_of_text net.resolver hp.strhost in
    ip_ok addr && is_some (interface_for_address (set_scope_idx addr claddr) net.netifs)

abbrev pub is_msearch : HttpMethod → Bool
is_msearch httpmethod_msearch = true
is_msearch _ = false

abbrev pub is_notify : HttpMethod → Bool
is_notify httpmethod_notify = true
is_notify _ = false

abbrev pub valid_host : Net → IpAddr → HttpMethod → Option Bytes → Option Bytes → Bool
valid_host net claddr method mx none = false
valid_host net claddr method mx (some host) =
    if is_multicast_host host
    then not (is_msearch method) || has_mx mx
    else is_our_host net claddr (parse_hostport net.resolver false host)

abbrev pub is_star : Option Bytes → Bool
is_star none = false
is_star (some url) = equal url (codes "*")

abbrev pub valid_request : Net → IpAddr → Packet → Option Bytes → HttpMethod
valid_request net claddr p none = httpmethod_unknown
valid_request net claddr p (some text) =
    let method = httpmethod_str2enum text in
    if (is_notify method || is_msearch method)
      && (is_star p.url && valid_host net claddr method p.mx p.host)
    then method
    else httpmethod_unknown

unfoldable pub valid_ssdp_msg : Net → IpAddr → Packet → HttpMethod
unfolding equal is_multicast_host has_mx ip_of_text ip_ok set_scope_idx interface_for_address
valid_ssdp_msg net claddr p =
    if p.isresponse then httpmethod_msearch else valid_request net claddr p p.method

pub data Target : Type 0 where
  control_point device nobody : Target

-- Who a parsed message goes to.
unfoldable pub dispatch : Net → IpAddr → Packet → Target
unfolding valid_ssdp_msg
dispatch net claddr p =
    let method = valid_ssdp_msg net claddr p in
    if is_notify method || (p.isresponse && is_msearch method)
    then control_point
    else if is_msearch method
    then device
    else nobody
