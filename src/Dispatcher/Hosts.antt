-- ===== src/Dispatcher/Hosts.antt =====
-- `filter_connections`, `validate_host_header` and `rebuild_url_from_mhdt` of miniserver.cpp, with
-- `UpnpGetUrlHostPortForClient` of upnpapi.cpp. The client's callback for host names is an
-- argument; `none` is that none was set.
use npupnp.Common.{
  ℕ, Bool, true, false, ◌&&◌, Option, none, some, List, [], ◌++◌, if◌then◌else◌, Bytes, codes, null,
  pop_back, show_ℕ, is_some,
}
use npupnp.Uri.Escape.{query_pairs}
use npupnp.Uri.HostPort.{Resolver, SockAddr, HostPort, parse_hostport}
use npupnp.HttpUtils.Headers.{find_header}
use npupnp.HttpUtils.Methods.{
  HttpMethod, httpmethod_get, httpmethod_head, httpmethod_post, httpmethod_simpleget,
}
use npupnp.NetIf.{
  IpAddr, ipv4, ipv6, no_ip, Interface, ip_of_text, ip_of_sockaddr, set_scope_idx, ip_ok,
  interface_for_address, straddr,
}
use npupnp.Dispatcher.{Request}

-- The globals and the system functions that the dispatcher reads.
pub record Setup : Type 0 where
  pub resolver : Resolver
  pub inet_ntop : Bool → Bytes → Bytes
  pub use_all_interfaces : Bool
  pub netifs : List Interface
  pub host_validate : Option (Bytes → Bool)
  pub reject_hostnames : Bool
  pub no_host_validate : Bool
  pub port4 : ℕ
  pub port6 : ℕ

-- Whether a connection is taken.
unfoldable pub filter_connections : Setup → SockAddr → Bool
unfolding ip_of_sockaddr interface_for_address
filter_connections s addr =
    if s.use_all_interfaces
    then true
    else is_some (interface_for_address (ip_of_sockaddr addr true) s.netifs)

pub data VhhStatus : Type 0 where
  vhh_yes vhh_no vhh_redirect : VhhStatus

-- The methods of requests to the web server.
abbrev pub is_web : HttpMethod → Bool
is_web httpmethod_get = true
is_web httpmethod_head = true
is_web httpmethod_post = true
is_web httpmethod_simpleget = true
is_web _ = false

-- Whether there is a callback, and it accepts the name.
abbrev pub accepts : Option (Bytes → Bool) → Bytes → Bool
accepts none name = false
accepts (some callback) name = callback name

unfoldable pub validate_name : Setup → HttpMethod → Bytes → VhhStatus
validate_name s method strhost =
    if is_web method
    then if accepts s.host_validate strhost
      then vhh_yes
      else if s.reject_hostnames
      then vhh_no
      else vhh_redirect
    else vhh_no

-- A numeric host has to belong to one of the interfaces.
unfoldable pub validate_address : Setup → Bytes → IpAddr → VhhStatus
unfolding ip_of_text set_scope_idx ip_ok interface_for_address
validate_address s strhost claddr =
    let addr : IpAddr = ip_of_text s.resolver strhost in
    if ip_ok addr && is_some (interface_for_address (set_scope_idx addr claddr) s.netifs)
    then vhh_yes
    else vhh_no

abbrev pub validate_parsed : Setup → HttpMethod → IpAddr → Option (HostPort × ℕ) → VhhStatus
validate_parsed s method claddr none = vhh_no
validate_parsed s method claddr (some (hp, used)) =
    if hp.hostisname
    then validate_name s method hp.strhost
    else validate_address s hp.strhost claddr

abbrev pub validate_value : Setup → HttpMethod → IpAddr → Option Bytes → VhhStatus
validate_value s method claddr none = vhh_no
validate_value s method claddr (some value) =
    validate_parsed s method claddr (parse_hostport s.resolver false value)

unfoldable pub validate_host_header : Setup → Request → IpAddr → VhhStatus
unfolding find_header
validate_host_header s t claddr =
    validate_value s t.method claddr (find_header (codes "host") t.headers)

-- Our address for this client, with the port; empty if there is none.
unfoldable pub url_host_port_for_client : Setup → SockAddr → Bytes
unfolding ip_of_sockaddr interface_for_address show_ℕ straddr
url_host_port_for_client s client =
    elim (interface_for_address (ip_of_sockaddr client true) s.netifs) [
      | none ↦ []
      | some (itf, hostaddr) ↦ elim hostaddr [
        | no_ip ↦ []
        | ipv4 b ↦ straddr s.inet_ntop false false (ipv4 b) ++ codes ":" ++ show_ℕ s.port4
        | ipv6 b scope ↦
            codes "["
            ++ straddr s.inet_ntop false false (ipv6 b scope)
            ++ codes "]:"
            ++ show_ℕ s.port6
      ]
    ]

unfoldable pub rebuild_url_from_mhdt : Setup → Request → Bytes → Bytes
unfolding url_host_port_for_client query_pairs pop_back
rebuild_url_from_mhdt s t path =
    let hostport : Bytes = url_host_port_for_client s t.client_address in
    let aurl : Bytes = codes "http://" ++ hostport ++ path in
    if null hostport
    then []
    else if null t.query_values
    then aurl
    else pop_back (aurl ++ codes "?" ++ query_pairs t.query_values)
