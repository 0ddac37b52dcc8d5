-- ===== src/GenaClient.antt =====
-- src/gena/gena_ctrlpt.cpp: what a control point sends for a subscription, its renewal and its
-- end. The transport (libcurl) and the trimming of header lines are arguments.
pub mod Subscriptions
pub mod Notify
pub mod Removed
pub mod Kept
pub mod Renewal
use npupnp.Common.{
  ℕ, ◌==◌, Bool, true, false, not, Option, none, some, List, [], ◌∷◌, ◌++◌, if◌then◌else◌, Bytes,
  codes, null, is_some, show_ℕ, ◌⊎◌, inl, inr, ℤ, pos, negsuc, ltb,
}
use npupnp.Uri.HostPort.{Resolver, no_address}
use npupnp.Uri.Parse.{Uri, uri_asurlstr}
use npupnp.HttpUtils.Headers.{find_header}
use npupnp.HttpUtils.Urls.{http_fix_str_url, header_callback_curl}
use npupnp.GenaDevice.Request.{timeout_header_value}
use npupnp.NetIf.{
  IpAddr, no_ip, ipv4, ipv6, Interface, ip_of_sockaddr, interface_for_address, straddr,
}

pub record HttpRequest : Type 0 where
  pub method : Bytes
  pub url : Bytes
  pub headers : List Bytes
  pub timeoutms : ℕ

-- The status and the header lines.
pub record HttpReply : Type 0 where
  pub http_status : ℕ
  pub lines : List Bytes

-- `transport` is `curl_easy_perform`; `none` is that it fails.
pub record Env : Type 0 where
  pub resolver : Resolver
  pub netifs : List Interface
  pub inet_ntop : Bool → Bytes → Bytes
  pub port4 : ℕ
  pub port6 : ℕ
  pub client_info : Bytes
  pub trimstring : Bytes → Bytes → Bytes
  pub transport : HttpRequest → Option HttpReply

abbrev pub upnp_e_success : ℤ
upnp_e_success = pos 0

abbrev pub upnp_e_invalid_handle : ℤ
upnp_e_invalid_handle = negsuc 99

abbrev pub upnp_e_invalid_url : ℤ
upnp_e_invalid_url = negsuc 107

abbrev pub upnp_e_invalid_sid : ℤ
upnp_e_invalid_sid = negsuc 108

abbrev pub upnp_e_bad_response : ℤ
upnp_e_bad_response = negsuc 112

abbrev pub upnp_e_socket_connect : ℤ
upnp_e_socket_connect = negsuc 203

abbrev pub upnp_e_subscribe_unaccepted : ℤ
upnp_e_subscribe_unaccepted = negsuc 300

-- `AUTO_RENEW_TIME` and `CP_MINIMUM_SUBSCRIPTION_TIME`, in seconds.
abbrev pub auto_renew_time : ℕ
auto_renew_time = 10

abbrev pub cp_minimum_subscription_time : ℕ
cp_minimum_subscription_time = 15

-- The request that `gena_unsubscribe` sends; its callers do not use its result. `none` is that
-- the URL is refused.
unfoldable pub gena_unsubscribe : Env → Bytes → Bytes → ℕ → Option HttpRequest
unfolding http_fix_str_url uri_asurlstr
gena_unsubscribe env url sid timeoutms = elim (http_fix_str_url env.resolver url) [
  | none ↦ none
  | some dest_url ↦ some (record {
    method = codes "UNSUBSCRIBE";
    url = uri_asurlstr dest_url;
    headers = (codes "SID: " ++ sid) ∷ (codes "USER-AGENT: " ++ env.client_info) ∷ [];
    timeoutms = timeoutms;
  })
]

unfoldable pub my_callback_url : Env → IpAddr → Bytes
unfolding straddr show_ℕ
my_callback_url env (ipv6 b scope) =
    codes "http://["
    ++ straddr env.inet_ntop false false (ipv6 b scope)
    ++ codes "]:"
    ++ show_ℕ env.port6
my_callback_url env netaddr =
    codes "http://" ++ straddr env.inet_ntop false false netaddr ++ codes ":" ++ show_ℕ env.port4

-- The time asked for, with its lower bound.
unfoldable pub timeout_text : ℤ → Bytes
unfolding show_ℕ
timeout_text (negsuc n) = codes "infinite"
timeout_text (pos n) =
    if ltb n cp_minimum_subscription_time then show_ℕ cp_minimum_subscription_time else show_ℕ n

-- The header lines of a first subscription, or of a renewal.
unfoldable pub subscribe_headers : Env → IpAddr → Bytes → ℤ → List Bytes
unfolding my_callback_url timeout_text
subscribe_headers env myaddr renewal_sid timeout =
    let first : List Bytes =
      if null renewal_sid
      then (codes "CALLBACK: <" ++ my_callback_url env myaddr ++ codes "/>")
        ∷ codes "NT: upnp:event"
        ∷ []
      else (codes "SID: " ++ renewal_sid) ∷ [] in
    first
    ++ ((codes "TIMEOUT: Second-" ++ timeout_text timeout)
        ∷ (codes "USER-AGENT: " ++ env.client_info)
        ∷ [])

-- The header callback, for each line.
unfoldable pub header_map : Env → List Bytes → List (Bytes × Bytes) → List (Bytes × Bytes)
unfolding header_callback_curl
header_map env [] headers = headers
header_map env (line ∷ lines) headers =
    header_map env lines (header_callback_curl env.trimstring line headers)

-- An error code, or the SID and the time granted.
abbrev pub Granted : Type 0
Granted = ℤ ⊎ (Bytes × ℤ)

abbrev granted_with : Option Bytes → Option ℤ → Granted
granted_with (some sid) (some time) = inr (sid, time)
granted_with _ _ = inl upnp_e_bad_response

unfoldable pub granted : Env → Option HttpReply → Granted
unfolding header_map find_header timeout_header_value
granted env none = inl upnp_e_socket_connect
granted env (some reply) =
    let headers = header_map env reply.lines [] in
    if not (reply.http_status == 200)
    then inl upnp_e_subscribe_unaccepted
    else granted_with (find_header (codes "sid") headers)
        (timeout_header_value (record { url = []; headers = headers; client_address = no_address }))

-- From the interface for the destination, and our address on it.
abbrev pub subscribe_via : Env → Uri → ℤ → Bytes → ℕ → Option (Interface × IpAddr) → Granted
subscribe_via env dest_url timeout renewal_sid timeoutms none = inl upnp_e_socket_connect
subscribe_via env dest_url timeout renewal_sid timeoutms (some (ifp, myaddr)) = granted env (
    env.transport (record {
      method = codes "SUBSCRIBE";
      url = uri_asurlstr dest_url;
      headers = subscribe_headers env myaddr renewal_sid timeout;
      timeoutms = timeoutms;
    }))

abbrev pub subscribe_to : Env → ℤ → Bytes → ℕ → Option Uri → Granted
subscribe_to env timeout renewal_sid timeoutms none = inl upnp_e_invalid_url
subscribe_to env timeout renewal_sid timeoutms (some dest_url) =
    subscribe_via env dest_url timeout renewal_sid timeoutms
      (interface_for_address (ip_of_sockaddr dest_url.hostport.ip_address true) env.netifs)

unfoldable pub gena_subscribe : Env → Bytes → ℤ → Bytes → ℕ → Granted
unfolding http_fix_str_url uri_asurlstr ip_of_sockaddr interface_for_address subscribe_headers
    granted
gena_subscribe env url timeout renewal_sid timeoutms =
    subscribe_to env timeout renewal_sid timeoutms (http_fix_str_url env.resolver url)
