-- ===== src/Dispatcher.antt =====
-- src/dispatcher/miniserver.cpp: how a request is built up, checked, and given to the web server,
-- SOAP or GENA.
pub mod Hosts
pub mod Answer
pub mod Fields
pub mod Checked
pub mod Uploads
pub mod Ports
use npupnp.Common.{
  ℕ, Bool, true, false, Option, none, some, List, [], ◌∷◌, ◌++◌, if◌then◌else◌, Bytes, codes, map,
  to_lower, is_some,
}
use npupnp.HttpUtils.Headers.{find_header, put_header}
use npupnp.HttpUtils.Methods.{
  HttpMethod, httpmethod_get, httpmethod_head, httpmethod_mpost, httpmethod_msearch,
  httpmethod_notify, httpmethod_post, httpmethod_subscribe, httpmethod_unsubscribe,
  httpmethod_unknown, soapmethod_post, lookup,
}
use npupnp.Uri.HostPort.{SockAddr}

-- `MHDTransaction`, less the response.
pub record Request : Type 0 where
  pub method : HttpMethod
  pub url : Bytes
  pub headers : List (Bytes × Bytes)
  pub query_values : List (Bytes × Bytes)
  pub postdata : Bytes
  pub client_address : SockAddr

-- A field whose name is there is added behind a comma. `stringtolower` is ASCII's.
unfoldable pub headers_cb : Bytes → Bytes → List (Bytes × Bytes) → List (Bytes × Bytes)
unfolding find_header to_lower
headers_cb k value headers =
    let key : Bytes = map to_lower k in
    elim (find_header key headers) [
      | some before ↦ put_header key (before ++ codes "," ++ value) headers
      | none ↦ put_header key value headers
    ]

-- `MHD_get_connection_values` with this callback: all fields in order.
unfoldable pub collect : List (Bytes × Bytes) → List (Bytes × Bytes) → List (Bytes × Bytes)
unfolding headers_cb
collect [] headers = headers
collect ((k, value) ∷ fields) headers = collect fields (headers_cb k value headers)

-- The same with `queryvalues_cb`: a later value replaces an earlier one.
unfoldable pub collect_query : List (Bytes × Bytes) → List (Bytes × Bytes) → List (Bytes × Bytes)
collect_query [] values = values
collect_query ((key, value) ∷ fields) values = collect_query fields (put_header key value values)

abbrev strmethtometh : List (Bytes × HttpMethod)
strmethtometh =
    (codes "get", httpmethod_get)
    ∷ (codes "head", httpmethod_head)
    ∷ (codes "m-post", httpmethod_mpost)
    ∷ (codes "m-search", httpmethod_msearch)
    ∷ (codes "notify", httpmethod_notify)
    ∷ (codes "post", httpmethod_post)
    ∷ (codes "subscribe", httpmethod_subscribe)
    ∷ (codes "unsubscribe", httpmethod_unsubscribe)
    ∷ []

-- A POST with a SOAPACTION header is a SOAP request.
abbrev pub method_with : HttpMethod → Bool → HttpMethod
method_with httpmethod_post true = soapmethod_post
method_with m soapaction = m

unfoldable pub request_method : Bytes → List (Bytes × Bytes) → HttpMethod
unfolding lookup find_header to_lower
request_method method headers = elim (lookup (map to_lower method) strmethtometh) [
  | none ↦ httpmethod_unknown
  | some m ↦ method_with m (is_some (find_header (codes "soapaction") headers))
]
