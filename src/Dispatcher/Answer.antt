-- ===== src/Dispatcher/Answer.antt =====
-- `answer_to_connection` of miniserver.cpp: the first call for a request, the calls for the pieces
-- of its body, and the last one.
use npupnp.Common.{true, Option, none, some, List, [], ◌∷◌, ◌++◌, if◌then◌else◌, Bytes, null}
use npupnp.Uri.HostPort.{SockAddr}
use npupnp.HttpUtils.Methods.{
  HttpMethod, httpmethod_get, httpmethod_head, httpmethod_mpost, httpmethod_notify, httpmethod_post,
  httpmethod_subscribe, httpmethod_unsubscribe, soapmethod_post,
}
use npupnp.NetIf.{ip_of_sockaddr}
use npupnp.Dispatcher.{Request, collect, collect_query, request_method}
use npupnp.Dispatcher.Hosts.{
  Setup, VhhStatus, vhh_yes, vhh_no, vhh_redirect, validate_host_header, rebuild_url_from_mhdt,
}

-- What the library hands over on the first call.
pub record Opening : Type 0 where
  pub fields : List (Bytes × Bytes)
  pub arguments : List (Bytes × Bytes)
  pub url : Bytes
  pub method : Bytes
  pub client : SockAddr

-- What the first call ends in: the request goes on, the connection is closed, or a redirection to
-- an URL is sent.
pub data Opened : Type 0 where
  proceeds : Request → Opened
  closes : Opened
  redirects : Bytes → Opened

unfoldable pub new_request : Opening → Request
unfolding collect collect_query request_method
new_request o = record {
  method = request_method o.method (collect o.fields []);
  url = o.url;
  headers = collect o.fields [];
  query_values = collect_query o.arguments [];
  postdata = [];
  client_address = o.client;
}

abbrev pub redirected : Bytes → Opened
redirected aurl = if null aurl then closes else redirects aurl

abbrev pub opened : Setup → Request → VhhStatus → Opened
opened s t vhh_yes = proceeds t
opened s t vhh_no = closes
opened s t vhh_redirect = redirected (rebuild_url_from_mhdt s t t.url)

unfoldable pub answer_first : Setup → Opening → Opened
unfolding new_request validate_host_header ip_of_sockaddr
answer_first s o =
    let t : Request = new_request o in
    if s.no_host_validate
    then proceeds t
    else opened s t (validate_host_header s t (ip_of_sockaddr t.client_address true))

-- A piece of the body, which is not empty.
abbrev pub answer_upload : Bytes → Request → Request
answer_upload upload t = record t { postdata = t.postdata ++ upload }

unfoldable pub upload_all : List Bytes → Request → Request
upload_all [] t = t
upload_all (piece ∷ pieces) t = upload_all pieces (answer_upload piece t)

pub data Service : Type 0 where
  soap_service gena_service web_service : Service

-- The service for a method; `none` closes the connection.
unfoldable pub service_for : HttpMethod → Option Service
service_for soapmethod_post = some soap_service
service_for httpmethod_mpost = some soap_service
service_for httpmethod_notify = some gena_service
service_for httpmethod_subscribe = some gena_service
service_for httpmethod_unsubscribe = some gena_service
service_for httpmethod_get = some web_service
service_for httpmethod_post = some web_service
service_for httpmethod_head = some web_service
service_for _ = none

-- The callbacks, which give the response, if any, and change a state.
pub record Callbacks (S R : Type 0) : Type 0 where
  pub soap : Option (Request → S → S × Option R)
  pub gena : Option (Request → S → S × Option R)
  pub get : Option (Request → S → S × Option R)

module _ {S R : Type 0} where
  abbrev pub callback_for : Callbacks S R → Option Service → Option (Request → S → S × Option R)
  callback_for c none = none
  callback_for c (some soap_service) = c.soap
  callback_for c (some gena_service) = c.gena
  callback_for c (some web_service) = c.get

  abbrev pub called : Option (Request → S → S × Option R) → Request → S → S × Option R
  called none t st = (st, none)
  called (some callback) t st = callback t st

  -- The last call: `none` for a response closes the connection.
  unfoldable pub answer_last : Callbacks S R → Request → S → S × Option R
  unfolding service_for
  answer_last c t st = called (callback_for c (service_for t.method)) t st

  -- The calls for one request: the pieces of the body follow the first, unless it ended there.
  abbrev pub answer_opened : Callbacks S R → List Bytes → Opened → S → S × Option R
  answer_opened c pieces (proceeds t) st = answer_last c (upload_all pieces t) st
  answer_opened c pieces closes st = (st, none)
  answer_opened c pieces (redirects aurl) st = (st, none)

  unfoldable pub answer_to_connection :
      Setup → Callbacks S R → Opening → List Bytes → S → S × Option R
  unfolding answer_first answer_last upload_all
  answer_to_connection s c o pieces st = answer_opened c pieces (answer_first s o) st
