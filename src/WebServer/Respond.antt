-- ===== src/WebServer/Respond.antt =====
-- `web_server_callback` of webserver.cpp: the response that is made of what `process_request`
-- gives. Opening files, the callbacks of the virtual directories and `get_sdk_device_info` are
-- arguments; a failing `seek` is only logged.
use npupnp.Common.{
  ℕ, Bool, List, [], ◌∷◌, ◌++◌, if◌then◌else◌, Bytes, codes, equal_nocase, show_ℤ, find_if, ℤ, pos,
  negsuc, minus_one, ◌+ℤ◌, is_some,
}
use npupnp.HttpUtils.Urls.{status_body}
use npupnp.WebServer.{WebServer}
use npupnp.WebServer.Plan.{
  Transaction, Plan, Processed, fails, plans, SendInstruction, process_request,
}
use npupnp.WebServer.Sources.{Host, RespType, resp_filedoc, resp_webdoc, resp_xmldoc}

-- Where the data comes from: a file or an open virtual file (if it could be opened), from an
-- offset with a size (-1 is all), or text.
pub data Body : Type 0 where
  of_file : Bytes → ℕ → ℤ → Body
  of_virtual : Bool → Bytes → ℕ → ℤ → Body
  of_text : Bytes → Body

pub record Response : Type 0 where
  pub httpstatus : ℕ
  pub body : Body
  pub headers : List (Bytes × Bytes)

-- `open` of a file by name; `open` of a virtual file by its name and the two cookies.
pub record Opener : Type 0 where
  pub open_file : Bytes → Bool
  pub open_virtual : Bytes → ℕ → ℕ → Bool
  pub sdk_device_info : Bytes

abbrev bounded : ℤ → ℤ
bounded (negsuc n) = minus_one
bounded (pos n) = pos n

unfoldable pub content_range : SendInstruction → Bytes
unfolding show_ℤ
content_range i =
    codes "bytes "
    ++ show_ℤ (pos i.offset)
    ++ codes "-"
    ++ show_ℤ (pos i.offset +ℤ bounded i.read_send_size +ℤ minus_one)
    ++ codes "/"
    ++ show_ℤ i.total_size

abbrev pub status_response : ℕ → Response
status_response code = record {
  httpstatus = code;
  body = of_text (status_body code);
  headers = (codes "Content-Type", codes "text/html") ∷ [];
}

-- By the type of the source. A virtual file that could not be opened is answered as if it were.
unfoldable pub response_of : Opener → Plan → RespType → Response
unfolding content_range
response_of o p resp_filedoc =
    if o.open_file p.filename
    then record {
      httpstatus = 200;
      body = of_file p.filename p.instruction.offset (bounded p.instruction.read_send_size);
      headers = [];
    }
    else status_response 403
response_of o p resp_webdoc = record {
  httpstatus = if p.instruction.is_partial then 206 else 200;
  body =
      of_virtual (o.open_virtual p.filename p.instruction.cookie p.instruction.request_cookie)
        p.filename p.instruction.offset (bounded p.instruction.read_send_size);
  headers =
      if p.instruction.is_partial
      then (codes "Content-Range", content_range p.instruction) ∷ []
      else [];
}
response_of o p resp_xmldoc = record {
  httpstatus = 200;
  body = of_text p.instruction.content;
  headers = [];
}

-- The server's name, unless there is one, and that ranges are accepted.
unfoldable pub last_headers : Opener → List (Bytes × Bytes) → List (Bytes × Bytes)
unfolding equal_nocase
last_headers o headers =
    let named : Bool =
      is_some (find_if (λ (name, val). equal_nocase (codes "server") name) headers) in
    headers
    ++ ((if named then [] else (codes "SERVER", o.sdk_device_info) ∷ [])
        ++ ((codes "Accept-Ranges", codes "bytes") ∷ []))

abbrev pub with_headers : Opener → List (Bytes × Bytes) → Response → Response
with_headers o headers r = record r { headers = r.headers ++ last_headers o headers }

abbrev pub answered : Opener → Processed → Response
answered o (fails code) = with_headers o [] (status_response code)
answered o (plans p) = with_headers o p.headers (response_of o p p.rtype)

unfoldable pub web_server_callback : Opener → Host → WebServer → ℕ → Transaction → Response
unfolding process_request response_of last_headers
web_server_callback o host w now t = answered o (process_request host w now t)
