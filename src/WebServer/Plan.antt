-- ===== src/WebServer/Plan.antt =====
-- `process_request` of webserver.cpp: from a request to the source and the range of the data, and
-- the headers.
use npupnp.Common.{
  ℕ, ◌+◌, ◌-◌, Bool, true, false, not, Option, none, some, List, [], ◌∷◌, ◌==◌, ltb, if◌then◌else◌,
  Bytes, codes, first_or, null, ℤ, pos, negsuc, sub_ℕ, ltb_ℤ, minus_one,
}
use npupnp.HttpUtils.Headers.{find_header, put_header, insert_headers}
use npupnp.HttpUtils.Methods.{HttpMethod, httpmethod_post, httpmethod_simpleget}
use npupnp.WebServer.{WebServer, VirtualDir, LocalDoc, is_file_in_virtual_dir, find_doc}
use npupnp.WebServer.Sources.{
  FileInfo, Host, RespType, http_forbidden, Sought, Search, served_doc, source_of, request_doc,
  resp_xmldoc, refused, found,
}

-- What the handlers read of `MHDTransaction`.
pub record Transaction : Type 0 where
  pub method : HttpMethod
  pub url : Bytes
  pub headers : List (Bytes × Bytes)
  pub query_values : List (Bytes × Bytes)

-- `struct SendInstruction`.
pub record SendInstruction : Type 0 where
  pub offset : ℕ
  pub read_send_size : ℤ
  pub is_partial : Bool
  pub total_size : ℤ
  pub cookie : ℕ
  pub content : Bytes
  pub request_cookie : ℕ

abbrev pub no_instruction : SendInstruction
no_instruction = record {
  offset = 0;
  read_send_size = minus_one;
  is_partial = false;
  total_size = pos 0;
  cookie = 0;
  content = [];
  request_cookie = 0;
}

-- The output arguments of `process_request`.
pub record Plan : Type 0 where
  pub rtype : RespType
  pub headers : List (Bytes × Bytes)
  pub filename : Bytes
  pub instruction : SendInstruction

-- A status other than 200, or the plan of an answer.
pub data Processed : Type 0 where
  fails : ℕ → Processed
  plans : Plan → Processed

abbrev pub http_range_not_satisfiable : ℕ
http_range_not_satisfiable = 416

-- The range asked for: offset and size, -1 for an open end. `none` is an unsatisfiable range. In
-- what `parse_http_ranges` returns, `none` is an absent number.
unfoldable pub requested_range : Host → List (Bytes × Bytes) → Option (ℕ × ℤ × Bool)
requested_range host headers = elim (find_header (codes "range") headers) [
  | none ↦ some (0, minus_one, false)
  | some value ↦ elim (host.parse_http_ranges value) [
    | none ↦ some (0, minus_one, false)
    | some [] ↦ some (0, minus_one, false)
    | some ((none, last) ∷ more) ↦ none
    | some ((some first, none) ∷ []) ↦ some (first, minus_one, ltb 0 first)
    | some ((some first, some last) ∷ []) ↦ some (first, pos (last + 1 - first), true)
    | some ((some first, last) ∷ next ∷ more) ↦ none
  ]
]

abbrev pub minus : ℤ → ℕ → ℤ
minus (pos total) offset = sub_ℕ total offset
minus (negsuc n) offset = negsuc (n + offset)

-- The size of the data that is sent, from the end of the range or of the file.
unfoldable pub sized : FileInfo → ℕ → ℤ → ℤ
sized info offset (negsuc n) = minus info.file_length offset
sized info offset (pos size) =
    if ltb_ℤ info.file_length (pos (offset + size)) then minus info.file_length offset else pos size

abbrev put_if : Bool → Bytes → Bytes → List (Bytes × Bytes) → List (Bytes × Bytes)
put_if true name value headers = put_header name value headers
put_if false name value headers = headers

-- `WEB_SERVER_CONTENT_LANGUAGE` is empty, so there is no content-language; `now` is the date.
unfoldable pub answer_headers : Host → WebServer → ℕ → HttpMethod → FileInfo → List (Bytes × Bytes)
answer_headers host w now httpmethod_simpleget info = []
answer_headers host w now _ info = put_header (codes "x-user-agent") (codes "redsonic") (
    put_if (ltb 0 info.last_modified) (codes "last-modified")
      (host.make_date_string info.last_modified)
      (put_if (not (null (host.make_date_string now))) (codes "date") (host.make_date_string now) (
        put_if (not (null w.cors_string)) (codes "Access-Control-Allow-Origin") w.cors_string (
          put_if (not (null info.content_type)) (codes "content-type") info.content_type
            (insert_headers info.response_headers [])))))

abbrev dir_cookie : Option VirtualDir → ℕ
dir_cookie none = 0
dir_cookie (some dir) = dir.cookie

abbrev doc_data : RespType → Option LocalDoc → Bytes
doc_data resp_xmldoc (some d) = d.content
doc_data _ _ = []

abbrev pub plan_of :
    Host
    → WebServer
    → ℕ
    → HttpMethod
    → ℕ × ℤ × Bool
    → Option VirtualDir
    → Option LocalDoc
    → RespType
    → Sought
    → Plan
plan_of host w now method (offset, size, partial) dir doc t (name, info, request_cookie) = record {
  rtype = t;
  headers = answer_headers host w now method info;
  filename = name;
  instruction = record {
    offset = offset;
    read_send_size = sized info offset size;
    is_partial = partial;
    total_size = info.file_length;
    cookie = dir_cookie dir;
    content = doc_data t doc;
    request_cookie = request_cookie;
  };
}

abbrev pub planned :
    Host
    → WebServer
    → ℕ
    → HttpMethod
    → ℕ × ℤ × Bool
    → Option VirtualDir
    → Option LocalDoc
    → Search
    → Processed
planned host w now method range dir doc (refused code) = fails code
planned host w now method range dir doc (found t sought) =
    plans (plan_of host w now method range dir doc t sought)

-- With the virtual directory of the path, if any, or else its local document.
abbrev pub process_source :
    Host
    → WebServer
    → ℕ
    → Transaction
    → ℕ × ℤ × Bool
    → Bytes
    → Option VirtualDir
    → Option LocalDoc
    → Processed
process_source host w now t range doc dir local =
    planned host w now t.method range dir local (source_of host w doc dir local t.query_values)

unfoldable pub process_doc : Host → WebServer → ℕ → Transaction → ℕ × ℤ × Bool → Bytes → Processed
process_doc host w now t range doc =
    let dir = is_file_in_virtual_dir doc w.virtual_dir_list in
    if null doc
    then fails http_forbidden
    else if not (first_or 0 doc == b'/')
    then fails 400
    else process_source host w now t range doc dir (served_doc dir (find_doc doc w.local_docs))

abbrev pub is_post : HttpMethod → Bool
is_post httpmethod_post = true
is_post _ = false

-- With the path of the request, if any is left.
abbrev pub process_path :
    Host → WebServer → ℕ → Transaction → ℕ × ℤ × Bool → Option Bytes → Processed
process_path host w now t range none = fails http_forbidden
process_path host w now t range (some doc) = process_doc host w now t range doc

abbrev pub process_range : Host → WebServer → ℕ → Transaction → Option (ℕ × ℤ × Bool) → Processed
process_range host w now t none = fails http_range_not_satisfiable
process_range host w now t (some range) = process_path host w now t range (request_doc t.url)

unfoldable pub process_request : Host → WebServer → ℕ → Transaction → Processed
unfolding requested_range
process_request host w now t =
    if is_post t.method
    then fails http_forbidden
    else process_range host w now t (requested_range host t.headers)
