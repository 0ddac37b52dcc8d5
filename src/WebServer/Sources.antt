-- ===== src/WebServer/Sources.antt =====
-- The search of `process_request` for what a path names: a local document, a file of a virtual
-- directory or a file under the document root. `stat` with `fopen`, the callbacks of the virtual
-- directories, `parseHTTPRanges` and `make_date_string` are arguments.
use npupnp.Common.{
  ℕ, Bool, true, false, ◌&&◌, Option, none, some, List, [], ◌∷◌, ◌++◌, ◌==◌, if◌then◌else◌, Bytes,
  codes, last_or, null, pop_back, length, ℤ, pos,
}
use npupnp.Uri.Escape.{remove_escaped_chars, query_pairs}
use npupnp.Uri.Dots.{remove_dots}
use npupnp.WebServer.{WebServer, VirtualDir, LocalDoc}
use npupnp.WebServer.MediaTypes.{get_content_type}

-- The part of `struct File_Info` that is read. A length below 0 is an unknown one.
pub record FileInfo : Type 0 where
  pub file_length : ℤ
  pub last_modified : ℕ
  pub is_directory : Bool
  pub is_readable : Bool
  pub content_type : Bytes
  pub response_headers : List (Bytes × Bytes)

-- What `stat` and `fopen` tell of a regular file or a directory; else `none`.
pub record Stat : Type 0 where
  pub size : ℕ
  pub mtime : ℕ
  pub directory : Bool
  pub readable : Bool

-- `get_info` is the callback of the virtual directories, which is given a path with its query and
-- the cookie of the directory: the file, and the cookie for this request.
pub record Host : Type 0 where
  pub stat : Bytes → Option Stat
  pub get_info : Bytes → ℕ → Option (FileInfo × ℕ)
  pub parse_http_ranges : Bytes → Option (List (Option ℕ × Option ℕ))
  pub make_date_string : ℕ → Bytes

pub data RespType : Type 0 where
  resp_filedoc resp_webdoc resp_xmldoc : RespType

abbrev pub http_forbidden : ℕ
http_forbidden = 403

-- The query is written again behind the path that the callback gets.
unfoldable pub query_string : List (Bytes × Bytes) → Bytes
unfolding query_pairs pop_back
query_string values = if null values then [] else pop_back (b'?' ∷ query_pairs values)

-- `get_file_info`.
unfoldable pub get_file_info : Host → Bytes → Option FileInfo
unfolding get_content_type
get_file_info host filename = elim (host.stat filename) [
  | none ↦ none
  | some s ↦ some (record {
    file_length = pos s.size;
    last_modified = s.mtime;
    is_directory = s.directory;
    is_readable = s.readable;
    content_type = get_content_type filename;
    response_headers = [];
  })
]

-- The name of the index of a directory.
unfoldable pub index_name : Bytes → Bytes
index_name name =
    name ++ (if last_or 0 name == b'/' then codes "index.html" else codes "/index.html")

unfoldable pub strip_slashes : Bytes → Bytes
strip_slashes [] = []
strip_slashes (c ∷ s) =
    let rest = strip_slashes s in if null rest && c == b'/' then [] else c ∷ rest

-- A file that was found, with its name and the request's cookie.
abbrev pub Sought : Type 0
Sought = Bytes × FileInfo × ℕ

-- What the steps of the search end in: a status, or the file.
pub data Search : Type 0 where
  refused : ℕ → Search
  found : RespType → Sought → Search

abbrev pub readable_only : RespType → Sought → Search
readable_only t (name, info, cookie) =
    if info.is_readable then found t (name, info, cookie) else refused http_forbidden

-- The index of a virtual directory, from what the callback says of it.
abbrev pub virtual_indexed : Bytes → Option (FileInfo × ℕ) → Search
virtual_indexed filename none = refused 404
virtual_indexed filename (some (info, request_cookie)) =
    if info.is_directory
    then refused 404
    else readable_only resp_webdoc (filename, info, request_cookie)

unfoldable pub virtual_index : Host → Bytes → Bytes → ℕ → Search
virtual_index host name qs cookie = virtual_indexed (name ++ qs) (host.get_info (name ++ qs) cookie)

-- What was asked for, from what the callback says of it.
abbrev pub virtual_sought : Host → Bytes → Bytes → ℕ → Option (FileInfo × ℕ) → Search
virtual_sought host name qs cookie none = refused 404
virtual_sought host name qs cookie (some (info, request_cookie)) =
    if info.is_directory
    then virtual_index host (index_name name) qs cookie
    else readable_only resp_webdoc (name ++ qs, info, request_cookie)

unfoldable pub virtual_search : Host → Bytes → Bytes → ℕ → Search
virtual_search host name qs cookie =
    virtual_sought host name qs cookie (host.get_info (name ++ qs) cookie)

-- The index of a directory, from its information.
abbrev pub indexed : Bytes → Option FileInfo → Search
indexed filename none = refused 404
indexed filename (some info) =
    if info.is_directory then refused 404 else readable_only resp_filedoc (filename, info, 0)

unfoldable pub file_index : Host → Bytes → Search
file_index host filename = indexed filename (get_file_info host filename)

-- What was asked for, from its information.
abbrev pub sought_file : Host → Bytes → Option FileInfo → Search
sought_file host filename none = refused 404
sought_file host filename (some info) =
    if info.is_directory
    then file_index host (index_name filename)
    else readable_only resp_filedoc (filename, info, 0)

unfoldable pub file_search : Host → Bytes → Search
file_search host filename = sought_file host filename (get_file_info host filename)

abbrev doc_info : LocalDoc → FileInfo
doc_info doc = record {
  file_length = pos (length doc.content);
  last_modified = doc.last_modified;
  is_directory = false;
  is_readable = true;
  content_type = codes "text/xml";
  response_headers = [];
}

-- The document of a path that is in no virtual directory; an empty one does not count.
abbrev pub served_doc : Option VirtualDir → Option LocalDoc → Option LocalDoc
served_doc (some dir) doc = none
served_doc none none = none
served_doc none (some doc) = if null doc.content then none else some doc

unfoldable pub source_of :
    Host → WebServer → Bytes → Option VirtualDir → Option LocalDoc → List (Bytes × Bytes) → Search
unfolding virtual_search file_search strip_slashes query_string
source_of host w doc (some dir) localdoc query =
    virtual_search host doc (query_string query) dir.cookie
source_of host w doc none (some d) query = found resp_xmldoc ([], doc_info d, 0)
source_of host w doc none none query =
    if null w.document_root_dir
    then refused http_forbidden
    else file_search host (strip_slashes (w.document_root_dir ++ doc))

-- The requested path: escapes and dot segments are removed.
unfoldable pub request_doc : Bytes → Option Bytes
request_doc url = remove_dots (remove_escaped_chars url)
