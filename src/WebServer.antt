-- ===== src/WebServer.antt =====
-- src/webserver/webserver.cpp: the virtual directories, the local documents, and the answer to a
-- request of the web server. Cookies are numbers.
pub mod MediaTypes
pub mod Sources
pub mod Plan
pub mod Respond
pub mod Dirs
pub mod Ranges
pub mod Paths
use npupnp.Common.{
  ℕ, zero, suc, ◌-◌, Bool, true, false, not, ◌&&◌, ◌||◌, Option, none, some, List, [], ◌∷◌, ◌++◌,
  ◌==◌, if◌then◌else◌, Bytes, equal, first_or, last_or, null, starts_with, length, find_if,
  pop_back, ℤ, pos, negsuc,
}

pub record VirtualDir : Type 0 where
  pub path : Bytes
  pub cookie : ℕ

pub record LocalDoc : Type 0 where
  pub content : Bytes
  pub last_modified : ℕ

-- The module's variables.
pub record WebServer : Type 0 where
  pub document_root_dir : Bytes
  pub cors_string : Bytes
  pub local_docs : List (Bytes × LocalDoc)
  pub virtual_dir_list : List VirtualDir

abbrev pub upnp_e_success : ℤ
upnp_e_success = pos 0

-- `UPNP_E_INVALID_PARAM`.
abbrev pub upnp_e_invalid_param : ℤ
upnp_e_invalid_param = negsuc 100

unfoldable pub web_server_set_root_dir : Bytes → WebServer → WebServer
unfolding pop_back
web_server_set_root_dir root_dir w = record w {
  document_root_dir =
      if not (null root_dir) && last_or 0 root_dir == b'/' then pop_back root_dir else root_dir;
}

pub web_server_set_cors : Bytes → WebServer → WebServer
web_server_set_cors cors w = record w { cors_string = cors }

-- A path that a directory is kept under: with a slash at both ends.
unfoldable pub dir_path : Bytes → Bytes
dir_path dirname =
    let path : Bytes = if first_or 0 dirname == b'/' then dirname else b'/' ∷ dirname in
    if last_or 0 path == b'/' then path else path ++ (b'/' ∷ [])

-- The entry with this path is overwritten, or a new one put at the end.
unfoldable pub put_dir : VirtualDir → List VirtualDir → List VirtualDir
unfolding equal
put_dir entry [] = entry ∷ []
put_dir entry (d ∷ ds) =
    let rest = put_dir entry ds in if equal entry.path d.path then entry ∷ ds else d ∷ rest

-- The code, and the cookie that is overwritten, if any.
unfoldable pub web_server_add_virtual_dir : Bytes → ℕ → WebServer → WebServer × ℤ × Option ℕ
unfolding put_dir dir_path
web_server_add_virtual_dir dirname cookie w =
    if null dirname
    then (w, upnp_e_invalid_param, none)
    else let entry : VirtualDir = record { path = dir_path dirname; cookie = cookie } in
      (
        record w { virtual_dir_list = put_dir entry w.virtual_dir_list },
        upnp_e_success,
        elim (find_if (λ d. equal entry.path d.path) w.virtual_dir_list) [
          | none ↦ none
          | some old ↦ some old.cookie
        ],
      )

-- The first entry with this path is taken out; `none` if there is none.
unfoldable pub erase_dir : Bytes → List VirtualDir → Option (List VirtualDir)
unfolding equal
erase_dir dirname [] = none
erase_dir dirname (d ∷ ds) =
    let rest = erase_dir dirname ds in
    if equal d.path dirname
    then some ds
    else elim rest [ none ↦ none | some left ↦ some (d ∷ left) ]

-- The name has to be written as it is kept, with its slashes.
unfoldable pub web_server_remove_virtual_dir : Bytes → WebServer → WebServer × ℤ
unfolding erase_dir
web_server_remove_virtual_dir dirname w = elim (erase_dir dirname w.virtual_dir_list) [
  | none ↦ (w, upnp_e_invalid_param)
  | some left ↦ (record w { virtual_dir_list = left }, upnp_e_success)
]

pub web_server_clear_virtual_dirs : WebServer → WebServer
web_server_clear_virtual_dirs w = record w { virtual_dir_list = [] }

-- The first entry that the path begins with.
unfoldable pub is_file_in_virtual_dir : Bytes → List VirtualDir → Option VirtualDir
unfolding starts_with
is_file_in_virtual_dir path dirs = find_if (λ d. starts_with d.path path) dirs

unfoldable pub find_doc : Bytes → List (Bytes × LocalDoc) → Option LocalDoc
unfolding equal
find_doc path [] = none
find_doc path ((p, doc) ∷ more) = if equal p path then some doc else find_doc path more

unfoldable pub erase_doc : Bytes → List (Bytes × LocalDoc) → List (Bytes × LocalDoc)
unfolding equal
erase_doc path [] = []
erase_doc path ((p, doc) ∷ more) =
    let rest = erase_doc path more in if equal p path then rest else (p, doc) ∷ rest

-- `localDocs[path] = doc`.
unfoldable pub web_server_set_localdoc : Bytes → LocalDoc → WebServer → WebServer × ℤ
unfolding erase_doc
web_server_set_localdoc path doc w =
    if null path || not (first_or 0 path == b'/')
    then (w, upnp_e_invalid_param)
    else (record w { local_docs = (path, doc) ∷ erase_doc path w.local_docs }, upnp_e_success)

unfoldable pub web_server_unset_localdoc : Bytes → WebServer → WebServer × ℤ
unfolding erase_doc
web_server_unset_localdoc path w =
    (record w { local_docs = erase_doc path w.local_docs }, upnp_e_success)
