-- ===== src/WebServer/Paths/Root.antt =====
-- The files that `process_request` names, and the document root.
use npupnp.Common.{
  ℕ, ◌≡◌, subst, Bool, true, false, Option, none, some, List, ◌++◌, ◌==◌, if◌then◌else◌, Bytes,
  first_or, last_or, null, ℤ, Bool-cases, inl, inr, Option-cases,
}
use npupnp.WebServer.Plan.{
  Plan, Processed, plans, fails, planned, process_doc, process_request, is_post, Transaction,
  requested_range,
}
use npupnp.WebServer.Sources.{
  strip_slashes, request_doc, file_search, file_index, index_name, Search, found, refused, RespType,
  resp_filedoc, resp_webdoc, resp_xmldoc, FileInfo, Host, get_file_info, indexed, sought_file,
  virtual_indexed, virtual_sought, served_doc, virtual_search, virtual_index, source_of,
}
use npupnp.HttpUtils.Methods.{HttpMethod}
use npupnp.WebServer.{WebServer, VirtualDir, LocalDoc, is_file_in_virtual_dir, find_doc}
use npupnp.Uri.Escape.{remove_escaped_chars}
use npupnp.WebServer.Paths.Joined.{lacks}
use npupnp.WebServer.Paths.Rebuilt.{IsUnder, request_doc-IsUnder, index_name-IsUnder}

-- What a search that finds a file of the file system says of its name.
abbrev FoundUnder : Bytes → Search → Type 0
FoundUnder root (refused code) = Unit
FoundUnder root (found resp_filedoc (name, info, cookie)) = IsUnder root name
FoundUnder root (found resp_webdoc sought) = Unit
FoundUnder root (found resp_xmldoc sought) = Unit

choice-FoundUnder :
    (root : Bytes) (b : Bool) (x y : Search)
    → FoundUnder root x
    → FoundUnder root y
    → FoundUnder root (if b then x else y)
choice-FoundUnder root true x y h k = h
choice-FoundUnder root false x y h k = k

indexed-FoundUnder :
    (root name : Bytes) (info : Option FileInfo)
    → IsUnder root name
    → FoundUnder root (indexed name info)
indexed-FoundUnder root name none h = tt
indexed-FoundUnder root name (some info) h =
    choice-FoundUnder root info.is_directory _ _ tt
      (choice-FoundUnder root info.is_readable _ _ h tt)

sought_file-FoundUnder :
    (host : Host) (root name : Bytes) (info : Option FileInfo)
    → (last_or 0 root == b'/') ≡ false
    → IsUnder root name
    → FoundUnder root (sought_file host name info)
unfolding file_index
sought_file-FoundUnder host root name none k h = tt
sought_file-FoundUnder host root name (some info) k h =
    choice-FoundUnder root info.is_directory _ _
      (indexed-FoundUnder root (index_name name) (get_file_info host (index_name name))
        (index_name-IsUnder root name k h))
      (choice-FoundUnder root info.is_readable _ _ h tt)

virtual_indexed-FoundUnder :
    (root name : Bytes) (info : Option (FileInfo × ℕ)) → FoundUnder root (virtual_indexed name info)
virtual_indexed-FoundUnder root name none = tt
virtual_indexed-FoundUnder root name (some (info, c)) =
    choice-FoundUnder root info.is_directory _ _ tt
      (choice-FoundUnder root info.is_readable _ _ tt tt)

virtual_sought-FoundUnder :
    (host : Host) (root name qs : Bytes) (cookie : ℕ) (info : Option (FileInfo × ℕ))
    → FoundUnder root (virtual_sought host name qs cookie info)
unfolding virtual_index
virtual_sought-FoundUnder host root name qs cookie none = tt
virtual_sought-FoundUnder host root name qs cookie (some (info, c)) =
    choice-FoundUnder root info.is_directory _ _ (virtual_indexed-FoundUnder root _ _)
      (choice-FoundUnder root info.is_readable _ _ tt tt)

-- Whatever source a path has, a file of the file system has the path's name under the root.
source_of-FoundUnder :
    (host : Host) (w : WebServer) (doc : Bytes) (dir : Option VirtualDir)
    (localdoc : Option LocalDoc) (query : List (Bytes × Bytes))
    → (last_or 0 w.document_root_dir == b'/') ≡ false
    → IsUnder w.document_root_dir (strip_slashes (w.document_root_dir ++ doc))
    → FoundUnder w.document_root_dir (source_of host w doc dir localdoc query)
unfolding source_of virtual_search file_search
source_of-FoundUnder host w doc (some dir) localdoc query k h =
    virtual_sought-FoundUnder host w.document_root_dir doc _ dir.cookie _
source_of-FoundUnder host w doc none (some d) query k h = tt
source_of-FoundUnder host w doc none none query k h =
    choice-FoundUnder w.document_root_dir (null w.document_root_dir) _ _ tt
      (sought_file-FoundUnder host w.document_root_dir _ _ k h)

-- What an answer says of the name of a file of the file system.
abbrev AnswerUnder : Bytes → RespType → Bytes → Type 0
AnswerUnder root resp_filedoc name = IsUnder root name
AnswerUnder root resp_webdoc name = Unit
AnswerUnder root resp_xmldoc name = Unit

abbrev PlanUnder : Bytes → Processed → Type 0
PlanUnder root (fails code) = Unit
PlanUnder root (plans plan) = AnswerUnder root plan.rtype plan.filename

planned-PlanUnder :
    (host : Host) (w : WebServer) (now : ℕ) (method : HttpMethod) (range : ℕ × ℤ × Bool)
    (dir : Option VirtualDir) (doc : Option LocalDoc) (root : Bytes) (s : Search)
    → FoundUnder root s
    → PlanUnder root (planned host w now method range dir doc s)
planned-PlanUnder host w now method range dir doc root (refused code) h = tt
planned-PlanUnder host w now method range dir doc root (found resp_filedoc sought) h = h
planned-PlanUnder host w now method range dir doc root (found resp_webdoc sought) h = tt
planned-PlanUnder host w now method range dir doc root (found resp_xmldoc sought) h = tt

process_doc-PlanUnder :
    (host : Host) (w : WebServer) (now : ℕ) (t : Transaction) (range : ℕ × ℤ × Bool) (doc : Bytes)
    → (last_or 0 w.document_root_dir == b'/') ≡ false
    → ((first_or 0 doc == b'/') ≡ true
        → IsUnder w.document_root_dir (strip_slashes (w.document_root_dir ++ doc)))
    → PlanUnder w.document_root_dir (process_doc host w now t range doc)
unfolding process_doc
process_doc-PlanUnder host w now t range doc k h =
    let dir = is_file_in_virtual_dir doc w.virtual_dir_list in
    let localdoc = served_doc dir (find_doc doc w.local_docs) in
    elim (Bool-cases (null doc)) [
      | inl empty ↦ rw (empty) tt
      | inr some_text ↦ rw (some_text) (elim (Bool-cases (first_or 0 doc == b'/')) [
        | inl first ↦ rw (first) (
            planned-PlanUnder host w now t.method range dir localdoc w.document_root_dir
              (source_of host w doc dir localdoc t.query_values)
              (source_of-FoundUnder host w doc dir localdoc t.query_values k (h first)))
        | inr other ↦ rw (other) tt
      ])
    ]

process_request-PlanUnder :
    (host : Host) (w : WebServer) (now : ℕ) (t : Transaction)
    → lacks b'?' (remove_escaped_chars t.url) ≡ true
    → (last_or 0 w.document_root_dir == b'/') ≡ false
    → PlanUnder w.document_root_dir (process_request host w now t)
unfolding process_request
process_request-PlanUnder host w now t h k = elim (Bool-cases (is_post t.method)) [
  | inl post ↦ rw (post) tt
  | inr get ↦ rw (get) (elim (Option-cases (requested_range host t.headers)) [
    | inl bad ↦ rw (bad) tt
    | inr (range, good) ↦ rw (good) (elim (Option-cases (request_doc t.url)) [
      | inl nothing ↦ rw (nothing) tt
      | inr (doc, eq) ↦ rw (eq) (
          process_doc-PlanUnder host w now t range doc k
            (λ first. request_doc-IsUnder w.document_root_dir t.url doc h k eq first))
    ])
  ])
]

-- Where the unescaped path of a request has no question mark and the document root does not end
-- in a slash, a request that is answered with a file of the file system is answered with a file
-- whose name is the document root and path elements behind it, none of which is empty, `.` or
-- `..` or has a slash in it.
pub process_request-IsUnder :
    (host : Host) (w : WebServer) (now : ℕ) (t : Transaction) (plan : Plan)
    → lacks b'?' (remove_escaped_chars t.url) ≡ true
    → (last_or 0 w.document_root_dir == b'/') ≡ false
    → process_request host w now t ≡ plans plan
    → plan.rtype ≡ resp_filedoc
    → IsUnder w.document_root_dir plan.filename
process_request-IsUnder host w now t plan h k eq file =
    subst (λ r. AnswerUnder w.document_root_dir r plan.filename) file
      (subst (PlanUnder w.document_root_dir) eq (process_request-PlanUnder host w now t h k))
