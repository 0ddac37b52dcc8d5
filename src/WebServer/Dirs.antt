-- ===== src/WebServer/Dirs.antt =====
-- The list of virtual directories as a table by path.
use npupnp.Common.{
  ℕ, ◌≡◌, refl, false, Option, none, some, List, [], ◌∷◌, if◌then◌else◌, Bytes, equal, equal_iff,
  equal_refl, null, arith,
}
use npupnp.WebServer.{
  VirtualDir, WebServer, put_dir, dir_path, web_server_add_virtual_dir, erase_dir,
  web_server_remove_virtual_dir, upnp_e_success,
}

-- The cookie that a path is entered with.
abbrev pub cookie_at : Bytes → List VirtualDir → Option ℕ
cookie_at path [] = none
cookie_at path (d ∷ ds) =
    let rest = cookie_at path ds in if equal d.path path then some d.cookie else rest

abbrev updated : Bytes → Bytes → ℕ → Option ℕ → Option ℕ
updated entered path cookie before = if equal entered path then some cookie else before

cookie_at-put_dir :
    (entry : VirtualDir) (ds : List VirtualDir) (path : Bytes)
    → cookie_at path (put_dir entry ds) ≡ updated entry.path path entry.cookie (cookie_at path ds)
unfolding put_dir
cookie_at-put_dir entry [] path = refl
cookie_at-put_dir entry (d ∷ ds) path = ground (
  arith,
  cookie_at-put_dir entry ds path,
  equal_iff entry.path d.path,
  equal_iff d.path path,
  equal_iff entry.path path,
)

-- Adding a directory whose name is not empty enters the cookie for its path with slashes, in
-- place of any cookie there, and leaves the other paths as they were.
pub web_server_add_virtual_dir-cookie_at :
    (dirname : Bytes) (cookie : ℕ) (w : WebServer) (path : Bytes)
    → null dirname ≡ false
    → cookie_at path (web_server_add_virtual_dir dirname cookie w).0.virtual_dir_list
      ≡ updated (dir_path dirname) path cookie (cookie_at path w.virtual_dir_list)
unfolding web_server_add_virtual_dir
web_server_add_virtual_dir-cookie_at dirname cookie w path h = rw (h) (
    cookie_at-put_dir (record { path = dir_path dirname; cookie = cookie }) w.virtual_dir_list path)

erase_dir-put_dir :
    (entry : VirtualDir) (ds : List VirtualDir)
    → cookie_at entry.path ds ≡ none
    → erase_dir entry.path (put_dir entry ds) ≡ some ds
unfolding put_dir erase_dir
erase_dir-put_dir entry [] h = rw (equal_refl entry.path) refl
erase_dir-put_dir entry (d ∷ ds) h =
    ground
      (arith, erase_dir-put_dir entry ds, equal_iff entry.path d.path, equal_iff d.path entry.path)

-- Removing a directory that was added under a path that had none, by the path with its slashes,
-- succeeds and gives the list before.
pub web_server_remove_virtual_dir-add :
    (dirname : Bytes) (cookie : ℕ) (w : WebServer)
    → null dirname ≡ false
    → cookie_at (dir_path dirname) w.virtual_dir_list ≡ none
    → web_server_remove_virtual_dir
        (dir_path dirname)
        (web_server_add_virtual_dir dirname cookie w).0
      ≡ (w, upnp_e_success)
unfolding web_server_add_virtual_dir web_server_remove_virtual_dir
web_server_remove_virtual_dir-add dirname cookie w h k = ground (
  arith,
  erase_dir-put_dir (record { path = dir_path dirname; cookie = cookie }) w.virtual_dir_list k,
)
