-- ===== src/WebServer/Paths/Rebuilt.antt =====
-- The names that a path without dot segments gives under the document root.
use npupnp.Common.{
  ℕ, ◌≡◌, refl, sym, subst, Bool, true, false, some, List, [], ◌∷◌, ◌++◌, ◌==◌, Bytes, codes,
  first_or, last_or, null, arith, append_assoc, All, pop_back,
}
use npupnp.Uri.Dots.{join, rebuild, remove_dots, ends_with_slash, push_element}
use npupnp.WebServer.Sources.{strip_slashes, request_doc, index_name}
use npupnp.Uri.Escape.{remove_escaped_chars}
use npupnp.Uri.Dots.Segments.{segments, remove_dots-segments}
use mathlib.Core.List.{foldl}
use npupnp.WebServer.Paths.Joined.{
  segments-LacksSlash, foldl-LacksSlash, All-IsElement, below, below-join, pop_back-slash,
  strip_slashes-slash, strip_slashes-id, IsElement, lacks,
}

first_or-append : (s t : Bytes) → null s ≡ false → first_or 0 (s ++ t) ≡ first_or 0 s
first_or-append [] t h = cc
first_or-append (c ∷ s) t h = refl

-- What the elements are joined to does not begin with a slash.
join-first :
    (v : List Bytes) (e t : Bytes)
    → All IsElement v
    → IsElement e
    → (first_or 0 (join v ++ (e ++ t)) == b'/') ≡ false
unfolding join
join-first [] [] t h k = absurd (k.0.0 refl)
join-first [] (c ∷ e) t h k = ground (arith, k)
join-first (x ∷ v) e t h k =
    rw (append_assoc (join v) (x ++ (b'/' ∷ [])) (e ++ t), append_assoc x (b'/' ∷ []) (e ++ t))
      (join-first v x ((b'/' ∷ []) ++ (e ++ t)) h.1 h.0)

first_or-pop_back : (s : Bytes) → null (pop_back s) ≡ false → first_or 0 (pop_back s) ≡ first_or 0 s
unfolding pop_back
first_or-pop_back [] h = refl
first_or-pop_back (c ∷ []) h = cc
first_or-pop_back (c ∷ d ∷ s) h = refl

rebuild-first :
    (isabs endslash : Bool) (v : List Bytes)
    → All IsElement v
    → (first_or 0 (rebuild isabs endslash v) == b'/') ≡ true
    → isabs ≡ true
unfolding rebuild join pop_back
rebuild-first true endslash v h k = refl
rebuild-first false endslash [] h k = ground arith
rebuild-first false endslash (x ∷ v) h k =
    ground
      (arith, join-first v x (b'/' ∷ []) h.1 h.0, first_or-pop_back (join v ++ (x ++ (b'/' ∷ []))))

last_or-append : (d c : ℕ) (s t : Bytes) → last_or d (s ++ (c ∷ t)) ≡ last_or c t
last_or-append d c [] t = refl
last_or-append d c (x ∷ s) t = last_or-append x c s t

last_or-lacks :
    (c : ℕ) (e : Bytes) → (c == b'/') ≡ false → lacks b'/' e ≡ true → (last_or c e == b'/') ≡ false
last_or-lacks c [] h k = h
last_or-lacks c (x ∷ e) h k = ground (arith, last_or-lacks x e)

below-last :
    (root : Bytes) (v : List Bytes)
    → (last_or 0 root == b'/') ≡ false
    → All IsElement v
    → (last_or 0 (below root v) == b'/') ≡ false
below-last root [] h k = h
below-last root ([] ∷ v) h k = absurd (k.0.0.0 refl)
below-last root ((c ∷ e) ∷ v) h k =
    rw (last_or-append 0 b'/' (below root v) (c ∷ e)) (ground (arith, last_or-lacks c e, k.0.1))

-- The name of a rebuilt path under a root, less its slashes at the end.
strip_slashes-rebuild :
    (root : Bytes) (endslash : Bool) (v : List Bytes)
    → (last_or 0 root == b'/') ≡ false
    → All IsElement v
    → strip_slashes (root ++ rebuild true endslash v) ≡ below root v
unfolding rebuild
strip_slashes-rebuild root endslash v h k =
    let whole : strip_slashes (root ++ (b'/' ∷ join v)) ≡ below root v =
      rw (below-join root v, strip_slashes-slash (below root v))
        (strip_slashes-id 0 (below root v) (below-last root v h k)) in
    let cut : Bytes = pop_back (b'/' ∷ join v) in
    ground (
      arith,
      whole,
      pop_back-slash (b'/' ∷ join v) refl,
      append_assoc root cut (b'/' ∷ []),
      strip_slashes-slash (root ++ cut),
    )

-- The name is the root and elements behind it, none empty, `.` or `..` or with a slash in it.
abbrev pub IsUnder : Bytes → Bytes → Type 0
IsUnder root name = (v : List Bytes) × (name ≡ below root v) × All IsElement v

-- A path rebuilt from elements, behind a root.
rebuild-IsUnder :
    (root : Bytes) (isabs endslash : Bool) (v : List Bytes)
    → (last_or 0 root == b'/') ≡ false
    → All IsElement v
    → (first_or 0 (rebuild isabs endslash v) == b'/') ≡ true
    → IsUnder root (strip_slashes (root ++ rebuild isabs endslash v))
rebuild-IsUnder root isabs endslash v k h first =
    (v, rw (rebuild-first isabs endslash v h first) (strip_slashes-rebuild root endslash v k h), h)

-- The text that `remove_dots` gives, behind a root.
remove_dots-IsUnder :
    (root s doc : Bytes)
    → lacks b'?' s ≡ true
    → (last_or 0 root == b'/') ≡ false
    → remove_dots s ≡ some doc
    → (first_or 0 doc == b'/') ≡ true
    → IsUnder root (strip_slashes (root ++ doc))
unfolding remove_dots
remove_dots-IsUnder root [] doc h k eq first = absurd (ground arith)
remove_dots-IsUnder root (c ∷ s) doc h k eq first =
    let v : List Bytes = foldl push_element [] (segments [] (c ∷ s)) in
    let segs = remove_dots-segments (c ∷ s) (λ e. cc) in
    let doc_eq : rebuild (c == b'/') (ends_with_slash (c ∷ s)) v ≡ doc = cc in
    subst (λ d. IsUnder root (strip_slashes (root ++ d))) doc_eq
      (rebuild-IsUnder root (c == b'/') (ends_with_slash (c ∷ s)) v k
        (All-IsElement v segs.1
          (foldl-LacksSlash [] (segments [] (c ∷ s)) tt (segments-LacksSlash [] (c ∷ s) refl h)))
        (subst (λ d. (first_or 0 d == b'/') ≡ true) (sym doc_eq) first))

pub request_doc-IsUnder :
    (root url doc : Bytes)
    → lacks b'?' (remove_escaped_chars url) ≡ true
    → (last_or 0 root == b'/') ≡ false
    → request_doc url ≡ some doc
    → (first_or 0 doc == b'/') ≡ true
    → IsUnder root (strip_slashes (root ++ doc))
unfolding request_doc
request_doc-IsUnder root url doc h k eq first =
    remove_dots-IsUnder root (remove_escaped_chars url) doc h k eq first

index-IsElement : IsElement (codes "index.html")
index-IsElement = (((λ e. cc), (λ e. cc), (λ e. cc)), refl)

-- The index of a directory under the root.
pub index_name-IsUnder :
    (root name : Bytes)
    → (last_or 0 root == b'/') ≡ false
    → IsUnder root name
    → IsUnder root (index_name name)
unfolding index_name
index_name-IsUnder root name k (v, eq, h) =
    (codes "index.html" ∷ v, rw (eq, below-last root v k h) refl, (index-IsElement, h))
