-- ===== src/Uri/Resolve.antt =====
-- `resolve_rel_url` of uri.cpp.
pub mod Rfc
use npupnp.Common.{
  ℕ, suc, Bool, true, false, not, Option, none, some, List, [], ◌∷◌, ◌++◌, ◌==◌, if◌then◌else◌,
  Bytes, codes, equal, last_index_of, take, first_or, last_or, null,
}
use npupnp.Uri.HostPort.{Resolver, no_hostport}
use npupnp.Uri.Dots.{remove_dots}
use npupnp.Uri.Parse.{Uri, UriKind, absolute, relative, abs_path, parse_uri, uri_asurlstr}

-- A fresh `uri_type`; the fields `type` and `path_type`, which nothing sets or reads there, are
-- left out of account.
abbrev pub fresh : Uri
fresh = record {
  kind = absolute;
  scheme = [];
  path_type = abs_path;
  path = [];
  query = [];
  fragment = [];
  hostport = no_hostport;
}

-- The base path up to its last slash; all of nothing if there is none.
pub up_to_slash : Bytes → Bytes
unfolding last_index_of
up_to_slash s = elim (last_index_of b'/' s) [ none ↦ [] | some pos ↦ take (suc pos) s ]

-- `url.path` before the dots are removed, and `url.query`, for a path that is not empty.
unfoldable pub merge_path : Uri → Uri → Bytes × Bytes
unfolding up_to_slash equal
merge_path base rel =
    if first_or 0 rel.path == b'/'
    then (rel.path, [])
    else if null base.path
    then (b'/' ∷ rel.path, [])
    else if equal base.path (codes "/")
    then (base.path ++ rel.path, rel.query)
    else if last_or 0 base.path == b'/'
    then (base.path ++ rel.path, rel.query)
    else (up_to_slash base.path ++ rel.path, rel.query)

pub target_path : Uri → Uri → Bytes × Bytes
unfolding merge_path
target_path base rel =
    if null rel.path
    then (base.path, if not (null rel.query) then rel.query else base.query)
    else merge_path base rel

-- The URL put together for a relative reference; `none` only if `remove_dots` runs out of fuel.
pub target : Uri → Uri → Option Uri
unfolding target_path
target base rel =
    if not (null rel.hostport.text)
    then some (record fresh {
      scheme = base.scheme;
      fragment = rel.fragment;
      hostport = rel.hostport;
      path = rel.path;
      query = rel.query;
    })
    else let (path, query) = target_path base rel in
      elim (remove_dots path) [
        | none ↦ none
        | some p ↦ some (record fresh {
          scheme = base.scheme;
          hostport = base.hostport;
          path = p;
          query = query;
          fragment = rel.fragment;
        })
      ]

pub print_target : Option Uri → Option Bytes
unfolding uri_asurlstr
print_target none = none
print_target (some u) = some (uri_asurlstr u)

pub resolve_parsed : Uri → Uri → Option Bytes
unfolding print_target target
resolve_parsed base rel = elim rel.kind [
  | absolute ↦ some (uri_asurlstr rel)
  | relative ↦ print_target (target base rel)
]

pub resolve_relative : Resolver → Uri → Bytes → Option Bytes
unfolding resolve_parsed
resolve_relative r base rel_url = elim (parse_uri r rel_url) [
  | none ↦ some []
  | some rel ↦ resolve_parsed base rel
]

pub resolve_from : Resolver → Uri → UriKind → Bytes → Bytes → Option Bytes
unfolding resolve_relative
resolve_from r base relative base_url rel_url = some []
resolve_from r base absolute base_url rel_url =
    if null rel_url then some base_url else resolve_relative r base rel_url

-- The empty text stands for an error, as in the code.
unfoldable pub resolve_rel_url : Resolver → Bytes → Bytes → Option Bytes
unfolding resolve_from
resolve_rel_url r base_url rel_url =
    if null base_url then some [] else elim (parse_uri r base_url) [
      | none ↦ some []
      | some base ↦ resolve_from r base base.kind base_url rel_url
    ]
