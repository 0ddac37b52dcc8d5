-- ===== src/Uri/Parse.antt =====
-- `parse_scheme`, `parse_uri` and `uri_asurlstr`.
pub mod Pieces
use npupnp.Common.{
  ℕ, suc, ◌+◌, ◌-◌, Bool, true, false, not, ◌&&◌, ◌||◌, Option, none, some, List, [], ◌∷◌, ◌++◌,
  ◌==◌, ltb, if◌then◌else◌, Bytes, span, index_of, length, take, drop, first_or, null,
}
use npupnp.Uri.Chars.{is_alpha, is_alnum}
use npupnp.Uri.HostPort.{HostPort, no_hostport, Resolver, parse_hostport}

pub data UriKind : Type 0 where
  absolute relative : UriKind

pub data PathKind : Type 0 where
  abs_path rel_path opaque_part : PathKind

pub record Uri : Type 0 where
  pub kind : UriKind
  pub scheme : Bytes
  pub path_type : PathKind
  pub path : Bytes
  pub query : Bytes
  pub fragment : Bytes
  pub hostport : HostPort

-- Whether the first `n` bytes may stand in a scheme.
is_scheme : ℕ → Bytes → Bool
is_scheme n [] = true
is_scheme n (c ∷ s) =
    if n == 0
    then true
    else (is_alnum c || c == b'+' || c == b'-' || c == b'.') && is_scheme (n - 1) s

-- Empty if there is none.
unfoldable pub parse_scheme : Bytes → Bytes
unfolding is_scheme is_alpha index_of
parse_scheme s = if null s || not (is_alpha (first_or 0 s)) then [] else elim (index_of b':' s) [
  | none ↦ []
  | some colon ↦ if is_scheme colon s then take colon s else []
]

-- The path, the query and the fragment of what stands behind the authority.
unfoldable pub split_path : Option ℕ → Option ℕ → Bytes → Bytes × Bytes × Bytes
split_path none none p = (p, [], [])
split_path (some question) none p = (take question p, drop (suc question) p, [])
split_path none (some hash) p = (take hash p, [], drop (suc hash) p)
split_path (some question) (some hash) p =
    if ltb hash question
    then (take hash p, [], drop (suc hash) p)
    else (take question p, take (hash - question - 1) (drop (suc question) p), drop (suc hash) p)

c_str : Bytes → Bytes
unfolding span
c_str s = (span (λ c. not (c == 0)) s).0

-- The authority, and where the path begins.
unfoldable pub authority : Resolver → ℕ → Bytes → Option (HostPort × ℕ)
unfolding c_str
authority r begin s =
    if ltb (begin + 1) (length s)
      && (first_or 0 (drop begin s) == b'/' && first_or 0 (drop (begin + 1) s) == b'/')
    then elim (parse_hostport r false (c_str (drop (begin + 2) s))) [
      | none ↦ none
      | some (hp, size) ↦ some (hp, size + (begin + 2))
    ]
    else some (no_hostport, begin)

-- `none` is `UPNP_E_INVALID_URL`.
unfoldable pub parse_uri : Resolver → Bytes → Option Uri
unfolding parse_scheme authority split_path index_of
parse_uri r s =
    let scheme = parse_scheme s in
    let begin = if null scheme then 0 else length scheme + 1 in
    elim (authority r begin s) [
      | none ↦ none
      | some (hp, begin_path) ↦
          let rest = drop begin_path s in
          let (path, query, fragment) = split_path (index_of b'?' rest) (index_of b'#' rest) rest in
          some (record {
            kind = if null scheme then relative else absolute;
            scheme = scheme;
            path_type =
                if first_or 0 path == b'/'
                then abs_path
                else if null scheme
                then rel_path
                else opaque_part;
            path = path;
            query = query;
            fragment = fragment;
            hostport = hp;
          })
    ]

abbrev part : Bool → Bytes → Bytes
part absent text = if absent then [] else text

unfoldable pub uri_asurlstr : Uri → Bytes
uri_asurlstr u =
    part (null u.scheme) (u.scheme ++ (b':' ∷ []))
    ++ (part (null u.hostport.text) (b'/' ∷ b'/' ∷ u.hostport.text)
        ++ (u.path
            ++ (part (null u.query) (part (not (null u.path)) (b'/' ∷ []) ++ (b'?' ∷ u.query))
                ++ part (null u.fragment) (b'#' ∷ u.fragment))))
