-- ===== src/Tests/Uris.antt =====
-- The theorems on URIs at concrete texts.
use npupnp.Common.{
  equal, ℕ, ◌≡◌, ◌≤◌, ◌<◌, refl, false, none, some, [], ◌∷◌, ◌==◌, if◌then◌else◌, Bytes, codes,
  length, take, drop, first_or, null, arith, span, last_index_of, index_of,
}
use npupnp.Uri.Chars.{is_digit, is_alnum, atoi, upnp_strlcpy}
use npupnp.Uri.Escape.{remove_escaped_chars, query_encode, remove_escaped_chars-query_encode}
use npupnp.Uri.Dots.{remove_dots}
use npupnp.Uri.HostPort.{Resolver, HostPort, parse_hostport, no_hostport, af_inet}
use npupnp.Uri.HostPort.Bounds.{parse_hostport_bounds}
use npupnp.Uri.Parse.{
  Uri, absolute, relative, abs_path, rel_path, parse_uri, authority, parse_scheme, split_path,
}
use npupnp.Uri.Parse.Pieces.{SplitsAs, scheme_end, parse_uri-SplitsAs}
use npupnp.Uri.Dots.Cleaned.{cleaned, remove_dots-cleaned}
use npupnp.Uri.Resolve.{resolve_rel_url}
use npupnp.Uri.Resolve.Rfc.{IsReference, put_together, resolve_rel_url-drops_query}

remove_escaped_chars-query_encode_example :
    remove_escaped_chars (query_encode (codes "a b/%")) ≡ codes "a b/%"
remove_escaped_chars-query_encode_example =
    remove_escaped_chars-query_encode (codes "a b/%") (ground arith)

remove_dots-cleaned_example :
    remove_dots (codes "/a/./b/../../../c/..") ≡ some (cleaned (codes "/a/./b/../../../c/.."))
remove_dots-cleaned_example = remove_dots-cleaned (codes "/a/./b/../../../c/..")

clean : cleaned (codes "/a/./b/../c//d/..") ≡ codes "/a/c/"
unfolding equal
clean = refl

abbrev resolver : Resolver
resolver = record {
  getaddrinfo = λ name. none;
  inet_pton4 = λ name. some (1 ∷ 2 ∷ 3 ∷ 4 ∷ []);
  inet_pton6 = λ name. none;
}

abbrev host : HostPort
host = record {
  text = codes "1.2.3.4:80";
  strhost = codes "1.2.3.4";
  hostisname = false;
  strport = codes "80";
  ip_address = record { family = af_inet; addr = 1 ∷ 2 ∷ 3 ∷ 4 ∷ []; port = 80; scope_id = 0 };
}

host_read : parse_hostport resolver false (codes "1.2.3.4:80/x") ≡ some (host, 10)
unfolding parse_hostport upnp_strlcpy is_digit last_index_of span is_alnum atoi
host_read = refl

parse_hostport_bounds_example :
    (10 ≤ 255)
    × (10 ≤ length (codes "1.2.3.4:80/x"))
    × (host.text ≡ take 10 (codes "1.2.3.4:80/x"))
    × (0 < host.ip_address.port)
    × (host.ip_address.port < 65536)
parse_hostport_bounds_example =
    parse_hostport_bounds resolver false (codes "1.2.3.4:80/x") host_read

abbrev base_url : Bytes
base_url = codes "http://1.2.3.4:80/a/b"

abbrev base : Uri
base = record {
  kind = absolute;
  scheme = codes "http";
  path_type = abs_path;
  path = codes "/a/b";
  query = [];
  fragment = [];
  hostport = host;
}

base_read : parse_uri resolver base_url ≡ some base
unfolding parse_uri parse_scheme split_path authority parse_hostport upnp_strlcpy is_digit
    last_index_of span is_alnum atoi index_of
base_read = refl

abbrev reference : Bytes → Bytes → Bytes → Uri
reference path query fragment = record {
  kind = relative;
  scheme = [];
  path_type = if first_or 0 path == b'/' then abs_path else rel_path;
  path = path;
  query = query;
  fragment = fragment;
  hostport = no_hostport;
}

abbrev plain : Uri
plain = reference (codes "../c") (codes "q") (codes "f")

abbrev rooted : Uri
rooted = reference (codes "/c") (codes "q") []

rooted_read : parse_uri resolver (codes "/c?q") ≡ some rooted
unfolding parse_uri parse_scheme split_path authority parse_hostport upnp_strlcpy is_digit
    last_index_of span is_alnum atoi index_of
rooted_read = refl

parse_uri-SplitsAs_example :
    (begin : ℕ) × (authority resolver (scheme_end base_url) base_url ≡ some (base.hostport, begin))
    × SplitsAs (drop begin base_url) base.path base.query base.fragment
    × (base.scheme ≡ parse_scheme base_url)
    × (base.kind ≡ (if null (parse_scheme base_url) then relative else absolute))
parse_uri-SplitsAs_example = parse_uri-SplitsAs resolver base_url base_read

rooted-IsReference : IsReference resolver base_url (codes "/c?q") base rooted
rooted-IsReference = record {
  base_given = refl;
  rel_given = refl;
  base_is = base_read;
  rel_is = rooted_read;
  base_absolute = refl;
  rel_relative = refl;
  no_authority = refl;
}

resolve_rel_url-drops_query_example :
    (p : Bytes) × (remove_dots rooted.path ≡ some p)
    × (resolve_rel_url resolver base_url (codes "/c?q") ≡ some (put_together base rooted p []))
resolve_rel_url-drops_query_example =
    resolve_rel_url-drops_query resolver base_url (codes "/c?q") base rooted rooted-IsReference refl
