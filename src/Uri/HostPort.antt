-- ===== src/Uri/HostPort.antt =====
-- `parse_hostport` of uri.cpp. The resolver and `inet_pton` are arguments.
pub mod Bounds
use npupnp.Common.{
  ℕ, zero, suc, ◌+◌, ◌-◌, ◌%◌, ◌^◌, ◌≡◌, ◌≤◌, ◌<◌, refl, Bool, true, false, not, ◌&&◌, ◌||◌, Option,
  none, some, List, [], ◌∷◌, ◌++◌, ◌==◌, if◌then◌else◌, Bytes, span, index_of, last_index_of,
  length, take, drop, first_or, null, arith, Option-cases,
}
use npupnp.Uri.Chars.{is_digit, is_alnum, atoi, upnp_strlcpy}

pub data Family : Type 0 where
  af_unspec af_inet af_inet6 : Family

-- What the code reads and writes of a `sockaddr_storage`.
pub record SockAddr : Type 0 where
  pub family : Family
  pub addr : Bytes
  pub port : ℕ
  pub scope_id : ℕ

abbrev pub no_address : SockAddr
no_address = record { family = af_unspec; addr = []; port = 0; scope_id = 0 }

-- `getaddrinfo` (`none` if it fails, else the addresses of its list that are of either family, in
-- order) and `inet_pton` for the two families (`none` for a result that is not positive).
pub record Resolver : Type 0 where
  pub getaddrinfo : Bytes → Option (List SockAddr)
  pub inet_pton4 : Bytes → Option Bytes
  pub inet_pton6 : Bytes → Option Bytes

pub record HostPort : Type 0 where
  pub text : Bytes
  pub strhost : Bytes
  pub hostisname : Bool
  pub strport : Bytes
  pub ip_address : SockAddr

abbrev pub no_hostport : HostPort
no_hostport = record {
  text = [];
  strhost = [];
  hostisname = false;
  strport = [];
  ip_address = no_address;
}

-- What the first half of the function finds: the host, whether a port follows, the text behind
-- the host (and its colon), and the bytes used so far.
pub record Host : Type 0 where
  pub name : Bytes
  pub af : Family
  pub isname : Bool
  pub resolved : SockAddr
  pub has_port : Bool
  pub rest : Bytes
  pub used : ℕ

is_host_char : ℕ → Bool
is_host_char c = is_alnum c || c == b'.' || c == b'-'

-- The byte behind the last dot of the name, where zero ends the name.
after_last_dot : Bytes → ℕ
after_last_dot name = elim (last_index_of b'.' name) [
  | none ↦ 0
  | some i ↦ first_or 0 (drop (suc i) name)
]

-- `getaddrinfo` is asked but for `noresolve`; without a usable address the URL is refused.
resolve : Resolver → Bool → Bytes → Option SockAddr
resolve r true name = some no_address
resolve r false name = elim (r.getaddrinfo name) [
  | none ↦ none
  | some found ↦ elim found [ [] ↦ none | a ∷ more ↦ some a ]
]

-- Behind a bracketed address: the closing bracket is needed.
bracketed : Bytes → Bytes → Option Host
bracketed name [] = none
bracketed name (close ∷ rest) =
    let colon = first_or 0 rest == b':' in
    some (record {
      name = name;
      af = af_inet6;
      isname = false;
      resolved = no_address;
      has_port = colon;
      rest = if colon then drop 1 rest else rest;
      used = if colon then length name + 3 else length name + 2;
    })

plain : Resolver → Bool → Bytes → Bytes → Option Host
unfolding after_last_dot resolve
plain r noresolve name rest =
    let colon = first_or 0 rest == b':' in
    let host : Family → Bool → SockAddr → Host = λ af isname a. record {
      name = name;
      af = af;
      isname = isname;
      resolved = a;
      has_port = colon;
      rest = if colon then drop 1 rest else rest;
      used = if colon then length name + 1 else length name;
    } in
    if is_digit (after_last_dot name)
    then some (host af_inet false no_address)
    else elim (resolve r noresolve name) [ none ↦ none | some a ↦ some (host af_unspec true a) ]

parse_host : Resolver → Bool → Bytes → Option Host
unfolding bracketed plain is_host_char
parse_host r noresolve s =
    if first_or 0 s == b'['
    then (let (name, rest) = span (λ c. not (c == b']')) (drop 1 s) in bracketed name rest)
    else let (name, rest) = span is_host_char s in plain r noresolve name rest

-- The port's digits and its number; `none` for a port of 0. The number is cut to 16 bits.
parse_port : Host → Option (Bytes × ℕ)
parse_port h =
    if h.has_port
    then (let port = atoi h.rest % 2 ^ 16 in
        if port == 0 then none else some ((span is_digit h.rest).0, port))
    else some ([], 80)

-- The scope index behind `%`, which may be written `%25`.
scope_index : Bytes → ℕ
scope_index s =
    if first_or 0 s == b'2' && first_or 0 (drop 1 s) == b'5' && is_digit (first_or 0 (drop 2 s))
    then atoi (drop 2 s)
    else atoi s

inet6_address : Resolver → Bytes → ℕ → Option SockAddr
unfolding scope_index
inet6_address r name port =
    let at : Bytes = elim (index_of b'%' name) [ none ↦ name | some i ↦ take i name ] in
    let scope : ℕ = elim (index_of b'%' name) [
      | none ↦ 0
      | some i ↦ scope_index (drop (suc i) name)
    ] in
    elim (r.inet_pton6 at) [
      | none ↦ none
      | some a ↦ some (record { family = af_inet6; addr = a; port = port; scope_id = scope })
    ]

-- The switch on the family.
fill_address : Resolver → Host → Family → ℕ → Option SockAddr
unfolding inet6_address
fill_address r h af_inet port = elim (r.inet_pton4 h.name) [
  | none ↦ none
  | some a ↦ some (record { family = af_inet; addr = a; port = port; scope_id = 0 })
]
fill_address r h af_inet6 port = inet6_address r h.name port
fill_address r h af_unspec port = some (record h.resolved { port = port })

-- The result and the number of bytes that host and port take; `none` for `UPNP_E_INVALID_URL`.
-- The function works on a copy of 255 bytes at most.
unfoldable pub parse_hostport : Resolver → Bool → Bytes → Option (HostPort × ℕ)
unfolding parse_host parse_port fill_address
parse_hostport r noresolve s = elim (parse_host r noresolve (upnp_strlcpy s 256).0) [
  | none ↦ none
  | some h ↦ elim (parse_port h) [
    | none ↦ none
    | some (digits, port) ↦ elim (fill_address r h h.af port) [
      | none ↦ none
      | some a ↦
          let size = h.used + length digits in
          some (
            record {
              text = take size s;
              strhost = h.name;
              hostisname = h.isname;
              strport = digits;
              ip_address = a;
            },
            size,
          )
    ]
  ]
]
