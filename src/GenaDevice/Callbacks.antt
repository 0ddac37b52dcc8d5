-- ===== src/GenaDevice/Callbacks.antt =====
-- `create_url_list` and `callStrangerCheck`: the delivery URLs of the CALLBACK header.
pub mod Brackets
pub mod Sound
use npupnp.Common.{
  ℕ, zero, suc, ◌+◌, ◌-◌, ◌≡◌, Bool, true, false, not, ◌&&◌, ◌||◌, Option, none, some, List, [],
  ◌∷◌, ◌++◌, ◌==◌, leb, if◌then◌else◌, Bytes, index_of, take, drop, length, null,
}
use npupnp.Uri.HostPort.{SockAddr, Family, af_inet, af_inet6, af_unspec, Resolver, HostPort}
use npupnp.Uri.Parse.{Uri, parse_uri, uri_asurlstr}

-- What is asked of `NetIF` (src/utils/netif.cpp): the network interface of the program that an
-- address belongs to, if any, whether an IPv6 address is link-local, and the text of a URL whose
-- link-local host is qualified with the client's scope (`maybeScopeUrlAddr`).
pub record NetIf : Type 0 where
  pub interface_for_address : SockAddr → Option ℕ
  pub is_link_local : SockAddr → Bool
  pub maybe_scope_url_addr : Uri → SockAddr → Bytes

-- `IPAddr::ok`: the address is of either family.
abbrev pub is_ok : SockAddr → Bool
is_ok a = elim a.family [ af_unspec ↦ false | _ ↦ true ]

abbrev same_interface : Option ℕ → ℕ → Bool
same_interface none client = false
same_interface (some i) client = i == client

-- Whether a delivery address is allowed for a client on this interface.
unfoldable pub call_stranger_check : NetIf → SockAddr → ℕ → Bool
call_stranger_check n a client = elim a.family [
  | af_unspec ↦ false
  | af_inet6 ↦ n.is_link_local a
  | af_inet ↦ same_interface (n.interface_for_address a) client
]

pub data UrlListError : Type 0 where
  invalid_interface invalid_url : UrlListError

pub data UrlList : Type 0 where
  urls : List Bytes → UrlList
  refused : UrlListError → UrlList

-- One URL between its brackets: `none` if the whole list is refused, else what is appended.
unfoldable pub check_url : Resolver → NetIf → SockAddr → ℕ → Bytes → Option (List Bytes)
unfolding parse_uri uri_asurlstr call_stranger_check
check_url r n client clnetif surl = elim (parse_uri r surl) [
  | none ↦ none
  | some u ↦
      if null u.hostport.text || not (call_stranger_check n u.hostport.ip_address clnetif)
      then none
      else let qsurl = n.maybe_scope_url_addr u client in
        some (if null qsurl then [] else qsurl ∷ [])
]

-- The loop over the list, from `closepos` on.
unfoldable pub url_loop : Resolver → NetIf → SockAddr → ℕ → ℕ → Bytes → List Bytes → Option UrlList
unfolding check_url index_of
url_loop r n client clnetif zero s out = none
url_loop r n client clnetif (suc fuel) s out = elim (index_of b'<' s) [
  | none ↦ some (urls out)
  | some open_pos ↦ elim (index_of b'>' (drop open_pos s)) [
    | none ↦ some (urls out)
    | some close ↦
        if leb close 1
        then some (refused invalid_url)
        else elim (check_url r n client clnetif (take (close - 1) (drop (suc open_pos) s))) [
          | none ↦ some (refused invalid_url)
          | some more ↦ url_loop r n client clnetif fuel (drop (open_pos + close) s) (out ++ more)
        ]
  ]
]

unfoldable pub create_url_list : Resolver → NetIf → SockAddr → Bytes → Option UrlList
unfolding url_loop
create_url_list r n client ulist =
    if not (is_ok client)
    then some (refused invalid_interface)
    else elim (n.interface_for_address client) [
      | none ↦ some (refused invalid_interface)
      | some clnetif ↦ url_loop r n client clnetif (suc (length ulist)) ulist []
    ]
