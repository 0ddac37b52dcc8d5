-- ===== src/NetIf.antt =====
-- src/utils/netif.cpp: addresses, interfaces, and the interface that an address belongs to. An
-- address is its bytes in network order. `inet_pton` and `inet_ntop` are arguments.
pub mod Subnet
use Prim.Native.Nat.{bit_and, bit_or}
use npupnp.Common.{
  ℕ, ◌*◌, ◌+◌, Bool, true, false, not, ◌&&◌, ◌||◌, Option, none, some, List, [], ◌∷◌, ◌++◌, ◌==◌,
  ltb, if◌then◌else◌, Bytes, codes, equal, take, drop, replicate, keep, index_of, null, show_ℕ,
  length, find_if, first_or, ℤ, pos, minus_one, eqb_ℤ,
}
use npupnp.Uri.HostPort.{Resolver, SockAddr, Family, af_inet, af_inet6, af_unspec}

-- `IPAddr`: one that is not `ok`, or of one of the two families.
pub data IpAddr : Type 0 where
  no_ip : IpAddr
  ipv4 : Bytes → IpAddr
  ipv6 : Bytes → ℕ → IpAddr

pub data Scope : Type 0 where
  scope_invalid scope_link scope_site scope_global : Scope

unfoldable pub ip_ok : IpAddr → Bool
ip_ok no_ip = false
ip_ok (ipv4 b) = true
ip_ok (ipv6 b s) = true

-- A text with a colon is an address of the second family.
unfoldable pub ip_of_text : Resolver → Bytes → IpAddr
ip_of_text r caddr = elim (index_of b':' caddr) [
  | some i ↦ elim (r.inet_pton6 caddr) [ none ↦ no_ip | some b ↦ ipv6 b 0 ]
  | none ↦ elim (r.inet_pton4 caddr) [ none ↦ no_ip | some b ↦ ipv4 b ]
]

abbrev ipv4mappedprefix : Bytes
ipv4mappedprefix = replicate 10 0 ++ (255 ∷ 255 ∷ [])

is_v4mapped : Bytes → Bool
unfolding equal
is_v4mapped b = equal (take 12 b) ipv4mappedprefix

unfoldable pub ip_of_sockaddr : SockAddr → Bool → IpAddr
unfolding is_v4mapped
ip_of_sockaddr sa unmapv4 = elim sa.family [
  | af_inet ↦ ipv4 sa.addr
  | af_inet6 ↦
      if unmapv4 && is_v4mapped sa.addr then ipv4 (drop 12 sa.addr) else ipv6 sa.addr sa.scope_id
  | af_unspec ↦ no_ip
]

-- `IN6_IS_ADDR_LINKLOCAL` and `IN6_IS_ADDR_SITELOCAL`: the first ten bits.
pub linklocal : Bytes → Bool
linklocal b = first_or 0 b == 254 && bit_and (first_or 0 (drop 1 b)) 192 == 128

sitelocal : Bytes → Bool
sitelocal b = first_or 0 b == 254 && bit_and (first_or 0 (drop 1 b)) 192 == 192

unfoldable pub scopetype : IpAddr → Scope
unfolding linklocal sitelocal
scopetype no_ip = scope_invalid
scopetype (ipv4 b) = scope_invalid
scopetype (ipv6 b s) =
    if linklocal b then scope_link else if sitelocal b then scope_site else scope_global

abbrev pub is_link : Scope → Bool
is_link scope_link = true
is_link _ = false

-- The address with the other's scope, if both are of the second family and of link scope.
unfoldable pub set_scope_idx : IpAddr → IpAddr → IpAddr
unfolding linklocal
set_scope_idx (ipv6 b s) (ipv6 c t) = if linklocal b && linklocal c then ipv6 b t else ipv6 b s
set_scope_idx addr other = addr

-- `ntop` is `inet_ntop`: whether the address is of the second family, and its bytes.
unfoldable pub straddr : (Bool → Bytes → Bytes) → Bool → Bool → IpAddr → Bytes
unfolding linklocal show_ℕ
straddr ntop setscope forurl no_ip = []
straddr ntop setscope forurl (ipv4 b) = ntop false b
straddr ntop setscope forurl (ipv6 b s) =
    if setscope && linklocal b
    then ntop true b ++ (if forurl then codes "%25" else codes "%") ++ show_ℕ s
    else ntop true b

pub data Flag : Type 0 where
  flag_none flag_hasipv4 flag_hasipv6 flag_loopback flag_up flag_multicast flag_hashwaddr : Flag

-- `addresses` is kept with `netmasks`: here, the pairs.
pub record Interface : Type 0 where
  pub flags : ℕ
  pub name : Bytes
  pub friendlyname : Bytes
  pub index : ℤ
  pub addresses : List (IpAddr × IpAddr)

abbrev flag_bit : Flag → ℕ
flag_bit flag_none = 0
flag_bit flag_hasipv4 = 1
flag_bit flag_hasipv6 = 2
flag_bit flag_loopback = 4
flag_bit flag_up = 8
flag_bit flag_multicast = 16
flag_bit flag_hashwaddr = 32

unfoldable pub hasflag : Interface → Flag → Bool
hasflag itf f = not (bit_and itf.flags (flag_bit f) == 0)

abbrev pub is_ipv4 : IpAddr → Bool
is_ipv4 (ipv4 b) = true
is_ipv4 _ = false

unfoldable pub first_of : (IpAddr → Bool) → List (IpAddr × IpAddr) → Option IpAddr
first_of p [] = none
first_of p ((a, mask) ∷ more) = let later = first_of p more in if p a then some a else later

pub firstipv4addr : Interface → Option IpAddr
unfolding hasflag first_of
firstipv4addr itf = if hasflag itf flag_hasipv4 then first_of is_ipv4 itf.addresses else none

-- With link scope asked for, only an address of that scope will do.
abbrev serves_scope : Scope → IpAddr → Bool
serves_scope asked (ipv6 b s) = not (is_link asked) || linklocal b
serves_scope asked _ = false

unfoldable pub firstipv6addr : Interface → Scope → Option IpAddr
unfolding hasflag first_of
firstipv6addr itf asked =
    if hasflag itf flag_hasipv6 then first_of (serves_scope asked) itf.addresses else none

-- Only the addresses that are written as one of those to keep are left; false if none is.
unfoldable pub trimto : (Bool → Bytes → Bytes) → List IpAddr → Interface → Interface × Bool
unfolding straddr
trimto ntop kept itf =
    let text : IpAddr → Bytes = λ a. straddr ntop false false a in
    let left =
      keep
        (λ (a, mask). elim (find_if (λ k. equal (text a) (text k)) kept) [
          | none ↦ false
          | some k ↦ true
        ])
        itf.addresses in
    (record itf { addresses = left }, not (null left))

abbrev any_flag : List Flag → ℕ
any_flag [] = 0
any_flag (f ∷ fs) = bit_or (flag_bit f) (any_flag fs)

-- `Interfaces::select`.
pub select : List Flag → List Flag → List Interface → List Interface
select needs rejects interfaces =
    keep
      (λ itf.
        bit_and itf.flags (any_flag needs) == any_flag needs
        && bit_and itf.flags (any_flag rejects) == 0)
      interfaces

-- `Interfaces::findByName`.
pub find_by_name : Bytes → List Interface → Option Interface
unfolding equal
find_by_name nm interfaces =
    find_if (λ itf. equal nm itf.name || equal nm itf.friendlyname) interfaces

-- The bitwise `and` of addresses of the same length.
unfoldable pub and_bytes : Bytes → Bytes → Bytes
and_bytes (a ∷ s) (b ∷ t) = bit_and a b ∷ and_bytes s t
and_bytes _ _ = []

abbrev all_zeros : Bytes
all_zeros = 0 ∷ 0 ∷ 0 ∷ 0 ∷ []

abbrev pub all_ones : Bytes
all_ones = 255 ∷ 255 ∷ 255 ∷ 255 ∷ []

-- Whether the peer is in the subnet of this address; `only` is that there is one interface.
unfoldable pub in_subnet : Bool → Bytes → IpAddr × IpAddr → Bool
unfolding and_bytes equal
in_subnet only peer (ipv4 addr, ipv4 mask) =
    not (equal mask all_zeros)
    && ((only && equal mask all_ones) || equal (and_bytes peer mask) (and_bytes addr mask))
in_subnet only peer _ = false

unfoldable pub address_for : Bool → Bytes → List (IpAddr × IpAddr) → Option IpAddr
unfolding in_subnet
address_for only peer [] = none
address_for only peer (a ∷ more) =
    let later = address_for only peer more in if in_subnet only peer a then some a.0 else later

abbrev pub or_later :
    Interface → Option IpAddr → Option (Interface × IpAddr) → Option (Interface × IpAddr)
or_later itf (some a) later = some (itf, a)
or_later itf none later = later

unfoldable pub first_for : Bool → Bytes → List Interface → Option (Interface × IpAddr)
unfolding address_for
first_for only peer [] = none
first_for only peer (itf ∷ more) =
    let later = first_for only peer more in or_later itf (address_for only peer itf.addresses) later

-- `interfaceForAddress4`.
unfoldable pub interface_for_address4 : Bytes → List Interface → Option (Interface × IpAddr)
unfolding first_for
interface_for_address4 peer vifs = first_for (length vifs == 1) peer vifs

-- The first interface with the second family, or the last of them with this index.
interface6 : ℤ → Option Interface → List Interface → Option Interface
unfolding hasflag
interface6 index so_far [] = so_far
interface6 index so_far (itf ∷ more) =
    let first : Option Interface = elim so_far [ none ↦ some itf | some i ↦ some i ] in
    let next = interface6 index (if eqb_ℤ itf.index index then some itf else first) more in
    let skip = interface6 index so_far more in if hasflag itf flag_hasipv6 then next else skip

unfoldable pub interface_for_address : IpAddr → List Interface → Option (Interface × IpAddr)
unfolding interface_for_address4 interface6 firstipv6addr is_v4mapped
interface_for_address no_ip vifs = none
interface_for_address (ipv4 b) vifs = interface_for_address4 b vifs
interface_for_address (ipv6 b scope) vifs =
    if is_v4mapped b
    then interface_for_address4 (drop 12 b) vifs
    else elim (interface6 (if ltb 0 scope then pos scope else minus_one) none vifs) [
      | none ↦ none
      | some itf ↦ some (itf, elim (firstipv6addr itf scope_link) [ none ↦ no_ip | some a ↦ a ])
    ]
