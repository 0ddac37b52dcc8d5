-- ===== src/Ssdp/Valid.antt =====
-- Which messages reach the devices.
use npupnp.Common.{
  ◌≡◌, refl, ap, ◌⊎◌, inl, inr, Bool, true, false, ◌&&◌, ◌||◌, Option, none, some, Bytes, codes,
  equal_iff, arith, Bool-cases, if◌then◌else◌,
}
use npupnp.Uri.HostPort.{parse_hostport}
use npupnp.HttpUtils.Methods.{HttpMethod, httpmethod_str2enum}
use npupnp.NetIf.{IpAddr}
use npupnp.SsdpParser.{Packet}
use npupnp.Ssdp.{
  Net, control_point, device, nobody, dispatch, valid_ssdp_msg, valid_request, valid_host, is_star,
  is_msearch, is_notify, has_mx, is_multicast_host, is_our_host,
}

-- A search that our devices answer: a request with the method M-SEARCH for `*`, whose HOST is a
-- multicast address with a positive MX, or an address of one of our interfaces.
abbrev pub IsSearch : Net → IpAddr → Packet → Type 0
IsSearch net claddr p =
    (p.isresponse ≡ false)
    × (p.url ≡ some (codes "*"))
    × (method : Bytes) × (host : Bytes) × (p.method ≡ some method)
    × (p.host ≡ some host)
    × (is_msearch (httpmethod_str2enum method) ≡ true)
    × (((is_multicast_host host ≡ true) × (has_mx p.mx ≡ true))
        ⊎ (is_our_host net claddr (parse_hostport net.resolver false host) ≡ true))

-- The HOST of a search.
abbrev pub IsOurs : Net → IpAddr → Option Bytes → Bytes → Type 0
IsOurs net claddr mx host =
    ((is_multicast_host host ≡ true) × (has_mx mx ≡ true))
    ⊎ (is_our_host net claddr (parse_hostport net.resolver false host) ≡ true)

valid_host-IsOurs :
    (net : Net) (claddr : IpAddr) (m : HttpMethod) (mx host : Option Bytes)
    → is_msearch m ≡ true
    → valid_host net claddr m mx host ≡ true
    → (text : Bytes) × (host ≡ some text) × IsOurs net claddr mx text
valid_host-IsOurs net claddr m mx none k h = cc
valid_host-IsOurs net claddr m mx (some host) k h = elim (Bool-cases (is_multicast_host host)) [
  | inl t ↦ (host, refl, inl (t, ground (arith, h, t, k)))
  | inr f ↦ (host, refl, inr (ground (arith, h, f)))
]

star_eq : (url : Option Bytes) → is_star url ≡ true → url ≡ some (codes "*")
star_eq none h = cc
star_eq (some u) h = ap some ((equal_iff u (codes "*")).0 h)

-- A request that is taken, and is a search.
valid_request-IsSearch :
    (net : Net) (claddr : IpAddr) (p : Packet) (method : Option Bytes)
    → p.isresponse ≡ false
    → p.method ≡ method
    → is_msearch (valid_request net claddr p method) ≡ true
    → IsSearch net claddr p
valid_request-IsSearch net claddr p none r e h = absurd (ground (arith, h))
valid_request-IsSearch net claddr p (some text) r e h =
    let m : HttpMethod = httpmethod_str2enum text in
    elim (Bool-cases
      ((is_notify m || is_msearch m) && (is_star p.url && valid_host net claddr m p.mx p.host))) [
        | inr f ↦ absurd (ground (arith, h, f))
        | inl t ↦
            let search : is_msearch m ≡ true = ground (arith, h, t) in
            let (host, eq, ours) =
              valid_host-IsOurs net claddr m p.mx p.host search (ground (arith, t)) in
            (r, star_eq p.url (ground (arith, t)), text, host, e, eq, search, ours)
      ]

to_device :
    (response : Bool) (m : HttpMethod)
    → (if is_notify m || (response && is_msearch m)
        then control_point
        else if is_msearch m
        then device
        else nobody)
      ≡ device
    → (response ≡ false) × (is_msearch m ≡ true)
to_device true m h = absurd (ground (arith, h))
to_device false m h = (refl, ground (arith, h))

request-search :
    (net : Net) (claddr : IpAddr) (p : Packet)
    → p.isresponse ≡ false
    → is_msearch (valid_ssdp_msg net claddr p) ≡ true
    → is_msearch (valid_request net claddr p p.method) ≡ true
unfolding valid_ssdp_msg
request-search net claddr p r h = ground (arith, r, h)

-- A message goes to the devices only if it is a request with the method M-SEARCH for `*` whose
-- HOST is a multicast address, with a positive MX, or an address of one of our interfaces.
pub dispatch-IsSearch :
    (net : Net) (claddr : IpAddr) (p : Packet)
    → dispatch net claddr p ≡ device
    → IsSearch net claddr p
unfolding dispatch
dispatch-IsSearch net claddr p h =
    let (r, search) = to_device p.isresponse (valid_ssdp_msg net claddr p) h in
    valid_request-IsSearch net claddr p p.method r refl (request-search net claddr p r search)
