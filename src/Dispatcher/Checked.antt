-- ===== src/Dispatcher/Checked.antt =====
-- A request reaches a callback only with a HOST header that was checked.
use npupnp.Common.{
  ℕ, ◌≡◌, refl, ◌⊎◌, inl, inr, true, false, none, some, List, ◌∷◌, [], Bytes, codes, is_some, arith,
  Bool-cases, Option-cases,
}
use npupnp.Uri.HostPort.{HostPort, parse_hostport}
use npupnp.HttpUtils.Headers.{find_header}
use npupnp.NetIf.{ip_of_text, ip_of_sockaddr, set_scope_idx, interface_for_address}
use npupnp.Dispatcher.{Request}
use npupnp.Dispatcher.Hosts.{
  Setup, VhhStatus, vhh_yes, vhh_no, vhh_redirect, is_web, accepts, validate_name, validate_address,
  validate_parsed, validate_host_header,
}
use npupnp.Dispatcher.Answer.{
  Opening, new_request, opened, redirected, answer_first, Callbacks, answer_opened,
  answer_to_connection,
}

-- A host name that the client's callback accepts, on a request to the web server; or a numeric
-- address that an interface of the library serves.
abbrev pub HostIsOurs : Setup → Request → HostPort → Type 0
HostIsOurs s t hp =
    ((hp.hostisname ≡ true)
      × (is_web t.method ≡ true)
      × (accepts s.host_validate hp.strhost ≡ true))
    ⊎ ((hp.hostisname ≡ false)
        × (is_some (
              interface_for_address
                (set_scope_idx (ip_of_text s.resolver hp.strhost)
                  (ip_of_sockaddr t.client_address true))
                s.netifs)
            ≡ true))

-- The request has a HOST header that parses and names a host of ours.
abbrev pub IsValidated : Setup → Request → Type 0
IsValidated s t =
    (value : Bytes) × (hp : HostPort) × (used : ℕ) × (find_header (codes "host") t.headers
      ≡ some value)
    × (parse_hostport s.resolver false value ≡ some (hp, used))
    × HostIsOurs s t hp

validate_parsed-IsOurs :
    (s : Setup) (t : Request) (hp : HostPort) (used : ℕ)
    → validate_parsed s t.method (ip_of_sockaddr t.client_address true) (some (hp, used)) ≡ vhh_yes
    → HostIsOurs s t hp
unfolding validate_name validate_address
validate_parsed-IsOurs s t hp used h = elim (Bool-cases hp.hostisname) [
  | inl name ↦ inl (ground arith)
  | inr numeric ↦ inr (ground arith)
]

validate_host_header-IsValidated :
    (s : Setup) (t : Request)
    → validate_host_header s t (ip_of_sockaddr t.client_address true) ≡ vhh_yes
    → IsValidated s t
unfolding validate_host_header
validate_host_header-IsValidated s t h =
    elim (Option-cases (find_header (codes "host") t.headers)) [
      | inl nothing ↦ absurd (ground (arith, nothing, h))
      | inr (value, eq) ↦ elim (Option-cases (parse_hostport s.resolver false value)) [
        | inl bad ↦ absurd (ground (arith, eq, bad, h))
        | inr ((hp, used), good) ↦ (
          value,
          hp,
          used,
          eq,
          good,
          validate_parsed-IsOurs s t hp used (ground (arith, eq, good, h)),
        )
      ]
    ]

redirected-closes :
    {S R : Type 0} (c : Callbacks S R) (pieces : List Bytes) (st : S) (aurl : Bytes)
    → answer_opened c pieces (redirected aurl) st ≡ (st, none)
redirected-closes c pieces st [] = refl
redirected-closes c pieces st (x ∷ aurl) = refl

opened-cases :
    {S R : Type 0} (s : Setup) (c : Callbacks S R) (t : Request) (pieces : List Bytes) (st : S)
    (status : VhhStatus)
    → validate_host_header s t (ip_of_sockaddr t.client_address true) ≡ status
    → (answer_opened c pieces (opened s t status) st ≡ (st, none)) ⊎ IsValidated s t
opened-cases s c t pieces st vhh_yes h = inr (validate_host_header-IsValidated s t h)
opened-cases s c t pieces st vhh_no h = inl refl
opened-cases s c t pieces st vhh_redirect h = inl (redirected-closes c pieces st _)

-- Unless host validation is turned off, a request either changes no state and gets no response
-- from a callback, or it has a HOST header that parses, and this is a name that the client
-- program accepts, in a request of a web method, or an address that one of the library's
-- interfaces serves.
pub answer_to_connection-IsValidated :
    {S R : Type 0} (s : Setup) (c : Callbacks S R) (o : Opening) (pieces : List Bytes) (st : S)
    → s.no_host_validate ≡ false
    → (answer_to_connection s c o pieces st ≡ (st, none)) ⊎ IsValidated s (new_request o)
unfolding answer_to_connection answer_first
answer_to_connection-IsValidated s c o pieces st h = simp (h) (
    opened-cases s c (new_request o) pieces st
      (validate_host_header s (new_request o) (ip_of_sockaddr (new_request o).client_address true))
      refl)
