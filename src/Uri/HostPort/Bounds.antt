-- ===== src/Uri/HostPort/Bounds.antt =====
-- What `parse_hostport` accepts: how much text it takes, and which ports.
use npupnp.Common.{
  ℕ, zero, suc, ◌+◌, ◌-◌, ◌≡◌, ◌≤◌, ◌<◌, refl, Bool, not, some, [], ◌∷◌, ◌==◌, Bytes, span, length,
  take, drop, first_or, arith, Option-cases, inl, inr,
}
use npupnp.Uri.Chars.{is_digit, upnp_strlcpy, upnp_strlcpy_lem}
use npupnp.Uri.HostPort.{
  Family, af_inet, af_inet6, af_unspec, Host, SockAddr, Resolver, HostPort, bracketed, plain,
  parse_host, is_host_char, parse_port, fill_address, parse_hostport,
}

span-length : (p : ℕ → Bool) (s : Bytes) → length (span p s).0 + length (span p s).1 ≡ length s
unfolding span
span-length p [] = refl
span-length p (c ∷ s) = ground (arith, span-length p s)

length-drop_one : (s : Bytes) (d : ℕ) → first_or 0 s ≡ suc d → length (drop 1 s) + 1 ≡ length s
length-drop_one [] d h = absurd (omega arith)
length-drop_one (c ∷ s) d h = omega arith

bracketed-used :
    (name rest : Bytes) (h : Host)
    → bracketed name rest ≡ some h
    → h.used + length h.rest ≡ length name + length rest + 1
unfolding bracketed
bracketed-used name [] h e = cc
bracketed-used name (c ∷ []) h e = ground arith
bracketed-used name (c ∷ d ∷ rest) h e = ground arith

plain-used :
    (r : Resolver) (n : Bool) (name rest : Bytes) (h : Host)
    → plain r n name rest ≡ some h
    → h.used + length h.rest ≡ length name + length rest
unfolding plain
plain-used r n name [] h e = ground arith
plain-used r n name (c ∷ rest) h e = ground arith

parse_host-used :
    (r : Resolver) (n : Bool) (s : Bytes) (h : Host)
    → parse_host r n s ≡ some h
    → h.used + length h.rest ≡ length s
unfolding parse_host
parse_host-used r n s h e = ground (
  arith,
  bracketed-used (span (λ c. not (c == b']')) (drop 1 s)).0
      (span (λ c. not (c == b']')) (drop 1 s)).1 h,
  plain-used r n (span is_host_char s).0 (span is_host_char s).1 h,
  span-length (λ c. not (c == b']')) (drop 1 s),
  span-length is_host_char s,
  length-drop_one s (b'[' - 1),
)

parse_port-bounds :
    (h : Host) (digits : Bytes) (port : ℕ)
    → parse_port h ≡ some (digits, port)
    → (0 < port) × (port < 65536) × (length digits ≤ length h.rest)
unfolding parse_port
parse_port-bounds h digits port e = ground (arith, span-length is_digit h.rest)

fill_address-port :
    (r : Resolver) (h : Host) (af : Family) (port : ℕ) (a : SockAddr)
    → fill_address r h af port ≡ some a
    → a.port ≡ port
unfolding fill_address
fill_address-port r h af_inet port a e = ground arith
fill_address-port r h af_inet6 port a e = ground arith
fill_address-port r h af_unspec port a e = ground arith

length-take-le : (n : ℕ) (s : Bytes) → (length (take n s) ≤ n) × (length (take n s) ≤ length s)
length-take-le zero s = (omega arith, omega arith)
length-take-le (suc n) [] = (omega arith, omega arith)
length-take-le (suc n) (c ∷ s) = omega (arith, length-take-le n s)

-- An accepted host and port take at most 255 bytes of the text, and no more than it has; the
-- text kept is that part, and the port is a 16-bit number other than 0.
pub parse_hostport_bounds :
    (r : Resolver) (noresolve : Bool) (s : Bytes) {hp : HostPort} {size : ℕ}
    → parse_hostport r noresolve s ≡ some (hp, size)
    → (size ≤ 255)
      × (size ≤ length s)
      × (hp.text ≡ take size s)
      × (0 < hp.ip_address.port)
      × (hp.ip_address.port < 65536)
unfolding parse_hostport
parse_hostport_bounds r noresolve s {hp} {size} e =
    elim (Option-cases (parse_host r noresolve (upnp_strlcpy s 256).0)) [
      | inl bad ↦ absurd (ground (arith, bad))
      | inr (h, found) ↦ elim (Option-cases (parse_port h)) [
        | inl bad ↦ absurd (ground (arith, bad, found))
        | inr ((digits, port), p) ↦ elim (Option-cases (fill_address r h h.af port)) [
          | inl bad ↦ absurd (ground (arith, bad, found, p))
          | inr (a, filled) ↦ ground (
            arith,
            found,
            p,
            filled,
            parse_host-used r noresolve (upnp_strlcpy s 256).0 h found,
            parse_port-bounds h digits port p,
            fill_address-port r h h.af port a filled,
            upnp_strlcpy_lem s 255,
            length-take-le 255 s,
          )
        ]
      ]
    ]
