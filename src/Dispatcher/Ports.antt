-- ===== src/Dispatcher/Ports.antt =====
-- `available_port` of miniserver.cpp; `bind` is an argument.
use npupnp.Common.{
  ℕ, zero, suc, ◌+◌, ◌^◌, ◌%◌, ◌≡◌, ◌<◌, refl, ◌==◌, if◌then◌else◌, arith, ℤ, pos, negsuc,
}

-- What `bind` ends in; `eaddrinuse` is also Windows' `WSAEACCES`.
pub data BindResult : Type 0 where
  bound eaddrinuse bind_error : BindResult

-- `UPNP_E_SOCKET_BIND`.
abbrev pub upnp_e_socket_bind : ℤ
upnp_e_socket_bind = negsuc 202

abbrev pub next_port : BindResult → ℕ → ℤ → ℤ
next_port bound port later = pos port
next_port eaddrinuse port later = later
next_port bind_error port later = upnp_e_socket_bind

-- The loop, with the tries that are left. `bind` gets 16 bits of the port.
unfoldable pub try_ports : (ℕ → BindResult) → ℕ → ℕ → ℤ
try_ports bind zero port = upnp_e_socket_bind
try_ports bind (suc tries) port =
    let later = try_ports bind tries (suc port) in next_port (bind (port % 2 ^ 16)) port later

-- With a socket at hand.
unfoldable pub available_port : (ℕ → BindResult) → ℕ → ℤ
unfolding try_ports
available_port bind reqport = try_ports bind 20 (if reqport == 0 then 49152 else reqport)

-- So far no port was free, and this one is.
abbrev pub FirstFree : (ℕ → BindResult) → ℕ → ℕ → Type 0
FirstFree bind from zero = bind (from % 2 ^ 16) ≡ bound
FirstFree bind from (suc k) = (bind (from % 2 ^ 16) ≡ eaddrinuse) × FirstFree bind (suc from) k

try_ports-step :
    (bind : ℕ → BindResult) (tries from port : ℕ) (result : BindResult)
    → bind (from % 2 ^ 16) ≡ result
    → next_port result from (try_ports bind tries (suc from)) ≡ pos port
    → (try_ports bind tries (suc from) ≡ pos port
        → (k : ℕ) × (port ≡ suc from + k) × (k < tries) × FirstFree bind (suc from) k)
    → (k : ℕ) × (port ≡ from + k) × (k < suc tries) × FirstFree bind from k
try_ports-step bind tries from port bound h eq more = (0, ground arith, omega arith, h)
try_ports-step bind tries from port eaddrinuse h eq more =
    let (k, port_eq, below, free) = more eq in (suc k, omega arith, omega arith, (h, free))
try_ports-step bind tries from port bind_error h eq more = absurd (ground arith)

pub try_ports-FirstFree :
    (bind : ℕ → BindResult) (tries from port : ℕ)
    → try_ports bind tries from ≡ pos port
    → (k : ℕ) × (port ≡ from + k) × (k < tries) × FirstFree bind from k
unfolding try_ports
try_ports-FirstFree bind zero from port eq = absurd (ground arith)
try_ports-FirstFree bind (suc tries) from port eq =
    try_ports-step bind tries from port (bind (from % 2 ^ 16)) refl eq
      (try_ports-FirstFree bind tries (suc from) port)

-- A port that `available_port` gives is one of the twenty from the requested one on (49152 for a
-- request of 0); its bind succeeds, and the binds of the ports before it fail as in use.
available_port-FirstFree :
    (bind : ℕ → BindResult) (reqport port : ℕ)
    → available_port bind reqport ≡ pos port
    → (k : ℕ) × (port ≡ (if reqport == 0 then 49152 else reqport) + k)
      × (k < 20)
      × FirstFree bind (if reqport == 0 then 49152 else reqport) k
unfolding available_port
available_port-FirstFree bind reqport port eq =
    try_ports-FirstFree bind 20 (if reqport == 0 then 49152 else reqport) port eq
