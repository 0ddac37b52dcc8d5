-- ===== src/Ssdp/Ctrlpt/Searches.antt =====
-- `SearchByTarget` and the end of a search, `SearchExpiredJobWorker::work`.
pub mod Expiry
use npupnp.Common.{
  ℕ, zero, suc, ◌+◌, ◌*◌, ◌==◌, Bool, true, false, not, Option, none, some, List, [], ◌∷◌, ◌++◌,
  if◌then◌else◌, Bytes, codes, is_some, length, ltb_ℤ, index_of, find_if, set, ℤ, pos, negsuc,
  show_ℤ, ◌+ℤ◌,
}
use npupnp.ThreadPool.Defs.{med_priority}
use npupnp.Timer.{Timer, schedule, schedule_at, schedule_after, rel_sec, short_term}
use npupnp.Handles.{
  Handles, HandleInfo, SsdpSearchArg, get_client_handle_info, SearchType, ssdp_serror,
}
use npupnp.Ssdp.{ssdp_request_type1, is_error}
use npupnp.Ssdp.Device.{num_ssdp_copy}
use npupnp.Ssdp.Ctrlpt.{Event, search_timeout}

-- The seconds that a search lasts, which are not negative.
abbrev pub seconds_of : ℤ → ℕ
seconds_of (pos n) = n
seconds_of (negsuc n) = 0

-- The jobs that the timer is given.
pub data SearchJob : Type 0 where
  expired : ℕ → SearchJob
  send_v4 send_v6 : ℕ → Bytes → SearchJob

-- `get_sdk_client_info`, the number of a job in the timer, the number of interfaces, and which
-- of the sockets are valid.
pub record Network : Type 0 where
  pub client_info : Bytes
  pub code : SearchJob → ℕ
  pub netifs : ℕ
  pub sockets4 : List Bool
  pub sockets6 : List Bool

-- The table of handles and the timer.
pub record Searcher : Type 0 where
  pub handles : Handles
  pub timer : Timer

abbrev crlf : Bytes
crlf = b'\r' ∷ b'\n' ∷ []

-- The text of the HOST header, for IPv4 or for IPv6.
abbrev pub host_of : Bool → Bytes → ℤ → Bytes
host_of false saddress port = codes "HOST: " ++ saddress ++ codes ":" ++ show_ℤ port
host_of true saddress port = codes "HOST: [" ++ saddress ++ codes "]:" ++ show_ℤ port

-- `CreateClientRequestPacket`, whose two families are the ones that it is called with.
unfoldable pub create_client_request_packet : Bytes → ℤ → Bytes → Bool → Bytes → ℤ → Bytes
unfolding show_ℤ
create_client_request_packet client_info mx st is_v6 saddress port =
    codes "M-SEARCH * HTTP/1.1"
    ++ crlf
    ++ host_of is_v6 saddress port
    ++ crlf
    ++ codes "MAN: \"ssdp:discover\""
    ++ crlf
    ++ (if ltb_ℤ (pos 0) mx then codes "MX: " ++ show_ℤ mx ++ crlf else [])
    ++ codes "ST: "
    ++ st
    ++ crlf
    ++ codes "USER-AGENT: "
    ++ client_info
    ++ crlf
    ++ crlf

abbrev pub is_zero : ℤ → Bool
is_zero (pos n) = n == 0
is_zero (negsuc n) = false

-- The number of seconds of a search by multicast, from 2 to 80.
unfoldable pub clamp_mx : ℤ → ℤ
clamp_mx mx = if ltb_ℤ mx (pos 2) then pos 2 else if ltb_ℤ (pos 80) mx then pos 80 else mx

-- The packets for IPv4 and IPv6; with an MX of 0, one of them is empty.
unfoldable pub search_packets : Bytes → ℤ → Bytes → Bytes → ℤ → Bytes × Bytes
unfolding create_client_request_packet clamp_mx index_of
search_packets client_info mx st saddress port =
    let dotted : Bool = is_some (index_of b'.' saddress) in
    let packet = create_client_request_packet client_info in
    if is_zero mx
    then (
      if dotted then packet mx st false saddress port else [],
      if dotted then [] else packet mx st true saddress port,
    )
    else (
      packet (clamp_mx mx) st false (codes "239.255.255.250") (pos 1900),
      packet (clamp_mx mx) st true (codes "FF02::C") (pos 1900),
    )

-- One packet for each valid socket, from the interface `i` on.
unfoldable pub send_each : ℕ → ℕ → (ℕ → ℕ) → ℕ → List Bool → Timer → Timer
unfolding schedule_after schedule
send_each now delay job i [] t = t
send_each now delay job i (valid ∷ sockets) t =
    send_each now delay job (suc i) sockets
      (if valid then (schedule_after now short_term delay (job i) med_priority t).0 else t)

-- The copies that are left, each 100 milliseconds behind the one before.
unfoldable pub send_copies : ℕ → ℕ → Network → ℕ → Bytes × Bytes → Timer → Timer
unfolding send_each
send_copies zero now n delay bufs t = t
send_copies (suc copies) now n delay bufs t = send_copies copies now n (delay + 100) bufs (
    send_each now delay (λ i. n.code (send_v6 i bufs.1)) 0 n.sockets6
      (send_each now delay (λ i. n.code (send_v4 i bufs.0)) 0 n.sockets4 t))

abbrev pub put_searches : ℕ → HandleInfo → List SsdpSearchArg → Handles → Handles
put_searches i info searches hs = set hs i (some (record info { ssdp_search_list = searches }))

-- The search is put at the end of the client's list, with the number of its timer event.
unfoldable pub add_search : ℕ → Network → ℕ → Bytes → ℕ → ℕ → HandleInfo → Searcher → Searcher
unfolding schedule_at schedule ssdp_request_type1
add_search now n seconds st cookie i info w =
    let id : ℕ = w.timer.last_event_id in
    let arg : SsdpSearchArg = record {
      timeout_event_id = id;
      request_type = ssdp_request_type1 st;
      search_target = st;
      cookie = cookie;
    } in
    record {
      handles = put_searches i info (info.ssdp_search_list ++ (arg ∷ [])) w.handles;
      timer =
          (schedule_at now short_term rel_sec seconds (n.code (expired id)) med_priority w.timer).0;
    }

abbrev pub send_all : ℕ → Network → Bytes × Bytes → Searcher → Searcher × ℤ
send_all now n bufs w =
    if not (n.netifs == length n.sockets4)
    then (w, negsuc 910)
    else if not (n.netifs == length n.sockets6)
    then (w, negsuc 910)
    else (record w { timer = send_copies num_ssdp_copy now n 0 bufs w.timer }, pos 0)

-- For the client, if there is one.
abbrev pub search_for :
    ℕ → Network → ℤ → Bytes → Bytes → ℤ → ℕ → Option (ℕ × HandleInfo) → Searcher → Searcher × ℤ
search_for now n mx st saddress port cookie none w = (w, negsuc 910)
search_for now n mx st saddress port cookie (some (i, info)) w =
    send_all now n (search_packets n.client_info mx st saddress port)
      (add_search now n (if is_zero mx then 2 else seconds_of (clamp_mx mx) + 1) st cookie i info w)

-- `SearchByTarget`; the clock stands still at `now`, and the results are the UPnP error codes.
unfoldable pub search_by_target : ℕ → Network → ℤ → Bytes → Bytes → ℤ → ℕ → Searcher → Searcher × ℤ
unfolding search_packets add_search send_copies clamp_mx get_client_handle_info ssdp_request_type1
search_by_target now n mx st saddress port cookie w =
    if is_error (ssdp_request_type1 st)
    then (w, negsuc 100)
    else search_for now n mx st saddress port cookie (get_client_handle_info w.handles) w

abbrev pub has_timeout : ℕ → SsdpSearchArg → Bool
has_timeout id s = s.timeout_event_id == id

-- The list without its first search with the number, if it has one.
unfoldable pub erase_search : ℕ → List SsdpSearchArg → List SsdpSearchArg
erase_search id [] = []
erase_search id (s ∷ ss) =
    let rest = erase_search id ss in if has_timeout id s then ss else s ∷ rest

abbrev pub expire_found : ℕ → ℕ → HandleInfo → Option SsdpSearchArg → Handles → Handles × List Event
expire_found id i info none hs = (hs, [])
expire_found id i info (some s) hs = (
  put_searches i info (erase_search id info.ssdp_search_list) hs,
  search_timeout info.callback s.cookie ∷ [],
)

-- For the client, if there is one.
abbrev pub expire_for : ℕ → Option (ℕ × HandleInfo) → Handles → Handles × List Event
expire_for id none hs = (hs, [])
expire_for id (some (i, info)) hs =
    expire_found id i info (find_if (has_timeout id) info.ssdp_search_list) hs

-- `SearchExpiredJobWorker::work`: the table, and the calls of the application.
unfoldable pub search_expired : ℕ → Handles → Handles × List Event
unfolding erase_search get_client_handle_info
search_expired id hs = expire_for id (get_client_handle_info hs) hs
