-- ===== src/Ssdp/Ctrlpt/Searches/Expiry.antt =====
-- A search that was started is ended by its timer event.
use npupnp.Common.{
  ℕ, ◌+◌, ◌≡◌, refl, ap, false, none, some, List, [], ◌∷◌, ◌++◌, ◌==◌, if◌then◌else◌, Bytes,
  ==-refl, find_if, length, ℤ, arith, Bool-cases, inl, inr,
}
use npupnp.Handles.{Handles, HandleInfo, SsdpSearchArg, get_client_handle_info}
use npupnp.Handles.Firsts.{IsWritable, get_client_handle_info-IsWritable}
use npupnp.Ssdp.{ssdp_request_type1, is_error}
use npupnp.Ssdp.Ctrlpt.{search_timeout}
use npupnp.Ssdp.Ctrlpt.Searches.{
  Network, Searcher, put_searches, add_search, send_all, search_by_target, has_timeout,
  erase_search, search_expired, search_packets, is_zero, seconds_of, clamp_mx,
}

-- A search at the end, behind searches with other numbers, is found and taken out.
find_if-last :
    (s : SsdpSearchArg) (ss : List SsdpSearchArg)
    → find_if (has_timeout s.timeout_event_id) ss ≡ none
    → find_if (has_timeout s.timeout_event_id) (ss ++ (s ∷ [])) ≡ some s
find_if-last s [] h = rw (==-refl s.timeout_event_id) refl
find_if-last s (x ∷ ss) h = ground (arith, find_if-last s ss, h)

erase_search-last :
    (s : SsdpSearchArg) (ss : List SsdpSearchArg)
    → find_if (has_timeout s.timeout_event_id) ss ≡ none
    → erase_search s.timeout_event_id (ss ++ (s ∷ [])) ≡ ss
unfolding erase_search
erase_search-last s [] h = rw (==-refl s.timeout_event_id) refl
erase_search-last s (x ∷ ss) h = ground (arith, erase_search-last s ss, h)

expire_for-last :
    (s : SsdpSearchArg) (i : ℕ) (info : HandleInfo) (hs : Handles)
    → find_if (has_timeout s.timeout_event_id) info.ssdp_search_list ≡ none
    → IsWritable i info hs
    → search_expired s.timeout_event_id (put_searches i info (info.ssdp_search_list ++ (s ∷ [])) hs)
      ≡ (hs, search_timeout info.callback s.cookie ∷ [])
unfolding search_expired
expire_for-last s i info hs h (ok, written, back) =
    rw
      (
        written (record info { ssdp_search_list = info.ssdp_search_list ++ (s ∷ []) }) ok,
        find_if-last s info.ssdp_search_list h,
        erase_search-last s info.ssdp_search_list h,
      )
      (ap (λ t. (t, search_timeout info.callback s.cookie ∷ [])) (back _))

-- The sending of the packets does not change the table.
send_all-handles :
    (now : ℕ) (n : Network) (bufs : Bytes × Bytes) (w : Searcher)
    → (send_all now n bufs w).0.handles ≡ w.handles
send_all-handles now n bufs w = elim (Bool-cases (n.netifs == length n.sockets4)) [
  | inl same4 ↦ rw (same4) (elim (Bool-cases (n.netifs == length n.sockets6)) [
    | inl same6 ↦ rw (same6) refl
    | inr other ↦ rw (other) refl
  ])
  | inr other ↦ rw (other) refl
]

-- Where the target of a search is one of the known kinds, the first client's list has no search
-- with the number that the timer gives next, the end of the search that this number stands for
-- gives back the table of handles as it was before the search, and calls the client's callback
-- once, with a timeout and the cookie of the search; also where the sockets did not fit.
pub search_expired-search_by_target :
    (now : ℕ) (n : Network) (mx : ℤ) (st saddress : Bytes) (port : ℤ) (cookie : ℕ) (w : Searcher)
    (i : ℕ) (info : HandleInfo)
    → is_error (ssdp_request_type1 st) ≡ false
    → get_client_handle_info w.handles ≡ some (i, info)
    → find_if (has_timeout w.timer.last_event_id) info.ssdp_search_list ≡ none
    → search_expired w.timer.last_event_id
        (search_by_target now n mx st saddress port cookie w).0.handles
      ≡ (w.handles, search_timeout info.callback cookie ∷ [])
unfolding search_by_target add_search
search_expired-search_by_target now n mx st saddress port cookie w i info known client fresh =
    rw
      (
        known,
        client,
        send_all-handles now n (search_packets n.client_info mx st saddress port) (
            add_search now n (if is_zero mx then 2 else seconds_of (clamp_mx mx) + 1) st cookie i
              info w),
      )
      (expire_for-last
        (record {
          timeout_event_id = w.timer.last_event_id;
          request_type = ssdp_request_type1 st;
          search_target = st;
          cookie = cookie;
        })
        i info w.handles fresh (get_client_handle_info-IsWritable i info w.handles client))
