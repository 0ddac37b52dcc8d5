-- ===== src/Handles/Clients.antt =====
-- A client's handle after its entry is written.
use npupnp.Common.{
  ℕ, ◌≡◌, some, List, get_elem?, set, ℤ, pos, negsuc, arith, Option-cases, inl, inr,
}
use npupnp.Handles.{HandleInfo, Handles, ClientSubscription, get_client, get_handle_info, slot}
use npupnp.Handles.Slots.{get_elem?-set, get_elem?-lt}

slot-set :
    (hs : Handles) (i : ℕ) (info info' : HandleInfo)
    → slot i hs ≡ some info
    → slot i (set hs i (some info')) ≡ some info'
unfolding slot
slot-set hs i info info' e = elim (Option-cases (get_elem? hs i)) [
  | inl out ↦ absurd (ground (arith, e, out))
  | inr (v, at) ↦ ground (arith, at, get_elem?-set hs i i (some info') (get_elem?-lt hs i v at))
]

get_handle_info-written :
    (hs : Handles) (h : ℤ) (i : ℕ) (info info' : HandleInfo)
    → get_handle_info h hs ≡ some (i, info)
    → get_handle_info h (set hs i (some info')) ≡ some (i, info')
unfolding get_handle_info
get_handle_info-written hs (negsuc n) i info info' e = cc
get_handle_info-written hs (pos j) i info info' e = elim (Option-cases (slot j hs)) [
  | inl out ↦ absurd (ground (arith, e, out))
  | inr (v, at) ↦ ground (arith, e, at, slot-set hs j v info' at)
]

-- With its list of subscriptions replaced, a client's handle is found at the same place.
pub get_client-written :
    (hs : Handles) (h : ℤ) (i : ℕ) (info : HandleInfo) (subs : List ClientSubscription)
    → get_client h hs ≡ some (i, info)
    → get_client h (set hs i (some (record info { client_sub_list = subs })))
      ≡ some (i, record info { client_sub_list = subs })
unfolding get_client
get_client-written hs h i info subs e = elim (Option-cases (get_handle_info h hs)) [
  | inl out ↦ absurd (ground (arith, e, out))
  | inr ((j, v), at) ↦
      ground
        (arith, e, at, get_handle_info-written hs h i info (record info { client_sub_list = subs }))
]
