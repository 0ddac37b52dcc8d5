-- ===== src/GenaDevice/Subscribe/Answers.antt =====
-- What a control point is answered, and what its request does to the subscriptions.
use npupnp.Common.{
  ℕ, suc, ◌+◌, ap, suc_ℤ, [], ◌∷◌, ◌++◌, ◌≡◌, ◌≤◌, ◌⊎◌, refl, subst, sym, true, false, Option, none,
  some, List, if◌then◌else◌, Bytes, codes, equal, ℤ, pos, negsuc, pos_part, ltb_ℤ, minus_one, arith,
  Option-cases, Bool-cases, inl, inr,
}
use npupnp.Uri.HostPort.{Resolver}
use npupnp.Handles.{HandleInfo}
use npupnp.ServiceTable.{Subscription, ServiceInfo, get_subscription_sid, find_sid, has_expired}
use npupnp.ServiceTable.Lookup.{
  SidsDiffer, get_subscription_sid_lem, find_sid-remove_subscription_sid,
}
use npupnp.GenaDevice.Request.{
  Request, status, timeout_header_value, http_ok, http_precondition_failed, http_not_found,
  http_internal_server_error,
}
use npupnp.HttpUtils.Headers.{find_header}
use npupnp.GenaDevice.Callbacks.{NetIf, UrlList, urls, refused, create_url_list}
use npupnp.GenaDevice.Subscribe.{
  Outcome, subscribe_service, unsubscribe_service, is_full, new_subscription, granted_timeout,
  with_urls, add_subscription,
}

-- The subscription with this SID, if its time is not over.
abbrev pub live : ℕ → Bytes → ServiceInfo → Option Subscription
live now sid service = elim (find_sid sid service.subscription_list) [
  | none ↦ none
  | some s ↦ if has_expired now s then none else some s
]

-- Where the SIDs differ, an UNSUBSCRIBE for an active service is answered 200 if its SID names a
-- live subscription, else 412. Afterwards no subscription has the SID, and every other SID leads
-- where it led.
pub unsubscribe_service_lem :
    (now : ℕ) (sid j : Bytes) (service : ServiceInfo)
    → service.active ≡ true
    → SidsDiffer service.subscription_list
    → ((unsubscribe_service now sid service).1 ≡ elim (live now sid service) [
      | none ↦ status http_precondition_failed
      | some s ↦ status http_ok
    ])
      × (find_sid j (unsubscribe_service now sid service).0.subscription_list
          ≡ (if equal sid j then none else find_sid j service.subscription_list))
unfolding unsubscribe_service
unsubscribe_service_lem now sid j service on d =
    let looked = get_subscription_sid_lem now sid j service d in
    let checked : ServiceInfo = (get_subscription_sid now sid service).0 in
    elim (Option-cases (live now sid service)) [
      | inl lost ↦ ground (arith, on, looked, lost)
      | inr (s, found) ↦
          ground (arith, on, looked, found, find_sid-remove_subscription_sid sid j checked)
    ]

-- The subscription that is meant: no event was sent, it is not active, it has the URLs, and it
-- ends after the seconds granted, or never.
abbrev pub starts_out : ℕ → Bytes → List Bytes → ℤ → Subscription
starts_out now sid out (pos seconds) = record {
  sid = sid;
  to_send_event_key = 0;
  expire_time = pos (now + seconds);
  active = false;
  delivery_urls = out;
  outgoing = [];
}
starts_out now sid out (negsuc n) = record {
  sid = sid;
  to_send_event_key = 0;
  expire_time = pos 0;
  active = false;
  delivery_urls = out;
  outgoing = [];
}

new_subscription-starts_out :
    (now : ℕ) (sid : Bytes) (out : List Bytes) (time_out : ℤ)
    → new_subscription now sid out time_out ≡ starts_out now sid out time_out
unfolding new_subscription
new_subscription-starts_out now sid out (pos seconds) = ground arith
new_subscription-starts_out now sid out (negsuc n) = ground arith

-- One of the two outcomes of a SUBSCRIBE: refused with a bare status and nothing changed, or one
-- subscription more, behind the others.
abbrev pub Decided :
    Resolver → NetIf → ℕ → Bytes → HandleInfo → Request → ServiceInfo → Outcome → Type 0
Decided r n now sid h req service o =
    ((code : ℕ) × (o ≡ (service, status code, none)))
    ⊎ ((ulist : Bytes) × (out : List Bytes) × (find_header (codes "callback") req.headers
          ≡ some ulist)
        × (create_url_list r n req.client_address ulist ≡ some (urls out))
        × (is_full h service ≡ false)
        × (o.0.subscription_list
            ≡ service.subscription_list ++ (starts_out now sid out (granted_timeout h req) ∷ []))
        × (o.0.total_subscriptions ≡ suc_ℤ service.total_subscriptions))

with_urls-Decided :
    (r : Resolver) (n : NetIf) (now : ℕ) (sid : Bytes) (h : HandleInfo) (req : Request)
    (service : ServiceInfo) (ulist : Bytes) (list : Option UrlList)
    → find_header (codes "callback") req.headers ≡ some ulist
    → create_url_list r n req.client_address ulist ≡ list
    → is_full h service ≡ false
    → Decided r n now sid h req service (with_urls now sid h req service list)
unfolding with_urls add_subscription
with_urls-Decided r n now sid h req service ulist none given made room =
    inl (http_precondition_failed, refl)
with_urls-Decided r n now sid h req service ulist (some (refused e)) given made room =
    inl (http_precondition_failed, refl)
with_urls-Decided r n now sid h req service ulist (some (urls out)) given made room = inr (
  ulist,
  out,
  given,
  made,
  room,
  ap (λ s. service.subscription_list ++ (s ∷ []))
      (new_subscription-starts_out now sid out (granted_timeout h req)),
  refl,
)

-- A SUBSCRIBE either is answered with a bare status and has changed nothing, or the list of
-- subscriptions is as it was with exactly one more behind the others, and the count is one more.
-- The new one has the SID made for it, the delivery URLs of its CALLBACK header and an empty
-- queue, is not yet active, and ends after the seconds granted, or never if they are negative;
-- and then the service was not full.
pub subscribe_service_lem :
    (r : Resolver) (n : NetIf) (now : ℕ) (sid : Bytes) (h : HandleInfo) (req : Request)
    (service : ServiceInfo)
    → Decided r n now sid h req service (subscribe_service r n now sid h req service)
unfolding subscribe_service
subscribe_service_lem r n now sid h req service = elim (Bool-cases service.active) [
  | inr off ↦ inl (http_not_found, simp (off, subscribe_service))
  | inl on ↦ elim (Bool-cases (is_full h service)) [
    | inl full ↦ inl (http_internal_server_error, simp (on, full, subscribe_service))
    | inr room ↦ elim (Option-cases (find_header (codes "callback") req.headers)) [
      | inl missing ↦ inl (http_precondition_failed, simp (on, room, missing, subscribe_service))
      | inr (ulist, given) ↦
          subst (Decided r n now sid h req service)
            (sym (simp (on, room, given, subscribe_service)))
            (with_urls-Decided r n now sid h req service ulist _ given refl room)
    ]
  ]
]

-- With a maximum set, the timeout granted is a number of seconds up to it, unless the request
-- asks for a number below -1.
pub granted_timeout_bounds :
    (h : HandleInfo) (req : Request) (m : ℕ)
    → h.max_subscription_time_out ≡ pos m
    → ((t : ℤ) → timeout_header_value req ≡ some t → ltb_ℤ t minus_one ≡ false)
    → (t : ℕ) × (granted_timeout h req ≡ pos t) × (t ≤ m)
unfolding granted_timeout
granted_timeout_bounds h req m e ok = (
  pos_part (granted_timeout h req),
  elim (Option-cases (timeout_header_value req)) [
    | inl missing ↦ ground (arith, e, missing)
    | inr (t, asked) ↦ ground (arith, e, asked, ok t)
  ],
  elim (Option-cases (timeout_header_value req)) [
    | inl missing ↦ ground (arith, e, missing)
    | inr (t, asked) ↦ ground (arith, e, asked, ok t)
  ],
)

-- A request for a number of seconds below -1 is granted a subscription that never expires,
-- whatever maximum the device has set.
pub new_subscription-never_expires :
    (h : HandleInfo) (req : Request) (k m now later : ℕ) (sid : Bytes) (out : List Bytes)
    → h.max_subscription_time_out ≡ pos m
    → timeout_header_value req ≡ some (negsuc (suc k))
    → has_expired later (new_subscription now sid out (granted_timeout h req)) ≡ false
unfolding granted_timeout new_subscription
new_subscription-never_expires h req k m now later sid out e asked = ground (arith, e, asked)
