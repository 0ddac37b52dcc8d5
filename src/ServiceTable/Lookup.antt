-- ===== src/ServiceTable/Lookup.antt =====
-- Subscriptions found by their SID, after a removal, an expiry and an update.
use mathlib.Core.Option
use npupnp.Common.{
  ℕ, ◌≡◌, ◌≢◌, refl, ap, sym, subst, true, none, some, List, [], ◌∷◌, ◌++◌, if◌then◌else◌, Bytes,
  equal, equal_iff, ℤ, pred_ℤ, All, arith, Option-cases, inl, inr,
}
use npupnp.ServiceTable.{
  Subscription, ServiceInfo, remove_sid, remove_subscription_sid, erase_sid, find_sid, has_expired,
  get_subscription_sid, update_sid,
}

find_sid-remove_sid :
    (i j : Bytes) (ss : List Subscription) (t : ℤ)
    → find_sid j (remove_sid i ss t).0 ≡ (if equal i j then none else find_sid j ss)
unfolding remove_sid
find_sid-remove_sid i j [] t = ground arith
find_sid-remove_sid i j (s ∷ ss) t = ground (
  arith,
  equal_iff i j,
  equal_iff i s.sid,
  equal_iff j s.sid,
  find_sid-remove_sid i j ss (pred_ℤ t),
  find_sid-remove_sid i j ss t,
)

-- After a removal no subscription has the SID, and every other SID leads where it led.
pub find_sid-remove_subscription_sid :
    (i j : Bytes) (service : ServiceInfo)
    → find_sid j (remove_subscription_sid i service).subscription_list
      ≡ (if equal i j then none else find_sid j service.subscription_list)
unfolding remove_subscription_sid
find_sid-remove_subscription_sid i j service =
    find_sid-remove_sid i j service.subscription_list service.total_subscriptions

-- The SIDs in the list differ.
abbrev pub SidsDiffer : List Subscription → Type 0
SidsDiffer [] = Unit {0}
SidsDiffer (s ∷ ss) = All (λ u. u.sid ≢ s.sid) ss × SidsDiffer ss

pub find_sid_ne :
    (sid : Bytes) (ss : List Subscription) → All (λ u. u.sid ≢ sid) ss → find_sid sid ss ≡ none
find_sid_ne sid [] h = refl
find_sid_ne sid (s ∷ ss) h =
    ground (arith, equal_iff sid s.sid, find_sid_ne sid ss h.1, λ (e : s.sid ≡ sid). h.0 e)

find_sid_other :
    (s : Subscription) (j : Bytes) (ss : List Subscription)
    → All (λ u. u.sid ≢ s.sid) ss
    → s.sid ≡ j
    → find_sid j ss ≡ none
find_sid_other s j ss h e = find_sid_ne j ss (subst (λ k. All (λ u. u.sid ≢ k) ss) e h)

find_sid-erase_sid :
    (i j : Bytes) (ss : List Subscription)
    → SidsDiffer ss
    → find_sid j (erase_sid i ss) ≡ (if equal i j then none else find_sid j ss)
unfolding erase_sid
find_sid-erase_sid i j [] d = ground arith
find_sid-erase_sid i j (s ∷ ss) d = ground (
  arith,
  equal_iff i j,
  equal_iff i s.sid,
  equal_iff j s.sid,
  find_sid_other s j ss d.0,
  find_sid-erase_sid i j ss d.1,
)

pub find_sid_same :
    (i j : Bytes) (ss : List Subscription) → equal i j ≡ true → find_sid j ss ≡ find_sid i ss
find_sid_same i j ss h = ap (λ k. find_sid k ss) (sym ((equal_iff i j).0 h))

-- Where the SIDs differ, a lookup returns the subscription with the SID unless its time is over;
-- then it takes it out of the list. No other SID is touched.
pub get_subscription_sid_lem :
    (now : ℕ) (i j : Bytes) (service : ServiceInfo)
    → SidsDiffer service.subscription_list
    → ((get_subscription_sid now i service).1 ≡ elim (find_sid i service.subscription_list) [
      | none ↦ none
      | some s ↦ if has_expired now s then none else some s
    ])
      × (find_sid j (get_subscription_sid now i service).0.subscription_list ≡ (
          if equal i j
          then (get_subscription_sid now i service).1
          else find_sid j service.subscription_list))
unfolding get_subscription_sid
get_subscription_sid_lem now i j service d =
    elim (Option-cases (find_sid i service.subscription_list)) [
      | inl lost ↦ ground (arith, lost, find_sid_same i j service.subscription_list)
      | inr (s, found) ↦ ground (
        arith,
        found,
        find_sid_same i j service.subscription_list,
        find_sid-erase_sid i j service.subscription_list d,
      )
    ]

-- Fields other than the SID may be changed by a write through the pointer.
pub find_sid-update_sid :
    (i j : Bytes) (f : Subscription → Subscription) (ss : List Subscription)
    → ((s : Subscription) → (f s).sid ≡ s.sid)
    → find_sid j (update_sid i f ss)
      ≡ (if equal i j then Option.map f (find_sid j ss) else find_sid j ss)
unfolding update_sid
find_sid-update_sid i j f [] h = ground arith
find_sid-update_sid i j f (s ∷ ss) h = ground (
  arith,
  h s,
  equal_iff i j,
  equal_iff i s.sid,
  equal_iff j s.sid,
  equal_iff j (f s).sid,
  find_sid-update_sid i j f ss h,
)

find_sid-append :
    (j : Bytes) (ss : List Subscription) (n : Subscription)
    → find_sid j (ss ++ n ∷ [])
      ≡ elim (find_sid j ss) [ some s ↦ some s | none ↦ if equal j n.sid then some n else none ]
find_sid-append j [] n = refl
find_sid-append j (s ∷ ss) n = ground (arith, find_sid-append j ss n)

-- A subscription that is put in at the end under a SID that is new is found under it, and no
-- other SID changes.
pub find_sid-concat :
    (j : Bytes) (ss : List Subscription) (n : Subscription)
    → find_sid n.sid ss ≡ none
    → find_sid j (ss ++ n ∷ []) ≡ (if equal n.sid j then some n else find_sid j ss)
find_sid-concat j ss n h =
    ground (
      arith,
      find_sid-append j ss n,
      find_sid_same n.sid j ss,
      equal_iff j n.sid,
      equal_iff n.sid j,
    )
