-- ===== src/ServiceTable/Invariant.antt =====
-- What holds of a service's list of subscriptions after every lookup and removal: it is counted,
-- its SIDs differ, and it stays within a limit.
use npupnp.Common.{
  ℕ, ◌≡◌, ◌≢◌, ◌≤◌, ◌<◌, ap, sym, ◌∙◌, none, List, [], ◌∷◌, ◌++◌, ◌⊎◌, Bytes, equal, equal_iff,
  length, length-append, ℤ, pos, suc_ℤ, pred_ℤ, All, All-append, arith, Option-cases, Bool-cases,
  inl, inr,
}
use npupnp.ServiceTable.{
  Subscription, ServiceInfo, get_subscription_sid, remove_subscription_sid, remove_sid, erase_sid,
  update_sid, find_sid, has_expired,
}
use npupnp.ServiceTable.Count.{
  IsCounted, remove_subscription_sid-IsCounted, get_subscription_sid-IsCounted,
  update_sid-IsCounted, length-update_sid,
}
use npupnp.ServiceTable.Lookup.{SidsDiffer}

pub record IsValid (limit : ℤ) (service : ServiceInfo) : Type 0 where
  pub counted : IsCounted service
  pub differ : SidsDiffer service.subscription_list
  pub limited : (m : ℕ) → limit ≡ pos m → length service.subscription_list ≤ m

All-remove_sid :
    (P : Subscription → Type 0) (sid : Bytes) (ss : List Subscription) (t : ℤ)
    → All P ss
    → All P (remove_sid sid ss t).0
unfolding remove_sid
All-remove_sid P sid [] t a = tt
All-remove_sid P sid (s ∷ ss) t a =
    ground (arith, All-remove_sid P sid ss (pred_ℤ t) a.1, All-remove_sid P sid ss t a.1)

remove_sid-SidsDiffer :
    (sid : Bytes) (ss : List Subscription) (t : ℤ)
    → SidsDiffer ss
    → SidsDiffer (remove_sid sid ss t).0
unfolding remove_sid
remove_sid-SidsDiffer sid [] t d = tt
remove_sid-SidsDiffer sid (s ∷ ss) t d = ground (
  arith,
  remove_sid-SidsDiffer sid ss (pred_ℤ t) d.1,
  remove_sid-SidsDiffer sid ss t d.1,
  All-remove_sid (λ u. u.sid ≢ s.sid) sid ss t d.0,
)

length-remove_sid-le :
    (sid : Bytes) (ss : List Subscription) (t : ℤ) → length (remove_sid sid ss t).0 ≤ length ss
unfolding remove_sid
length-remove_sid-le sid [] t = omega arith
length-remove_sid-le sid (s ∷ ss) t =
    ground (arith, length-remove_sid-le sid ss (pred_ℤ t), length-remove_sid-le sid ss t)

pub remove_subscription_sid-IsValid :
    (sid : Bytes) (limit : ℤ) (service : ServiceInfo)
    → IsValid limit service
    → IsValid limit (remove_subscription_sid sid service)
unfolding remove_subscription_sid
remove_subscription_sid-IsValid sid limit service v = record {
  counted = remove_subscription_sid-IsCounted sid service v.counted;
  differ = remove_sid-SidsDiffer sid service.subscription_list _ v.differ;
  limited = λ m e. omega (
    arith,
    v.limited m e,
    length-remove_sid-le sid service.subscription_list service.total_subscriptions,
  );
}

All-erase_sid :
    (P : Subscription → Type 0) (sid : Bytes) (ss : List Subscription)
    → All P ss
    → All P (erase_sid sid ss)
unfolding erase_sid
All-erase_sid P sid [] a = tt
All-erase_sid P sid (s ∷ ss) a = ground (arith, All-erase_sid P sid ss a.1)

erase_sid-SidsDiffer :
    (sid : Bytes) (ss : List Subscription) → SidsDiffer ss → SidsDiffer (erase_sid sid ss)
unfolding erase_sid
erase_sid-SidsDiffer sid [] d = tt
erase_sid-SidsDiffer sid (s ∷ ss) d =
    ground (arith, erase_sid-SidsDiffer sid ss d.1, All-erase_sid (λ u. u.sid ≢ s.sid) sid ss d.0)

length-erase_sid-le : (sid : Bytes) (ss : List Subscription) → length (erase_sid sid ss) ≤ length ss
unfolding erase_sid
length-erase_sid-le sid [] = omega arith
length-erase_sid-le sid (s ∷ ss) = ground (arith, length-erase_sid-le sid ss)

-- What a lookup leaves of the list: all of it, or all but an expired entry.
get_subscription_sid-list :
    (now : ℕ) (sid : Bytes) (service : ServiceInfo)
    → ((get_subscription_sid now sid service).0.subscription_list ≡ service.subscription_list)
      ⊎ ((get_subscription_sid now sid service).0.subscription_list
          ≡ erase_sid sid service.subscription_list)
unfolding get_subscription_sid
get_subscription_sid-list now sid service =
    elim (Option-cases (find_sid sid service.subscription_list)) [
      | inl lost ↦ inl (ground (arith, lost))
      | inr (s, found) ↦ elim (Bool-cases (has_expired now s)) [
        | inl over ↦ inr (ground (arith, found, over))
        | inr live ↦ inl (ground (arith, found, live))
      ]
    ]

pub get_subscription_sid-IsValid :
    (now : ℕ) (sid : Bytes) (limit : ℤ) (service : ServiceInfo)
    → IsValid limit service
    → IsValid limit (get_subscription_sid now sid service).0
get_subscription_sid-IsValid now sid limit service v = record {
  counted = get_subscription_sid-IsCounted now sid service v.counted;
  differ = elim (get_subscription_sid-list now sid service) [
    | inl same ↦ rw same v.differ
    | inr less ↦ rw less (erase_sid-SidsDiffer sid service.subscription_list v.differ)
  ];
  limited = λ m e. elim (get_subscription_sid-list now sid service) [
    | inl same ↦ rw same (v.limited m e)
    | inr less ↦
        rw less (omega (arith, v.limited m e, length-erase_sid-le sid service.subscription_list))
  ];
}

All-update_sid :
    (k : Bytes) (sid : Bytes) (f : Subscription → Subscription) (ss : List Subscription)
    → ((s : Subscription) → (f s).sid ≡ s.sid)
    → All (λ u. u.sid ≢ k) ss
    → All (λ u. u.sid ≢ k) (update_sid sid f ss)
unfolding update_sid
All-update_sid k sid f [] h a = tt
All-update_sid k sid f (s ∷ ss) h a =
    ground (arith, All-update_sid k sid f ss h a.1, λ (e : (f s).sid ≡ k). a.0 (sym (h s) ∙ e))

update_sid-SidsDiffer :
    (sid : Bytes) (f : Subscription → Subscription) (ss : List Subscription)
    → ((s : Subscription) → (f s).sid ≡ s.sid)
    → SidsDiffer ss
    → SidsDiffer (update_sid sid f ss)
unfolding update_sid
update_sid-SidsDiffer sid f [] h d = tt
update_sid-SidsDiffer sid f (s ∷ ss) h d = elim (Bool-cases (equal sid s.sid)) [
  | inl hit ↦ rw hit (rw (h s) d)
  | inr miss ↦ rw miss (All-update_sid s.sid sid f ss h d.0, update_sid-SidsDiffer sid f ss h d.1)
]

pub update_sid-IsValid :
    (sid : Bytes) (f : Subscription → Subscription) (limit : ℤ) (service : ServiceInfo)
    → ((s : Subscription) → (f s).sid ≡ s.sid)
    → IsValid limit service
    → IsValid limit
        (record service { subscription_list = update_sid sid f service.subscription_list })
update_sid-IsValid sid f limit service h v = record {
  counted = update_sid-IsCounted sid f service v.counted;
  differ = update_sid-SidsDiffer sid f service.subscription_list h v.differ;
  limited = λ m e. omega (arith, v.limited m e, length-update_sid sid f service.subscription_list);
}

find_sid-ne :
    (sid : Bytes) (ss : List Subscription) → find_sid sid ss ≡ none → All (λ u. u.sid ≢ sid) ss
find_sid-ne sid [] h = tt
find_sid-ne sid (s ∷ ss) h = ground (arith, equal_iff sid s.sid, find_sid-ne sid ss)

concat-SidsDiffer :
    (ss : List Subscription) (n : Subscription)
    → All (λ u. u.sid ≢ n.sid) ss
    → SidsDiffer ss
    → SidsDiffer (ss ++ n ∷ [])
concat-SidsDiffer [] n a d = (tt, tt)
concat-SidsDiffer (s ∷ ss) n a d = (
  All-append (λ u. u.sid ≢ s.sid) ss (n ∷ []) d.0 (λ e. a.0 (sym e), tt),
  concat-SidsDiffer ss n a.1 d.1,
)

-- A new subscription, where there is room for one.
pub concat-IsValid :
    (n : Subscription) (limit : ℤ) (service : ServiceInfo)
    → find_sid n.sid service.subscription_list ≡ none
    → ((m : ℕ) → limit ≡ pos m → length service.subscription_list < m)
    → IsValid limit service
    → IsValid limit (record service {
      subscription_list = service.subscription_list ++ n ∷ [];
      total_subscriptions = suc_ℤ service.total_subscriptions;
    })
concat-IsValid n limit service new room v = record {
  counted =
      ap suc_ℤ v.counted
      ∙ ap pos
          (omega (arith, length-append {0} {A = Subscription} service.subscription_list (n ∷ [])));
  differ =
      concat-SidsDiffer service.subscription_list n
        (find_sid-ne n.sid service.subscription_list new) v.differ;
  limited = λ m e.
      omega
        (arith, room m e, length-append {0} {A = Subscription} service.subscription_list (n ∷ []));
}
