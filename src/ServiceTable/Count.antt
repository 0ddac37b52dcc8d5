-- ===== src/ServiceTable/Count.antt =====
-- `TotalSubscriptions` is the number of subscriptions in the list, whatever is looked up or
-- removed.
use npupnp.Common.{
  ℕ, suc, ◌+◌, ◌≡◌, refl, ap, sym, ◌∙◌, some, List, [], ◌∷◌, Bytes, length, ℤ, pos, pred_ℤ, arith,
  Option-cases, inl, inr,
}
use npupnp.ServiceTable.{
  Subscription, ServiceInfo, remove_sid, remove_subscription_sid, erase_sid, find_sid,
  get_subscription_sid, next_subscription, update_sid,
}

abbrev pub IsCounted : ServiceInfo → Type 0
IsCounted service = service.total_subscriptions ≡ pos (length service.subscription_list)

remove_sid-count :
    (sid : Bytes) (ss : List Subscription) (t : ℤ) (n : ℕ)
    → t ≡ pos (length ss + n)
    → (remove_sid sid ss t).1 ≡ pos (length (remove_sid sid ss t).0 + n)
unfolding remove_sid
remove_sid-count sid [] t n h = h
remove_sid-count sid (s ∷ ss) t n h =
    let shorter : pred_ℤ t ≡ pos (length ss + n) = ap pred_ℤ h ∙ fewer in
    let longer : t ≡ pos (length ss + suc n) = h ∙ ap pos (omega arith) in
    ground (
      arith,
      remove_sid-count sid ss (pred_ℤ t) n shorter,
      remove_sid-count sid ss t (suc n) longer,
    )
  where
    fewer : pred_ℤ (pos (suc (length ss) + n)) ≡ pos (length ss + n)
    fewer = ap (λ k. pred_ℤ (pos k)) {y = suc (length ss + n)} (omega arith)

pub remove_subscription_sid-IsCounted :
    (sid : Bytes) (service : ServiceInfo)
    → IsCounted service
    → IsCounted (remove_subscription_sid sid service)
unfolding remove_subscription_sid
remove_subscription_sid-IsCounted sid service c =
    let counted =
      remove_sid-count sid service.subscription_list service.total_subscriptions 0
        (c ∙ ap pos (omega arith)) in
    counted ∙ ap pos (omega arith)

length-erase_sid :
    (sid : Bytes) (ss : List Subscription) (s : Subscription)
    → find_sid sid ss ≡ some s
    → length ss ≡ suc (length (erase_sid sid ss))
unfolding erase_sid
length-erase_sid sid [] s h = cc
length-erase_sid sid (x ∷ ss) s h = ground (arith, length-erase_sid sid ss s)

pub get_subscription_sid-IsCounted :
    (now : ℕ) (sid : Bytes) (service : ServiceInfo)
    → IsCounted service
    → IsCounted (get_subscription_sid now sid service).0
unfolding get_subscription_sid
get_subscription_sid-IsCounted now sid service c =
    elim (Option-cases (find_sid sid service.subscription_list)) [
      | inl lost ↦ rw (lost, get_subscription_sid) c
      | inr (s, found) ↦
          ground (arith, found, length-erase_sid sid service.subscription_list s found)
    ]

pub length-update_sid :
    (sid : Bytes) (f : Subscription → Subscription) (ss : List Subscription)
    → length (update_sid sid f ss) ≡ length ss
unfolding update_sid
length-update_sid sid f [] = refl
length-update_sid sid f (s ∷ ss) = ground (arith, length-update_sid sid f ss)

pub update_sid-IsCounted :
    (sid : Bytes) (f : Subscription → Subscription) (service : ServiceInfo)
    → IsCounted service
    → IsCounted (record service { subscription_list = update_sid sid f service.subscription_list })
update_sid-IsCounted sid f service c =
    c ∙ ap pos (sym (length-update_sid sid f service.subscription_list))

-- After the walk to the next subscription to notify, the count is still the number of the
-- subscriptions passed, of those left, and of those before the walk.
pub next_subscription-count :
    (now : ℕ) (ss : List Subscription) (t : ℤ) (n : ℕ)
    → t ≡ pos (length ss + n)
    → (next_subscription now ss t).2
      ≡ pos (length (next_subscription now ss t).0 + length (next_subscription now ss t).1 + n)
unfolding next_subscription
next_subscription-count now [] t n h = h
next_subscription-count now (s ∷ ss) t n h =
    let shorter : pred_ℤ t ≡ pos (length ss + n) = ap pred_ℤ h ∙ fewer in
    let longer : t ≡ pos (length ss + suc n) = h ∙ ap pos (omega arith) in
    ground (
      arith,
      next_subscription-count now ss (pred_ℤ t) n shorter,
      next_subscription-count now ss t (suc n) longer,
    )
  where
    fewer : pred_ℤ (pos (suc (length ss) + n)) ≡ pos (length ss + n)
    fewer = ap (λ k. pred_ℤ (pos k)) {y = suc (length ss + n)} (omega arith)
