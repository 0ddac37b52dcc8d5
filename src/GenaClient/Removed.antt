-- ===== src/GenaClient/Removed.antt =====
-- Subscriptions that are ended are gone from the client's list; their timer events are not.
use npupnp.Common.{
  ℕ, zero, suc, ◌≡◌, ◌≤◌, ◌<◌, refl, ap, subst, ◌∙◌, sym, Bool, not, Option, none, some, List, [],
  ◌∷◌, Bytes, equal_refl, keep, find_if, length, ℤ, arith,
}
use npupnp.Handles.{HandleInfo, ClientSubscription, get_client}
use npupnp.Handles.Clients.{get_client-written}
use npupnp.GenaClient.{Env, HttpRequest, gena_unsubscribe, upnp_e_success}
use npupnp.GenaClient.Subscriptions.{
  Client, log_request, assigned, client_cancel_renew, has_sid, without_sid, put_subs,
  end_subscription, unregister_step, client_subs, gena_unregister_client, drop_sid,
  unsubscribe_found, unsubscribe_from, gena_unsubscribe_sid,
}

-- No subscription of the handle, if it is a client's, has the SID.
abbrev pub IsGone : Bytes → Option (ℕ × HandleInfo) → Type 0
IsGone in_sid none = Unit
IsGone in_sid (some (i, info)) = find_if (has_sid in_sid) info.client_sub_list ≡ none

pub find_if-without_sid :
    (in_sid : Bytes) (subs : List ClientSubscription)
    → find_if (has_sid in_sid) (without_sid in_sid subs) ≡ none
find_if-without_sid in_sid [] = refl
find_if-without_sid in_sid (e ∷ es) = ground (arith, find_if-without_sid in_sid es)

pub put_subs-IsGone :
    (h : ℤ) (in_sid : Bytes) (i : ℕ) (info : HandleInfo) (w : Client)
    → client_subs h w ≡ some (i, info)
    → IsGone in_sid (client_subs h (put_subs i info (without_sid in_sid info.client_sub_list) w))
put_subs-IsGone h in_sid i info w e =
    rw (get_client-written w.handles h i info (without_sid in_sid info.client_sub_list) e)
      (find_if-without_sid in_sid info.client_sub_list)

drop_sid-IsGone :
    (h : ℤ) (in_sid : Bytes) (at : Option (ℕ × HandleInfo)) (w : Client)
    → client_subs h w ≡ at
    → IsGone in_sid (client_subs h (drop_sid in_sid at w).0)
drop_sid-IsGone h in_sid none w e = rw (e) tt
drop_sid-IsGone h in_sid (some (i, info)) w e = put_subs-IsGone h in_sid i info w e

-- The subscription is the first with the SID in the handle's list.
abbrev IsFoundAs : Bytes → Option ClientSubscription → Option (ℕ × HandleInfo) → Type 0
IsFoundAs in_sid sub none = Unit
IsFoundAs in_sid sub (some (i, info)) = find_if (has_sid in_sid) info.client_sub_list ≡ sub

unsubscribe_found-IsGone :
    (env : Env) (between : Client → Client) (h : ℤ) (in_sid : Bytes) (timeoutms : ℕ)
    (sub : Option ClientSubscription) (at : Option (ℕ × HandleInfo)) (w : Client)
    → client_subs h w ≡ at
    → IsFoundAs in_sid sub at
    → IsGone in_sid (client_subs h (unsubscribe_found env between h in_sid timeoutms sub w).0)
unsubscribe_found-IsGone env between h in_sid timeoutms none none w e found = rw (e) tt
unsubscribe_found-IsGone env between h in_sid timeoutms none (some (i, info)) w e found =
    rw (e) found
unsubscribe_found-IsGone env between h in_sid timeoutms (some sub) at w e found =
    let w' = between (end_subscription env (assigned sub) timeoutms w) in
    drop_sid-IsGone h in_sid (client_subs h w') w' refl

unsubscribe_from-IsGone :
    (env : Env) (between : Client → Client) (h : ℤ) (in_sid : Bytes) (at : Option (ℕ × HandleInfo))
    (w : Client)
    → client_subs h w ≡ at
    → IsGone in_sid (client_subs h (unsubscribe_from env between h in_sid at w).0)
unsubscribe_from-IsGone env between h in_sid none w e = rw (e) tt
unsubscribe_from-IsGone env between h in_sid (some (i, info)) w e =
    unsubscribe_found-IsGone env between h in_sid info.subs_ops_timeout_ms
      (find_if (has_sid in_sid) info.client_sub_list) (some (i, info)) w e refl

-- Whatever other threads do meanwhile and whatever the publisher answers, after an unsubscribe
-- returns the client's list has no subscription with the SID.
pub gena_unsubscribe_sid-IsGone :
    (env : Env) (between : Client → Client) (h : ℤ) (in_sid : Bytes) (w : Client)
    → IsGone in_sid (client_subs h (gena_unsubscribe_sid env between h in_sid w).0)
unfolding gena_unsubscribe_sid
gena_unsubscribe_sid-IsGone env between h in_sid w =
    unsubscribe_from-IsGone env between h in_sid (client_subs h w) w refl

log_request-kept :
    (r : Option HttpRequest) (w : Client)
    → ((log_request r w).handles ≡ w.handles) × ((log_request r w).timer ≡ w.timer)
log_request-kept none w = (refl, refl)
log_request-kept (some r) w = (refl, refl)

-- With a copy of a subscription, `clientCancelRenew` does nothing.
pub end_subscription-kept :
    (env : Env) (sub : ClientSubscription) (timeoutms : ℕ) (w : Client)
    → ((end_subscription env (assigned sub) timeoutms w).handles ≡ w.handles)
      × ((end_subscription env (assigned sub) timeoutms w).timer ≡ w.timer)
unfolding end_subscription client_cancel_renew
end_subscription-kept env sub timeoutms w =
    log_request-kept (gena_unsubscribe env sub.event_url sub.sid timeoutms) w

drop_sid-timer :
    (in_sid : Bytes) (at : Option (ℕ × HandleInfo)) (w : Client)
    → (drop_sid in_sid at w).0.timer ≡ w.timer
drop_sid-timer in_sid none w = refl
drop_sid-timer in_sid (some (i, info)) w = refl

unsubscribe_found-timer :
    (env : Env) (h : ℤ) (in_sid : Bytes) (timeoutms : ℕ) (sub : Option ClientSubscription)
    (w : Client)
    → (unsubscribe_found env (λ c. c) h in_sid timeoutms sub w).0.timer ≡ w.timer
unsubscribe_found-timer env h in_sid timeoutms none w = refl
unsubscribe_found-timer env h in_sid timeoutms (some sub) w =
    let w' = end_subscription env (assigned sub) timeoutms w in
    drop_sid-timer in_sid (client_subs h w') w' ∙ (end_subscription-kept env sub timeoutms w).1

unsubscribe_from-timer :
    (env : Env) (h : ℤ) (in_sid : Bytes) (at : Option (ℕ × HandleInfo)) (w : Client)
    → (unsubscribe_from env (λ c. c) h in_sid at w).0.timer ≡ w.timer
unsubscribe_from-timer env h in_sid none w = refl
unsubscribe_from-timer env h in_sid (some (i, info)) w =
    unsubscribe_found-timer env h in_sid info.subs_ops_timeout_ms
      (find_if (has_sid in_sid) info.client_sub_list) w

-- With no other thread acting, an unsubscribe leaves the timer as it was: the event for the
-- renewal of the subscription stays in the queue.
pub gena_unsubscribe_sid-timer :
    (env : Env) (h : ℤ) (in_sid : Bytes) (w : Client)
    → (gena_unsubscribe_sid env (λ c. c) h in_sid w).0.timer ≡ w.timer
unfolding gena_unsubscribe_sid
gena_unsubscribe_sid-timer env h in_sid w = unsubscribe_from-timer env h in_sid (client_subs h w) w

length-keep :
    (p : ClientSubscription → Bool) (subs : List ClientSubscription)
    → length (keep p subs) ≤ length subs
length-keep p [] = omega arith
length-keep p (e ∷ es) = ground (arith, length-keep p es)

length-without_sid :
    (sub : ClientSubscription) (subs : List ClientSubscription)
    → length (without_sid sub.sid (sub ∷ subs)) ≤ length subs
length-without_sid sub subs =
    ground (arith, equal_refl sub.sid, length-keep (λ e. not (has_sid sub.sid e)) subs)

client_subs-step :
    (env : Env) (h : ℤ) (i : ℕ) (info : HandleInfo) (sub : ClientSubscription)
    (subs : List ClientSubscription) (w : Client)
    → client_subs h w ≡ some (i, info)
    → client_subs h (unregister_step env i info sub subs w)
      ≡ some (i, record info { client_sub_list = without_sid sub.sid (sub ∷ subs) })
client_subs-step env h i info sub subs w e =
    let written = put_subs i info (without_sid sub.sid (sub ∷ subs)) w in
    ap (get_client h) ((end_subscription-kept env sub info.subs_ops_timeout_ms written).0)
    ∙ get_client-written w.handles h i info (without_sid sub.sid (sub ∷ subs)) e

-- The client is left with no subscription, and the code is of success.
abbrev pub IsUnregistered : ℤ → ℕ → Client × Option ℤ → Type 0
IsUnregistered h i (w, code) =
    (code ≡ some upnp_e_success)
    × (info : HandleInfo) × (client_subs h w ≡ some (i, info))
    × (info.client_sub_list ≡ [])

unregister-nil :
    (fuel : ℕ) (env : Env) (h : ℤ) (w : Client) (i : ℕ) (info : HandleInfo)
    → client_subs h w ≡ some (i, info)
    → info.client_sub_list ≡ []
    → gena_unregister_client (suc fuel) env (λ c. c) h w ≡ (w, some upnp_e_success)
unfolding gena_unregister_client
unregister-nil fuel env h w i info e listed = ground (arith, e, listed)

unregister-cons :
    (fuel : ℕ) (env : Env) (h : ℤ) (w : Client) (i : ℕ) (info : HandleInfo)
    (sub : ClientSubscription) (subs : List ClientSubscription)
    → client_subs h w ≡ some (i, info)
    → info.client_sub_list ≡ sub ∷ subs
    → gena_unregister_client (suc fuel) env (λ c. c) h w
      ≡ gena_unregister_client fuel env (λ c. c) h (unregister_step env i info sub subs w)
unfolding gena_unregister_client
unregister-cons fuel env h w i info sub subs e listed = ground (arith, e, listed)

unregister-listed :
    (fuel : ℕ) (env : Env) (h : ℤ) (w : Client) (i : ℕ) (info : HandleInfo)
    (subs : List ClientSubscription)
    → client_subs h w ≡ some (i, info)
    → info.client_sub_list ≡ subs
    → length subs < fuel
    → IsUnregistered h i (gena_unregister_client fuel env (λ c. c) h w)
unregister-listed zero env h w i info subs e listed lt = absurd (omega arith)
unregister-listed (suc fuel) env h w i info [] e listed lt =
    subst (IsUnregistered h i) (sym (unregister-nil fuel env h w i info e listed))
      (refl, info, e, listed)
unregister-listed (suc fuel) env h w i info (sub ∷ subs) e listed lt =
    subst (IsUnregistered h i) (sym (unregister-cons fuel env h w i info sub subs e listed)) (
      unregister-listed fuel env h (unregister_step env i info sub subs w) i
        (record info { client_sub_list = without_sid sub.sid (sub ∷ subs) })
        (without_sid sub.sid (sub ∷ subs)) (client_subs-step env h i info sub subs w e) refl
        (omega (arith, length-without_sid sub subs)))

-- For the handle of a client, with no other thread acting, the loop that ends all subscriptions
-- comes to its end in one round more than there are subscriptions, with the code of success and
-- with no subscription left.
pub gena_unregister_client-IsUnregistered :
    (env : Env) (h : ℤ) (w : Client) (i : ℕ) (info : HandleInfo)
    → client_subs h w ≡ some (i, info)
    → IsUnregistered h i
        (gena_unregister_client (suc (length info.client_sub_list)) env (λ c. c) h w)
gena_unregister_client-IsUnregistered env h w i info e =
    unregister-listed _ env h w i info info.client_sub_list e refl (omega arith)
