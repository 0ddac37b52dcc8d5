-- ===== src/GenaClient/Subscriptions.antt =====
-- The operations of gena_ctrlpt.cpp on the subscriptions of a client handle, with their renewal
-- timer. Where an operation gives up the handle lock, other threads may act: `between` is what
-- they do, and an argument. `schedule` of the timer always succeeds, and the branches for its
-- failure are left out. The clock `now` counts nanoseconds.
use npupnp.Common.{
  ℕ, zero, suc, ◌+◌, ◌-◌, Bool, not, Option, none, some, List, [], ◌∷◌, ◌++◌, if◌then◌else◌, Bytes,
  equal, keep, set, find_if, length, inl, inr, ℤ, pos, negsuc, eqb_ℤ, minus_one, pos_part, neg_part,
}
use npupnp.ThreadPool.Defs.{med_priority}
use npupnp.Timer.{Timer, short_term, schedule, remove, seconds}
use npupnp.Uri.Chars.{upnp_strlcpy}
use npupnp.Handles.{Handles, HandleInfo, ClientSubscription, get_client}
use npupnp.GenaClient.{
  Env, HttpRequest, gena_unsubscribe, gena_subscribe, Granted, auto_renew_time, upnp_e_success,
  upnp_e_invalid_handle, upnp_e_invalid_sid,
}

-- `AutoRenewSubscriptionJobWorker`.
pub record RenewJob : Type 0 where
  pub handle : ℤ
  pub sid : Bytes
  pub url : Bytes
  pub time_out : ℤ

-- The state: a renewal job is known to the timer by its position in `jobs`. `sent` are the
-- UNSUBSCRIBE requests so far.
pub record Client : Type 0 where
  pub handles : Handles
  pub timer : Timer
  pub jobs : List RenewJob
  pub sent : List HttpRequest

-- `operator=` of `ClientSubscription`: the id of the renewal event is not copied.
abbrev pub assigned : ClientSubscription → ClientSubscription
assigned other = record other { renew_event_id = minus_one }

-- `gTimerThread->remove` of an id that may be negative.
unfoldable pub remove_event : ℤ → Timer → Timer
unfolding remove
remove_event (pos id) timer = (remove id timer).0
remove_event (negsuc n) timer = timer

unfoldable pub client_cancel_renew : ClientSubscription → Timer → Timer
unfolding remove_event
client_cancel_renew sub timer =
    if eqb_ℤ sub.renew_event_id minus_one then timer else remove_event sub.renew_event_id timer

abbrev pub has_sid : Bytes → ClientSubscription → Bool
has_sid in_sid e = equal e.sid in_sid

-- `remove_if` by the SID.
abbrev pub without_sid : Bytes → List ClientSubscription → List ClientSubscription
without_sid in_sid subs = keep (λ e. not (has_sid in_sid e)) subs

-- A change of the first subscription with the SID.
unfoldable pub change_sid :
    Bytes
    → (ClientSubscription → ClientSubscription)
    → List ClientSubscription
    → List ClientSubscription
unfolding equal
change_sid in_sid f [] = []
change_sid in_sid f (e ∷ es) =
    let rest = change_sid in_sid f es in if has_sid in_sid e then f e ∷ es else e ∷ rest

abbrev pub put_subs : ℕ → HandleInfo → List ClientSubscription → Client → Client
put_subs i info subs w = record w {
  handles = set w.handles i (some (record info { client_sub_list = subs }));
}

-- The delay may be negative.
abbrev pub renewal_time : ℕ → ℤ → ℕ
renewal_time now time_out =
    now + seconds (pos_part time_out) - seconds (neg_part time_out + auto_renew_time)

-- `ScheduleGenaAutoRenew`: the state, and the id of the event, if one is needed.
unfoldable pub schedule_gena_auto_renew : ℕ → ℤ → ℤ → ClientSubscription → Client → Client × ℤ
unfolding schedule
schedule_gena_auto_renew now client_handle time_out sub w =
    let (timer, id) =
      schedule short_term (renewal_time now time_out) (length w.jobs) med_priority w.timer in
    let job : RenewJob = record {
      handle = client_handle;
      sid = sub.sid;
      url = (upnp_strlcpy sub.event_url 256).0;
      time_out = time_out;
    } in
    if eqb_ℤ time_out minus_one
    then (w, sub.renew_event_id)
    else (record w { timer = timer; jobs = w.jobs ++ (job ∷ []) }, pos id)

abbrev pub log_request : Option HttpRequest → Client → Client
log_request none w = w
log_request (some r) w = record w { sent = w.sent ++ (r ∷ []) }

-- The network operation and `clientCancelRenew`, with the copy of the subscription.
unfoldable pub end_subscription : Env → ClientSubscription → ℕ → Client → Client
unfolding gena_unsubscribe client_cancel_renew
end_subscription env sub_copy timeoutms w =
    log_request (gena_unsubscribe env sub_copy.event_url sub_copy.sid timeoutms)
      (record w { timer = client_cancel_renew sub_copy w.timer })

-- One round of the loop of `genaUnregisterClient`, on the client's handle.
abbrev pub unregister_step :
    Env → ℕ → HandleInfo → ClientSubscription → List ClientSubscription → Client → Client
unregister_step env i info sub subs w =
    end_subscription env (assigned sub) info.subs_ops_timeout_ms
      (put_subs i info (without_sid sub.sid (sub ∷ subs)) w)

-- The handle's place and its subscriptions; `none` for a bad handle.
abbrev pub client_subs : ℤ → Client → Option (ℕ × HandleInfo)
client_subs client_handle w = get_client client_handle w.handles

-- `none` is that the fuel ran out.
unfoldable pub gena_unregister_client : ℕ → Env → (Client → Client) → ℤ → Client → Client × Option ℤ
unfolding get_client end_subscription
gena_unregister_client zero env between h w = (w, none)
gena_unregister_client (suc fuel) env between h w = elim (client_subs h w) [
  | none ↦ (w, some upnp_e_invalid_handle)
  | some (i, info) ↦ elim info.client_sub_list [
    | [] ↦ (w, some upnp_e_success)
    | sub ∷ subs ↦
        gena_unregister_client fuel env between h (between (unregister_step env i info sub subs w))
  ]
]

-- The second locked section of `genaUnSubscribe`.
abbrev pub drop_sid : Bytes → Option (ℕ × HandleInfo) → Client → Client × ℤ
drop_sid in_sid none w = (w, upnp_e_invalid_handle)
drop_sid in_sid (some (i, info)) w =
    (put_subs i info (without_sid in_sid info.client_sub_list) w, upnp_e_success)

-- With the subscription that was found.
abbrev pub unsubscribe_found :
    Env → (Client → Client) → ℤ → Bytes → ℕ → Option ClientSubscription → Client → Client × ℤ
unsubscribe_found env between h in_sid timeoutms none w = (w, upnp_e_invalid_sid)
unsubscribe_found env between h in_sid timeoutms (some sub) w =
    let w' = between (end_subscription env (assigned sub) timeoutms w) in
    drop_sid in_sid (client_subs h w') w'

abbrev pub unsubscribe_from :
    Env → (Client → Client) → ℤ → Bytes → Option (ℕ × HandleInfo) → Client → Client × ℤ
unsubscribe_from env between h in_sid none w = (w, upnp_e_invalid_handle)
unsubscribe_from env between h in_sid (some (i, info)) w =
    unsubscribe_found env between h in_sid info.subs_ops_timeout_ms
      (find_if (has_sid in_sid) info.client_sub_list) w

unfoldable pub gena_unsubscribe_sid : Env → (Client → Client) → ℤ → Bytes → Client → Client × ℤ
unfolding get_client end_subscription
gena_unsubscribe_sid env between h in_sid w =
    unsubscribe_from env between h in_sid (client_subs h w) w

-- The code, the SID and the time granted.
pub record Subscribed : Type 0 where
  pub code : ℤ
  pub out_sid : Bytes
  pub time_out : ℤ

abbrev pub not_subscribed : ℤ → ℤ → Subscribed
not_subscribed code time_out = record { code = code; out_sid = []; time_out = time_out }

-- The new subscription, in front, with its renewal.
unfoldable pub add_subscription : ℕ → ℤ → Bytes → Bytes → ℤ → ℕ → HandleInfo → Client → Client
unfolding schedule_gena_auto_renew
add_subscription now h url sid time_out i info w =
    let fresh : ClientSubscription = record {
      renew_event_id = minus_one;
      sid = sid;
      event_url = url;
    } in
    let (w', id) = schedule_gena_auto_renew now h time_out fresh w in
    put_subs i info (record fresh { renew_event_id = id } ∷ info.client_sub_list) w'

abbrev pub subscribe_granted :
    ℕ → ℤ → Bytes → Bytes × ℤ → Option (ℕ × HandleInfo) → Client → Client × Subscribed
subscribe_granted now h url (sid, time_out) none w =
    (w, not_subscribed upnp_e_invalid_handle time_out)
subscribe_granted now h url (sid, time_out) (some (i, info)) w = (
  add_subscription now h url sid time_out i info w,
  record { code = upnp_e_success; out_sid = sid; time_out = time_out },
)

abbrev pub subscribe_answer : ℕ → ℤ → Bytes → ℤ → Granted → Client → Client × Subscribed
subscribe_answer now h url asked (inl code) w = (w, not_subscribed code asked)
subscribe_answer now h url asked (inr (sid, time_out)) w =
    subscribe_granted now h url (sid, time_out) (client_subs h w) w

abbrev pub subscribe_from :
    Env
    → (Client → Client)
    → ℕ
    → ℤ
    → Bytes
    → ℤ
    → Option (ℕ × HandleInfo)
    → Client
    → Client × Subscribed
subscribe_from env between now h url asked none w = (w, not_subscribed upnp_e_invalid_handle asked)
subscribe_from env between now h url asked (some (i, info)) w =
    subscribe_answer now h url asked (gena_subscribe env url asked [] info.subs_ops_timeout_ms)
      (between w)

unfoldable pub gena_subscribe_url :
    Env → (Client → Client) → ℕ → ℤ → Bytes → ℤ → Client → Client × Subscribed
unfolding get_client gena_subscribe add_subscription
gena_subscribe_url env between now h url asked w =
    subscribe_from env between now h url asked (client_subs h w) w
