-- ===== src/GenaClient/Renewal.antt =====
-- `genaRenewSubscription` and the job that calls it before a subscription ends. The time that
-- goes with a failure is not modelled.
use npupnp.Common.{
  ℕ, Bool, ◌||◌, Option, none, some, if◌then◌else◌, Bytes, find_if, inl, inr, ℤ, eqb_ℤ, minus_one,
}
use npupnp.Handles.{HandleInfo, ClientSubscription, get_client}
use npupnp.GenaClient.{
  Env, gena_subscribe, Granted, upnp_e_success, upnp_e_invalid_handle, upnp_e_invalid_sid,
}
use npupnp.GenaClient.Subscriptions.{
  Client, RenewJob, remove_event, has_sid, without_sid, change_sid, put_subs,
  schedule_gena_auto_renew, client_subs,
}

-- The first locked section, with the subscription that was found.
unfoldable pub stop_renewal : ℕ → HandleInfo → Bytes → ClientSubscription → Client → Client
unfolding remove_event change_sid
stop_renewal i info in_sid sub w =
    put_subs i info
      (change_sid in_sid (λ e. record e { renew_event_id = minus_one }) info.client_sub_list)
      (record w { timer = remove_event sub.renew_event_id w.timer })

-- The new SID and the new renewal event.
unfoldable pub keep_renewed :
    ℕ → ℤ → Bytes → Bytes → ℤ → ℕ → HandleInfo → ClientSubscription → Client → Client
unfolding schedule_gena_auto_renew change_sid
keep_renewed now h in_sid sid time_out i info sub w =
    let renamed : ClientSubscription = record sub { sid = sid } in
    let (w', id) = schedule_gena_auto_renew now h time_out renamed w in
    put_subs i info
      (change_sid in_sid (λ e. record e { sid = sid; renew_event_id = id }) info.client_sub_list) w'

abbrev pub renew_found :
    ℕ → ℤ → Bytes → Bytes × ℤ → ℕ → HandleInfo → Option ClientSubscription → Client → Client × ℤ
renew_found now h in_sid (sid, time_out) i info none w = (w, upnp_e_invalid_sid)
renew_found now h in_sid (sid, time_out) i info (some sub) w =
    (keep_renewed now h in_sid sid time_out i info sub w, upnp_e_success)

-- The second locked section. `clientCancelRenew` of the copy, which has no event, does nothing.
abbrev pub renew_answer : ℕ → ℤ → Bytes → Granted → Option (ℕ × HandleInfo) → Client → Client × ℤ
renew_answer now h in_sid answer none w = (w, upnp_e_invalid_handle)
renew_answer now h in_sid (inl code) (some (i, info)) w =
    (put_subs i info (without_sid in_sid info.client_sub_list) w, code)
renew_answer now h in_sid (inr grant) (some (i, info)) w =
    renew_found now h in_sid grant i info (find_if (has_sid in_sid) info.client_sub_list) w

abbrev pub renew_sub :
    Env
    → (Client → Client)
    → ℕ
    → ℤ
    → Bytes
    → ℤ
    → ℕ
    → HandleInfo
    → Option ClientSubscription
    → Client
    → Client × ℤ
renew_sub env between now h in_sid asked i info none w = (w, upnp_e_invalid_sid)
renew_sub env between now h in_sid asked i info (some sub) w =
    let w' = between (stop_renewal i info in_sid sub w) in
    renew_answer now h in_sid
      (gena_subscribe env sub.event_url asked sub.sid info.subs_ops_timeout_ms) (client_subs h w')
      w'

abbrev pub renew_from :
    Env → (Client → Client) → ℕ → ℤ → Bytes → ℤ → Option (ℕ × HandleInfo) → Client → Client × ℤ
renew_from env between now h in_sid asked none w = (w, upnp_e_invalid_handle)
renew_from env between now h in_sid asked (some (i, info)) w =
    renew_sub env between now h in_sid asked i info (find_if (has_sid in_sid) info.client_sub_list)
      w

unfoldable pub gena_renew_subscription :
    Env → (Client → Client) → ℕ → ℤ → Bytes → ℤ → Client → Client × ℤ
unfolding get_client gena_subscribe stop_renewal keep_renewed
gena_renew_subscription env between now h in_sid asked w =
    renew_from env between now h in_sid asked (client_subs h w) w

-- A call of a client's callback for a failed renewal, with what it was registered with: the
-- callback, the cookie, the SID, the code and the URL.
pub record RenewalFailed : Type 0 where
  pub callback : ℕ
  pub cookie : ℕ
  pub sid : Bytes
  pub code : ℤ
  pub url : Bytes

abbrev is_quiet : ℤ → Bool
is_quiet code =
    eqb_ℤ code upnp_e_success || eqb_ℤ code upnp_e_invalid_sid || eqb_ℤ code upnp_e_invalid_handle

abbrev pub failure_call : RenewJob → ℤ → Option (ℕ × HandleInfo) → Option RenewalFailed
failure_call job code none = none
failure_call job code (some (i, info)) =
    if is_quiet code
    then none
    else some (record {
      callback = info.callback;
      cookie = info.cookie;
      sid = job.sid;
      code = code;
      url = job.url;
    })

-- `AutoRenewSubscriptionJobWorker::work`.
unfoldable pub work :
    Env → (Client → Client) → ℕ → RenewJob → Client → Client × Option RenewalFailed
unfolding gena_renew_subscription get_client
work env between now job w =
    let (w', code) = gena_renew_subscription env between now job.handle job.sid job.time_out w in
    (w', failure_call job code (client_subs job.handle w'))
