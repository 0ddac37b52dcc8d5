-- ===== src/GenaClient/Kept.antt =====
-- A subscription that succeeds is kept in front of the client's list, with its renewal event.
use npupnp.Common.{
  if◌then◌else◌, ℕ, ◌+◌, ◌≡◌, ◌≢◌, ◌⊎◌, inl, inr, some, [], ◌∷◌, ◌++◌, ◌==◌, Bytes, length, ℤ, pos,
  minus_one,
}
use npupnp.ThreadPool.Defs.{med_priority}
use npupnp.Timer.{short_term}
use npupnp.Timer.Ids.{find_event}
use npupnp.Uri.Chars.{upnp_strlcpy}
use npupnp.Uri.Parse.{Uri}
use npupnp.Handles.{HandleInfo, ClientSubscription}
use npupnp.GenaClient.{Granted, upnp_e_success}
use npupnp.GenaClient.Subscriptions.{Client, Subscribed, renewal_time, client_subs}

-- An error has a code other than that of success.
abbrev IsHonest : Granted → Type 0
IsHonest (inl code) = code ≢ upnp_e_success
IsHonest (inr grant) = Unit

-- The renewal of a subscription: none for an infinite time; for another, one event more in the
-- timer, at its time and under a number that no event had, and one job more, which has the SID.
abbrev pub HasRenewal : ℕ → ℤ → ℤ → ClientSubscription → Client → Client → Type 0
HasRenewal now h time_out sub before after =
    ((time_out ≡ minus_one) × (sub.renew_event_id ≡ minus_one) × (after.timer ≡ before.timer))
    ⊎ ((time_out ≢ minus_one)
        × (sub.renew_event_id ≡ pos before.timer.last_event_id)
        × (length after.timer.event_q ≡ length before.timer.event_q + 1)
        × ((j : ℕ)
            → find_event j after.timer.event_q ≡ (
                if before.timer.last_event_id == j
                then some (record {
                  worker = length before.jobs;
                  event_time = renewal_time now time_out;
                  id = before.timer.last_event_id;
                  priority = med_priority;
                  persistence = short_term;
                })
                else find_event j before.timer.event_q))
        × (after.jobs
            ≡ before.jobs
              ++ (record {
                handle = h;
                sid = sub.sid;
                url = (upnp_strlcpy sub.event_url 256).0;
                time_out = time_out;
              }
                  ∷ [])))

-- What the client's entry is after a subscription.
abbrev pub IsKept : ℕ → ℤ → Bytes → Client → Client × Subscribed → Type 0
IsKept now h url before (after, r) =
    (i : ℕ) × (info : HandleInfo) × (sub : ClientSubscription) × (client_subs h before
      ≡ some (i, info))
    × (client_subs h after ≡ some (i, record info { client_sub_list = sub ∷ info.client_sub_list }))
    × (sub.sid ≡ r.out_sid)
    × (sub.event_url ≡ url)
    × HasRenewal now h r.time_out sub before after
