-- ===== src/Ssdp/Ctrlpt/Sound.antt =====
-- What the application is told of discovery messages is complete.
use npupnp.Common.{
  ℕ, ◌≡◌, refl, Bool, true, false, not, ◌&&◌, Option, none, some, List, [], ◌∷◌, if◌then◌else◌,
  Bytes, codes, equal, null, All, map, keep, ltb_ℤ, ℤ, pos, arith,
}
use npupnp.SsdpParser.{Packet}
use npupnp.NetIf.{IpAddr}
use npupnp.Handles.{Handles, HandleInfo, SsdpSearchArg, get_client_handle_info}
use npupnp.Ssdp.{Entity, ssdp_request_type}
use npupnp.Ssdp.Ctrlpt.{
  Discovery, Event, advertisement_alive, advertisement_byebye, search_result, search_timeout,
  expires_of, location_of, entity_of_packet, advertised, search_results, matches_search,
  is_ok_status, replied_about, replied, handled, handled_for, ssdp_handle_ctrlpt_msg,
}

-- The lifetime is positive and there is a location.
abbrev pub IsComplete : Discovery → Type 0
IsComplete d = (ltb_ℤ (pos 0) d.expires ≡ true) × (null d.location ≡ false)

abbrev pub says : Bytes → Option Bytes → Bool
says text none = false
says text (some s) = equal s text

-- What the message that an event was made of is like: whether it is an answer, its NTS and its
-- status.
abbrev IsMadeOf : Bool → Option Bytes → Option Bytes → Event → Type 0
IsMadeOf isresponse nts status (advertisement_alive c d k) =
    (isresponse ≡ false) × (says (codes "ssdp:alive") nts ≡ true) × IsComplete d
IsMadeOf isresponse nts status (advertisement_byebye c d k) =
    (isresponse ≡ false) × (says (codes "ssdp:byebye") nts ≡ true)
IsMadeOf isresponse nts status (search_result c d k) =
    (isresponse ≡ true) × (is_ok_status status ≡ true) × IsComplete d
IsMadeOf isresponse nts status (search_timeout c k) = ⊥

abbrev pub IsSound : Packet → Event → Type 0
IsSound p e = IsMadeOf p.isresponse p.nts p.status e

choice-All :
    (P : Event → Type 0) (b : Bool) (x y : List Event)
    → (b ≡ true → All P x)
    → (b ≡ false → All P y)
    → All P (if b then x else y)
choice-All P true x y h k = h refl
choice-All P false x y h k = k refl

and_left : (a b : Bool) → (a && b) ≡ true → a ≡ true
and_left true b h = refl
and_left false b h = h

and_right : (a b : Bool) → (a && b) ≡ true → b ≡ true
and_right true b h = h
and_right false b h = absurd (ground (arith, h))

is_not : (a : Bool) → not a ≡ true → a ≡ false
is_not true h = absurd (ground (arith, h))
is_not false h = refl

advertised-IsMadeOf :
    (resp : Bool) (nts status : Option Bytes) (found : Bool) (c k : ℕ) (d : Discovery)
    → resp ≡ false
    → All (IsMadeOf resp nts status) (advertised nts found c d k)
unfolding advertised
advertised-IsMadeOf resp none status found c k d h = tt
advertised-IsMadeOf resp (some nts) status found c k d h =
    choice-All _ (equal nts (codes "ssdp:alive")) _ _
      (λ alive.
        choice-All _ (found && (not (null d.location) && ltb_ℤ (pos 0) d.expires)) _ _
          (λ ok.
            let both = and_right found _ ok in
            (
              (
                h,
                alive,
                (
                  and_right (not (null d.location)) _ both,
                  is_not _ (and_left (not (null d.location)) _ both),
                ),
              ),
              tt,
            ))
          (λ bad. tt))
      (λ other.
        choice-All _ (equal nts (codes "ssdp:byebye")) _ _
          (λ byebye. choice-All _ found _ _ (λ ok. ((h, byebye), tt)) (λ bad. tt)) (λ bad. tt))

results-IsMadeOf :
    (resp : Bool) (nts status : Option Bytes) (c : ℕ) (d : Discovery)
    (searches : List SsdpSearchArg)
    → (resp ≡ true) × (is_ok_status status ≡ true) × IsComplete d
    → All (IsMadeOf resp nts status) (map (λ s. search_result c d s.cookie) searches)
results-IsMadeOf resp nts status c d [] h = tt
results-IsMadeOf resp nts status c d (s ∷ searches) h =
    (h, results-IsMadeOf resp nts status c d searches h)

replied_about-IsMadeOf :
    (resp : Bool) (nts status : Option Bytes) (st : Bytes) (evt : Option Entity) (usn_found : Bool)
    (c : ℕ) (d : Discovery) (searches : List SsdpSearchArg)
    → resp ≡ true
    → All (IsMadeOf resp nts status) (replied_about status st evt usn_found c d searches)
unfolding replied_about search_results
replied_about-IsMadeOf resp nts status st none usn_found c d searches h = tt
replied_about-IsMadeOf resp nts status st (some evt) usn_found c d searches h =
    choice-All _
      (is_ok_status status && (ltb_ℤ (pos 0) d.expires && (not (null d.location) && usn_found))) _ _
      (λ ok.
        let rest = and_right (is_ok_status status) _ ok in
        let more = and_right (ltb_ℤ (pos 0) d.expires) _ rest in
        results-IsMadeOf resp nts status c d (keep (matches_search st evt.request_type) searches) (
          h,
          and_left (is_ok_status status) _ ok,
          (
            and_left (ltb_ℤ (pos 0) d.expires) _ rest,
            is_not _ (and_left (not (null d.location)) _ more),
          ),
        ))
      (λ bad. tt)

replied-IsMadeOf :
    (resp : Bool) (nts status st : Option Bytes) (usn_found : Bool) (c : ℕ) (d : Discovery)
    (searches : List SsdpSearchArg)
    → resp ≡ true
    → All (IsMadeOf resp nts status) (replied status st usn_found c d searches)
unfolding replied
replied-IsMadeOf resp nts status none usn_found c d searches h = tt
replied-IsMadeOf resp nts status (some st) usn_found c d searches h =
    replied_about-IsMadeOf resp nts status st (ssdp_request_type st) usn_found c d searches h

handled-IsSound :
    (p : Packet) (addr : IpAddr) (info : HandleInfo) (expires : Option ℤ) (location : Option Bytes)
    (entity : Entity × Bool × Bool)
    → All (IsSound p) (handled p addr info expires location entity)
handled-IsSound p addr info none location entity = tt
handled-IsSound p addr info (some expires) none entity = tt
handled-IsSound p addr info (some expires) (some location) (evt, nt_found, usn_found) =
    choice-All _ p.isresponse _ _
      (λ answer.
        replied-IsMadeOf p.isresponse p.nts p.status p.st usn_found info.callback _
          info.ssdp_search_list answer)
      (λ request.
        advertised-IsMadeOf p.isresponse p.nts p.status (nt_found && usn_found) info.callback
          info.cookie _ request)

handled_for-IsSound :
    (scoped : Bytes → IpAddr → Bytes) (p : Packet) (addr : IpAddr) (at : Option (ℕ × HandleInfo))
    → All (IsSound p) (handled_for scoped p addr at)
unfolding handled_for
handled_for-IsSound scoped p addr none = tt
handled_for-IsSound scoped p addr (some (i, info)) =
    handled-IsSound p addr info (expires_of p.cache_control) (location_of scoped p.location addr)
      (entity_of_packet p)

-- Whatever discovery message comes in and whatever the table of handles is, the application is
-- told of an advertisement only by a message that is no answer and has NTS `ssdp:alive`, of a
-- leave only by one that is no answer and has NTS `ssdp:byebye`, and of the result of a search
-- only by an answer with status 200; for an advertisement and for a result the lifetime is
-- positive and the location is not empty. It is never told of a timeout.
pub ssdp_handle_ctrlpt_msg-IsSound :
    (scoped : Bytes → IpAddr → Bytes) (p : Packet) (addr : IpAddr) (hs : Handles)
    → All (IsSound p) (ssdp_handle_ctrlpt_msg scoped p addr hs)
unfolding ssdp_handle_ctrlpt_msg
ssdp_handle_ctrlpt_msg-IsSound scoped p addr hs =
    handled_for-IsSound scoped p addr (get_client_handle_info hs)
