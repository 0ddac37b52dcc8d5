-- ===== src/GenaClient/Notify/Known.antt =====
-- Only events of known subscriptions reach the client program.
use npupnp.Common.{
  ℕ, ◌≡◌, ◌≢◌, refl, sym, subst, inl, inr, Bool, true, false, Option, none, some, List, [], ◌∷◌,
  Bytes, codes, not, ◌||◌, null, find_if, equal, equal_iff, ℤ, pos, eqb_ℤ, arith, Bool-cases,
  if◌then◌else◌,
}
use npupnp.GenaDevice.Request.{scan_int}
use npupnp.HttpUtils.Headers.{find_header}
use npupnp.HttpUtils.Urls.{has_xml_content_type}
use npupnp.Handles.{HandleInfo, ClientSubscription, get_client_handle_info}
use npupnp.GenaClient.Subscriptions.{Client, has_sid}
use npupnp.GenaClient.Notify.{
  XmlLibrary, Notification, EventCall, Notified, Checked, Verdict, bad, good, sub_of, is_there,
  accepted, second_search, first_search, wait_for_it, notified, check_notification, XmlEvent,
  parsed, check_types, check_body, with_key, check_key, check_sid, gena_process_notification_event,
  refused_with,
}

-- A client's handle of this state has a subscription with the SID of the call, which goes to
-- that client's callback.
abbrev pub IsKnown : Client → EventCall → Type 0
IsKnown w call =
    (i : ℕ) × (info : HandleInfo) × (sub : ClientSubscription) × (get_client_handle_info w.handles
      ≡ some (i, info))
    × (find_if (has_sid call.sid) info.client_sub_list ≡ some sub)
    × (call.callback ≡ info.callback)
    × (call.cookie ≡ info.cookie)

-- The SID and the event key are those of the headers SID and SEQ.
abbrev IsNamed : Notification → Bytes → ℤ → Type 0
IsNamed n sid key =
    (find_header (codes "sid") n.headers ≡ some sid)
    × (seq : Bytes) × (find_header (codes "seq") n.headers ≡ some seq)
    × (scan_int seq ≡ some key)

-- What a notification comes to.
abbrev pub IsAnswered : Notification → Notified → Type 0
IsAnswered n (w, status, none) = status ≢ 200
IsAnswered n (w, status, some call) =
    (status ≡ 200) × IsKnown w call × IsNamed n call.sid call.event_key

find_if-has_sid :
    (sid : Bytes) (subs : List ClientSubscription) (sub : ClientSubscription)
    → find_if (has_sid sid) subs ≡ some sub
    → sub.sid ≡ sid
find_if-has_sid sid [] sub h = cc
find_if-has_sid sid (e ∷ es) sub h = elim (Bool-cases (has_sid sid e)) [
  | inl t ↦ ground (arith, equal_iff e.sid sid, t, h)
  | inr f ↦ find_if-has_sid sid es sub (ground (arith, f, h))
]

accepted-IsKnown :
    (c : Checked) (w : Client) (i : ℕ) (info : HandleInfo) (sub : ClientSubscription)
    → get_client_handle_info w.handles ≡ some (i, info)
    → find_if (has_sid c.sid) info.client_sub_list ≡ some sub
    → IsKnown w (accepted c info sub)
accepted-IsKnown c w i info sub here h = (
  i,
  info,
  sub,
  here,
  subst (λ s. find_if (has_sid s) info.client_sub_list ≡ some sub)
      (sym (find_if-has_sid c.sid info.client_sub_list sub h)) h,
  refl,
  refl,
)

-- The call that `accepted` makes has the names of the checked headers.
accepted-IsNamed :
    (n : Notification) (c : Checked) (info : HandleInfo) (sub : ClientSubscription)
    → IsNamed n c.sid c.event_key
    → find_if (has_sid c.sid) info.client_sub_list ≡ some sub
    → IsNamed n (accepted c info sub).sid (accepted c info sub).event_key
accepted-IsNamed n c info sub named h =
    subst (λ s. IsNamed n s c.event_key) (sym (find_if-has_sid c.sid info.client_sub_list sub h))
      named

module _ (n : Notification) (c : Checked) (named : IsNamed n c.sid c.event_key) where
  second_search-IsAnswered :
      (w : Client) (i : ℕ) (info : HandleInfo) (sub : Option ClientSubscription)
      → get_client_handle_info w.handles ≡ some (i, info)
      → find_if (has_sid c.sid) info.client_sub_list ≡ sub
      → IsAnswered n (second_search c (some info) sub w)
  second_search-IsAnswered w i info none here h = λ e. omega arith
  second_search-IsAnswered w i info (some sub) here h =
      (refl, accepted-IsKnown c w i info sub here h, accepted-IsNamed n c info sub named h)

  second-IsAnswered :
      (w : Client) (client : Option (ℕ × HandleInfo))
      → get_client_handle_info w.handles ≡ client
      → IsAnswered n (second_search c (is_there client) (sub_of c.sid client) w)
  second-IsAnswered w none here = λ e. omega arith
  second-IsAnswered w (some (i, info)) here =
      second_search-IsAnswered w i info (find_if (has_sid c.sid) info.client_sub_list) here refl

  choice-IsAnswered :
      (b : Bool) (x y : Notified)
      → IsAnswered n x
      → IsAnswered n y
      → IsAnswered n (if b then x else y)
  choice-IsAnswered true x y h k = h
  choice-IsAnswered false x y h k = k

  first_search-IsAnswered :
      (between : Client → Client) (w : Client) (i : ℕ) (info : HandleInfo)
      (sub : Option ClientSubscription)
      → get_client_handle_info w.handles ≡ some (i, info)
      → find_if (has_sid c.sid) info.client_sub_list ≡ sub
      → IsAnswered n (first_search between c (some info) sub w)
  first_search-IsAnswered between w i info none here h =
      choice-IsAnswered (eqb_ℤ c.event_key (pos 0)) (wait_for_it between c w) (refused_with 412 w)
        (second-IsAnswered (between w) (get_client_handle_info (between w).handles) refl)
        (λ e. omega arith)
  first_search-IsAnswered between w i info (some sub) here h =
      (refl, accepted-IsKnown c w i info sub here h, accepted-IsNamed n c info sub named h)

  first-IsAnswered :
      (between : Client → Client) (w : Client) (client : Option (ℕ × HandleInfo))
      → get_client_handle_info w.handles ≡ client
      → IsAnswered n (first_search between c (is_there client) (sub_of c.sid client) w)
  first-IsAnswered between w none here = λ e. omega arith
  first-IsAnswered between w (some (i, info)) here =
      first_search-IsAnswered between w i info (find_if (has_sid c.sid) info.client_sub_list) here
        refl

-- A check that fails has a status other than 200; one that passes has read the two headers.
abbrev IsStern : Notification → Verdict → Type 0
IsStern n (bad status) = status ≢ 200
IsStern n (good c) = IsNamed n c.sid c.event_key

choice-IsStern :
    (n : Notification) (b : Bool) (x y : Verdict)
    → IsStern n x
    → IsStern n y
    → IsStern n (if b then x else y)
choice-IsStern n true x y h k = h
choice-IsStern n false x y h k = k

module _ (xml : XmlLibrary) (n : Notification) (sid : Bytes) where
  parsed-IsStern :
      (key : ℤ) (events : Option (List XmlEvent))
      → IsNamed n sid key
      → IsStern n (parsed sid key xml events)
  parsed-IsStern key none named = λ e. omega arith
  parsed-IsStern key (some events) named = named

  check_types-IsStern :
      (key : ℤ) (nt nts : Option Bytes)
      → IsNamed n sid key
      → IsStern n (check_types xml n sid key nt nts)
  unfolding check_types check_body
  check_types-IsStern key none nts named = λ e. omega arith
  check_types-IsStern key (some nt) none named = λ e. omega arith
  check_types-IsStern key (some nt) (some nts) named =
      choice-IsStern n
        (not (equal nt (codes "upnp:event")) || not (equal nts (codes "upnp:propchange"))) (bad 412)
        (check_body xml n sid key) (λ e. omega arith)
        (choice-IsStern n (not (has_xml_content_type n.headers) || null n.postdata) (bad 400)
          (parsed sid key xml (xml.parse n.postdata)) (λ e. omega arith)
          (parsed-IsStern key (xml.parse n.postdata) named))

  module _ (has_sid_header : find_header (codes "sid") n.headers ≡ some sid) where
    with_key-IsStern :
        (seq : Bytes) (key : Option ℤ)
        → find_header (codes "seq") n.headers ≡ some seq
        → scan_int seq ≡ key
        → IsStern n (with_key xml n sid key)
    with_key-IsStern seq none e k = λ same. omega arith
    with_key-IsStern seq (some key) e k = check_types-IsStern key _ _ (has_sid_header, seq, e, k)

    check_key-IsStern :
        (seq : Option Bytes)
        → find_header (codes "seq") n.headers ≡ seq
        → IsStern n (check_key xml n sid seq)
    check_key-IsStern none e = λ same. omega arith
    check_key-IsStern (some seq) e = with_key-IsStern seq (scan_int seq) e refl

check_sid-IsStern :
    (xml : XmlLibrary) (n : Notification) (sid : Option Bytes)
    → find_header (codes "sid") n.headers ≡ sid
    → IsStern n (check_sid xml n sid)
check_sid-IsStern xml n none e = λ same. omega arith
check_sid-IsStern xml n (some sid) e = check_key-IsStern xml n sid e _ refl

notified-IsAnswered :
    (between : Client → Client) (n : Notification) (w : Client) (v : Verdict)
    → IsStern n v
    → IsAnswered n (notified between w v)
notified-IsAnswered between n w (bad status) h = h
notified-IsAnswered between n w (good c) h =
    first-IsAnswered n c h between w (get_client_handle_info w.handles) refl

-- A notification is answered with 200 just when the client program is called. It is called with
-- the SID of the notification's SID header and the event key of its SEQ header, and only if a
-- subscription of a registered client has this SID, in the state that the search was made in;
-- the callback and the cookie are that client's.
pub gena_process_notification_event-IsAnswered :
    (xml : XmlLibrary) (between : Client → Client) (n : Notification) (w : Client)
    → IsAnswered n (gena_process_notification_event xml between n w)
unfolding gena_process_notification_event check_notification
gena_process_notification_event-IsAnswered xml between n w =
    notified-IsAnswered between n w (check_notification xml n) (check_sid-IsStern xml n _ refl)
