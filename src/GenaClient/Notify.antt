-- ===== src/GenaClient/Notify.antt =====
-- `gena_process_notification_event` of gena_ctrlpt.cpp, with its parser of property sets. The XML
-- parser under it and `trimstring` are arguments. Where the function gives up the handle lock to
-- wait for a subscription that is under way, `between` is what other threads do.
pub mod Known
use npupnp.Common.{
  ℕ, ◌==◌, Bool, true, false, not, ◌||◌, ◌&&◌, Option, none, some, List, [], ◌∷◌, ◌++◌,
  if◌then◌else◌, Bytes, codes, equal, null, find_if, ℤ, pos, eqb_ℤ,
}
use npupnp.HttpUtils.Headers.{find_header, put_header}
use npupnp.HttpUtils.Urls.{has_xml_content_type}
use npupnp.HttpUtils.Quote.{dom_same_name}
use npupnp.GenaDevice.Request.{scan_int}
use npupnp.Handles.{Handles, HandleInfo, ClientSubscription, get_client_handle_info}
use npupnp.GenaClient.Subscriptions.{Client, has_sid}

-- What the XML parser reports: character data, and the end of an element, with the name of the
-- element around it, if there is one.
pub data XmlEvent : Type 0 where
  character_data : Bytes → XmlEvent
  end_element : Option Bytes → Bytes → XmlEvent

abbrev parent_name : Option Bytes → Bytes
parent_name none = codes "root"
parent_name (some name) = name

-- `UPnPPropertysetParser`: the text so far and the properties so far.
unfoldable pub handle_event :
    (Bytes → Bytes → Bytes) → XmlEvent → Bytes × List (Bytes × Bytes) → Bytes × List (Bytes × Bytes)
unfolding dom_same_name
handle_event trimstring (character_data s) (chardata, propdata) = (chardata ++ s, propdata)
handle_event trimstring (end_element parent name) (chardata, propdata) = (
  [],
  if dom_same_name (parent_name parent) (codes "property")
      then put_header name (trimstring (b' ' ∷ 9 ∷ 10 ∷ 13 ∷ []) chardata) propdata
      else propdata,
)

unfoldable pub handle_events :
    (Bytes → Bytes → Bytes)
    → List XmlEvent
    → Bytes × List (Bytes × Bytes)
    → Bytes × List (Bytes × Bytes)
unfolding handle_event
handle_events trimstring [] state = state
handle_events trimstring (e ∷ es) state =
    handle_events trimstring es (handle_event trimstring e state)

-- `parse` gives the events of a document, or `none` if it is not well-formed.
pub record XmlLibrary : Type 0 where
  pub parse : Bytes → Option (List XmlEvent)
  pub trimstring : Bytes → Bytes → Bytes

pub record Notification : Type 0 where
  pub headers : List (Bytes × Bytes)
  pub postdata : Bytes

-- `Upnp_Event`, with the callback that gets it and its cookie.
pub record EventCall : Type 0 where
  pub callback : ℕ
  pub cookie : ℕ
  pub sid : Bytes
  pub event_key : ℤ
  pub changed_variables : List (Bytes × Bytes)

-- The state, the status that is sent, and the call, if one is made.
abbrev pub Notified : Type 0
Notified = Client × ℕ × Option EventCall

abbrev pub refused_with : ℕ → Client → Notified
refused_with status w = (w, status, none)

-- The headers and the body that the function goes on with.
pub record Checked : Type 0 where
  pub sid : Bytes
  pub event_key : ℤ
  pub propset : List (Bytes × Bytes)

-- The first subscription of the client with the SID.
abbrev pub sub_of : Bytes → Option (ℕ × HandleInfo) → Option ClientSubscription
sub_of sid none = none
sub_of sid (some (i, info)) = find_if (has_sid sid) info.client_sub_list

abbrev pub is_there : Option (ℕ × HandleInfo) → Option HandleInfo
is_there none = none
is_there (some (i, info)) = some info

abbrev pub accepted : Checked → HandleInfo → ClientSubscription → EventCall
accepted c info sub = record {
  callback = info.callback;
  cookie = info.cookie;
  sid = sub.sid;
  event_key = c.event_key;
  changed_variables = c.propset;
}

-- The second search.
abbrev pub second_search :
    Checked → Option HandleInfo → Option ClientSubscription → Client → Notified
second_search c (some info) (some sub) w = (w, 200, some (accepted c info sub))
second_search c _ _ w = refused_with 412 w

abbrev pub wait_for_it : (Client → Client) → Checked → Client → Notified
wait_for_it between c w =
    let w' = between w in
    let client = get_client_handle_info w'.handles in
    second_search c (is_there client) (sub_of c.sid client) w'

abbrev pub first_search :
    (Client → Client) → Checked → Option HandleInfo → Option ClientSubscription → Client → Notified
first_search between c none sub w = refused_with 412 w
first_search between c (some info) (some sub) w = (w, 200, some (accepted c info sub))
first_search between c (some info) none w =
    if eqb_ℤ c.event_key (pos 0) then wait_for_it between c w else refused_with 412 w

-- What the checks come to: a status, or what to go on with.
pub data Verdict : Type 0 where
  bad : ℕ → Verdict
  good : Checked → Verdict

abbrev pub parsed : Bytes → ℤ → XmlLibrary → Option (List XmlEvent) → Verdict
parsed sid key xml none = bad 400
parsed sid key xml (some events) = good (record {
  sid = sid;
  event_key = key;
  propset = (handle_events xml.trimstring events ([], [])).1;
})

unfoldable pub check_body : XmlLibrary → Notification → Bytes → ℤ → Verdict
unfolding has_xml_content_type handle_events
check_body xml n sid key =
    if not (has_xml_content_type n.headers) || null n.postdata
    then bad 400
    else parsed sid key xml (xml.parse n.postdata)

unfoldable pub check_types :
    XmlLibrary → Notification → Bytes → ℤ → Option Bytes → Option Bytes → Verdict
unfolding check_body equal
check_types xml n sid key (some nt) (some nts) =
    if not (equal nt (codes "upnp:event")) || not (equal nts (codes "upnp:propchange"))
    then bad 412
    else check_body xml n sid key
check_types xml n sid key _ _ = bad 400

abbrev pub with_key : XmlLibrary → Notification → Bytes → Option ℤ → Verdict
with_key xml n sid none = bad 400
with_key xml n sid (some key) =
    check_types xml n sid key (find_header (codes "nt") n.headers)
      (find_header (codes "nts") n.headers)

abbrev pub check_key : XmlLibrary → Notification → Bytes → Option Bytes → Verdict
check_key xml n sid none = bad 400
check_key xml n sid (some seq) = with_key xml n sid (scan_int seq)

abbrev pub check_sid : XmlLibrary → Notification → Option Bytes → Verdict
check_sid xml n none = bad 412
check_sid xml n (some sid) = check_key xml n sid (find_header (codes "seq") n.headers)

unfoldable pub check_notification : XmlLibrary → Notification → Verdict
unfolding find_header scan_int check_types
check_notification xml n = check_sid xml n (find_header (codes "sid") n.headers)

abbrev pub notified : (Client → Client) → Client → Verdict → Notified
notified between w (bad status) = refused_with status w
notified between w (good c) =
    let client = get_client_handle_info w.handles in
    first_search between c (is_there client) (sub_of c.sid client) w

unfoldable pub gena_process_notification_event :
    XmlLibrary → (Client → Client) → Notification → Client → Notified
unfolding check_notification get_client_handle_info
gena_process_notification_event xml between n w = notified between w (check_notification xml n)
