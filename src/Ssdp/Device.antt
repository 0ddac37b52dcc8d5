-- ===== src/Ssdp/Device.antt =====
-- `AdvertiseAndReply` and `ssdp_handle_device_request` of src/ssdp/ssdp_device.cpp: the messages
-- for a device's handle, and the handles that a search reaches. The sockets are arguments.
use npupnp.Common.{
  ℕ, zero, suc, ◌-◌, ◌*◌, ◌%◌, Bool, true, false, not, Option, none, some, List, [], ◌∷◌, ◌++◌, map,
  if◌then◌else◌, Bytes, codes, equal, equal_nocase, length, take, drop, last_index_of, ltb_ℤ, eqb_ℤ,
  max, ℤ, pos, pos_part,
}
use npupnp.Uri.Chars.{atoi}
use npupnp.GenaDevice.Request.{signed32}
use npupnp.Handles.{Handles, HandleInfo, Advert, DeviceDesc, get_device, get_device_handle_info}
use npupnp.Ssdp.{Entity, ssdp_request_type, strstr}
use npupnp.Handles.{
  SearchType, ssdp_all, ssdp_rootdevice, ssdp_deviceudn, ssdp_devicetype, ssdp_service,
}
use npupnp.SsdpParser.{Packet}
use npupnp.Ssdp.Packets.{
  MsgType, msgtype_reply, Message, Common, create_service_packet, device_advertisement_or_shutdown,
  device_reply, send_reply, service_send,
}

-- The number behind the last colon.
unfoldable pub serv_or_dev_vers : Bytes → ℤ
unfolding last_index_of atoi signed32
serv_or_dev_vers s = elim (last_index_of b':' s) [
  | none ↦ pos 0
  | some i ↦ signed32 (atoi (drop (suc i) s))
]

-- Equal up to the last colon of the second text, in any case of the letters.
unfoldable pub same_serv_or_dev_no_vers : Bytes → Bytes → Bool
unfolding last_index_of equal_nocase
same_serv_or_dev_no_vers his mine = elim (last_index_of b':' mine) [
  | none ↦ equal_nocase his mine
  | some i ↦ equal_nocase (take i his) (take i mine)
]

-- The host put in place of the first mark for it.
unfoldable pub replace_lochost : Bytes → Bytes → Bytes → Bytes
unfolding strstr
replace_lochost mark location lochost = elim (strstr location mark) [
  | none ↦ location
  | some rest ↦
      take (length location - length rest) location ++ (lochost ++ drop (length mark) rest)
]

-- A reply for a type that was asked for: with the lower description for a lower version.
unfoldable pub versioned : Bytes → Bytes → Bytes → Bytes → Bytes → ℤ → List Message
unfolding same_serv_or_dev_no_vers serv_or_dev_vers send_reply
versioned asked mine udn location lowerloc exp =
    if not (same_serv_or_dev_no_vers asked mine)
    then []
    else if ltb_ℤ (serv_or_dev_vers asked) (serv_or_dev_vers mine)
    then send_reply asked false udn lowerloc exp true
    else if eqb_ℤ (serv_or_dev_vers asked) (serv_or_dev_vers mine)
    then send_reply asked false udn location exp true
    else []

abbrev pub is_notify_type : MsgType → Bool
is_notify_type msgtype_reply = false
is_notify_type _ = true

-- What is searched for, the two locations and the time that replies hold.
pub record Asked : Type 0 where
  pub entity : Entity
  pub location : Bytes
  pub lowerloc : Bytes
  pub default_exp : ℤ

-- The reply for one device, by the type of the search.
unfoldable pub reply_for_device : Asked → SearchType → DeviceDesc → Bool → List Message
unfolding device_reply send_reply equal_nocase versioned
reply_for_device a ssdp_all dev isroot =
    device_reply dev.device_type isroot dev.udn a.location a.default_exp
reply_for_device a ssdp_rootdevice dev isroot =
    if isroot then send_reply dev.device_type true dev.udn a.location a.default_exp false else []
reply_for_device a ssdp_deviceudn dev isroot =
    if equal_nocase a.entity.udn dev.udn
    then send_reply dev.device_type false dev.udn a.location a.default_exp false
    else []
reply_for_device a ssdp_devicetype dev isroot =
    versioned a.entity.device_type dev.device_type dev.udn a.location a.lowerloc a.default_exp
reply_for_device a _ dev isroot = []

unfoldable pub reply_for_service : Asked → SearchType → Bytes → Bytes → List Message
unfolding service_send versioned
reply_for_service a ssdp_all udn serv_type =
    service_send msgtype_reply serv_type udn a.location a.default_exp
reply_for_service a ssdp_service udn serv_type =
    versioned a.entity.service_type serv_type udn a.location a.lowerloc a.default_exp
reply_for_service a _ udn serv_type = []

-- The groups of messages for one device and its services; each group is one `sendPackets`.
unfoldable pub device_groups : MsgType → ℤ → Asked → Bool → DeviceDesc → List (List Message)
unfolding device_advertisement_or_shutdown service_send reply_for_device reply_for_service
device_groups tp exp a isroot dev =
    if is_notify_type tp
    then device_advertisement_or_shutdown tp dev.device_type isroot dev.udn a.location exp
      ∷ map (λ s. service_send tp s dev.udn a.location exp) dev.services
    else reply_for_device a a.entity.request_type dev isroot
      ∷ map (reply_for_service a a.entity.request_type dev.udn) dev.services

unfoldable pub embedded_groups : MsgType → ℤ → Asked → List DeviceDesc → List (List Message)
unfolding device_groups
embedded_groups tp exp a [] = []
embedded_groups tp exp a (dev ∷ devs) =
    device_groups tp exp a false dev ++ embedded_groups tp exp a devs

-- One copy: the root device, then the embedded ones.
unfoldable pub one_copy : MsgType → ℤ → Asked → Advert → List (List Message)
unfolding device_groups embedded_groups
one_copy tp exp a ad = device_groups tp exp a true ad.root ++ embedded_groups tp exp a ad.embedded

unfoldable pub copies : ℕ → List (List Message) → List (List Message)
copies zero groups = []
copies (suc n) groups = groups ++ copies n groups

-- `NUM_SSDP_COPY`.
abbrev pub num_ssdp_copy : ℕ
num_ssdp_copy = 3

-- `AdvertiseAndReplyOneDest`: the groups, or `none` for a bad handle. `mark` is
-- `g_HostForTemplate`.
unfoldable pub advertise_and_reply_one_dest :
    Bytes → ℤ → MsgType → ℤ → Entity → Bytes → Handles → Option (HandleInfo × List (List Message))
unfolding get_device one_copy copies replace_lochost
advertise_and_reply_one_dest mark hnd tp exp sdata lochost hs = elim (get_device hnd hs) [
  | none ↦ none
  | some (i, info) ↦
      let asked : Asked = record {
        entity = sdata;
        location = replace_lochost mark info.advert.desc_url lochost;
        lowerloc = replace_lochost mark info.advert.lower_desc_url lochost;
        default_exp = info.max_age;
      } in
      some (
        info,
        copies (if is_notify_type tp then num_ssdp_copy else 1) (one_copy tp exp asked info.advert),
      )
]

-- `sendPackets`: the packets that `sendto` is called for, up to the first failure.
unfoldable pub send_packets : (Bytes → Bool) → List Bytes → List Bytes
send_packets sendto [] = []
send_packets sendto (p ∷ ps) =
    let rest = send_packets sendto ps in if sendto p then p ∷ rest else p ∷ []

unfoldable pub send_groups : (Bytes → Bool) → Common → List (List Message) → List Bytes
unfolding send_packets create_service_packet
send_groups sendto c [] = []
send_groups sendto c (g ∷ gs) =
    send_packets sendto (map (create_service_packet c) g) ++ send_groups sendto c gs

-- The loop of `ssdp_handle_device_request` over the devices behind `start`: their handles with
-- their maximal ages. There are fewer devices than the fuel, the size of the table.
unfoldable pub device_loop : ℕ → ℕ → Handles → List (ℕ × ℤ)
unfolding get_device_handle_info
device_loop zero start hs = []
device_loop (suc fuel) start hs = elim (get_device_handle_info (pos start) hs) [
  | none ↦ []
  | some (handle, info) ↦ (handle, info.max_age) ∷ device_loop fuel handle hs
]

-- A reply that is to be sent: at once, or after a delay in milliseconds.
pub record SearchReply : Type 0 where
  pub max_age : ℤ
  pub handle : ℕ
  pub event : Entity
  pub delayms : Option ℕ

-- The delay of the `n`th device: `random` is `rand`, and no MX (or one of 0) is no delay. The
-- product of MX with 1000 stays within 31 bits here.
abbrev delay : (ℕ → ℕ) → ℤ → ℕ → Option ℕ
delay random mx n =
    if eqb_ℤ mx (pos 0) then none else some (random n % (max 1 (pos_part mx) * 1000 - 100))

unfoldable pub scheduled : (ℕ → ℕ) → ℤ → Entity → ℕ → List (ℕ × ℤ) → List SearchReply
scheduled random mx event n [] = []
scheduled random mx event n ((handle, age) ∷ more) =
    record { max_age = age; handle = handle; event = event; delayms = delay random mx n }
    ∷ scheduled random mx event (suc n) more

abbrev mx_of : Option Bytes → ℤ
mx_of none = pos 0
mx_of (some mx) = signed32 (atoi mx)

abbrev is_discover : Option Bytes → Bool
is_discover none = false
is_discover (some man) = equal man (codes "\"ssdp:discover\"")

abbrev pub entity_of : Option Bytes → Option Entity
entity_of none = none
entity_of (some st) = ssdp_request_type st

abbrev pub replies_for : (ℕ → ℕ) → Packet → Handles → Option Entity → List SearchReply
replies_for random p hs none = []
replies_for random p hs (some event) = scheduled random (mx_of p.mx) event 0 (device_loop 200 0 hs)

unfoldable pub ssdp_handle_device_request : (ℕ → ℕ) → Packet → Handles → List SearchReply
unfolding ssdp_request_type equal signed32 atoi scheduled device_loop
ssdp_handle_device_request random p hs =
    if is_discover p.man then replies_for random p hs (entity_of p.st) else []
