-- ===== src/Ssdp/Packets.antt =====
-- `CreateServicePacket` and its users in src/ssdp/ssdp_device.cpp: the packets for one device. The
-- date, the server's name and the values of the build are arguments.
use npupnp.Common.{
  Bool, ◌||◌, Option, none, some, List, [], ◌∷◌, ◌++◌, if◌then◌else◌, Bytes, codes, show_ℤ, length,
  leb, ℤ, pos, ltb_ℤ,
}

pub data MsgType : Type 0 where
  msgtype_shutdown msgtype_advertisement msgtype_reply : MsgType

-- `nls` is the UUID of the OPT headers, if the build has them.
pub record Agent : Type 0 where
  pub date : Bytes
  pub device_info : Bytes → Bytes
  pub nls : Option Bytes
  pub bootid : ℤ
  pub configid : ℤ

-- What all packets of one device and destination share.
pub record Common : Type 0 where
  pub agent : Agent
  pub is_ipv4 : Bool
  pub power_state : ℤ
  pub sleep_period : ℤ
  pub registration_state : ℤ
  pub prodvers : Bytes

abbrev eol : Bytes
eol = 13 ∷ 10 ∷ []

unfoldable pub header : Bytes → Bytes → Bytes
header name value = name ++ codes ": " ++ value ++ eol

unfoldable pub opt_headers : Option Bytes → Bytes
unfolding header
opt_headers none = []
opt_headers (some uuid) =
    header (codes "OPT") (codes "\"http://schemas.upnp.org/upnp/1/0/\"; ns=01")
    ++ (header (codes "01-NLS") uuid ++ header (codes "X-User-Agent") (codes "redsonic"))

-- `Powerstate` and what follows it.
unfoldable pub end_headers : Common → Bytes
unfolding header show_ℤ
end_headers c =
    (if ltb_ℤ (pos 0) c.power_state
      then header (codes "Powerstate") (show_ℤ c.power_state)
        ++ (header (codes "SleepPeriod") (show_ℤ c.sleep_period)
            ++ header (codes "RegistrationState") (show_ℤ c.registration_state))
      else [])
    ++ (header (codes "BOOTID.UPNP.ORG") (show_ℤ c.agent.bootid)
        ++ (header (codes "CONFIGID.UPNP.ORG") (show_ℤ c.agent.configid) ++ eol))

-- What differs between the packets of a device.
pub record Message : Type 0 where
  pub msg_type : MsgType
  pub nt : Bytes
  pub usn : Bytes
  pub location : Bytes
  pub duration : ℤ

abbrev pub nts_of : MsgType → Bytes
nts_of msgtype_advertisement = codes "ssdp:alive"
nts_of _ = codes "ssdp:byebye"

unfoldable pub notify_packet : Common → Message → Bytes
unfolding header opt_headers end_headers show_ℤ
notify_packet c m =
    codes "NOTIFY * HTTP/1.1"
    ++ eol
    ++ (header (codes "HOST")
          (if c.is_ipv4 then codes "239.255.255.250:1900" else codes "[FF02::C]:1900")
        ++ (header (codes "CACHE-CONTROL") (codes "max-age=" ++ show_ℤ m.duration)
            ++ (header (codes "LOCATION") m.location
                ++ (header (codes "SERVER") (c.agent.device_info c.prodvers)
                    ++ (opt_headers c.agent.nls
                        ++ (header (codes "NT") m.nt
                            ++ (header (codes "NTS") (nts_of m.msg_type)
                                ++ (header (codes "USN") m.usn ++ end_headers c))))))))

unfoldable pub reply_packet : Common → Message → Bytes
unfolding header opt_headers end_headers show_ℤ
reply_packet c m =
    codes "HTTP/1.1 200 OK"
    ++ eol
    ++ (header (codes "CACHE-CONTROL") (codes "max-age=" ++ show_ℤ m.duration)
        ++ (header (codes "DATE") c.agent.date
            ++ (codes "EXT:"
                ++ eol
                ++ (header (codes "LOCATION") m.location
                    ++ (header (codes "SERVER") (c.agent.device_info c.prodvers)
                        ++ (opt_headers c.agent.nls
                            ++ (header (codes "ST") m.nt
                                ++ (header (codes "USN") m.usn ++ end_headers c))))))))

abbrev pub packet_of : Common → Message → MsgType → Bytes
packet_of c m msgtype_reply = reply_packet c m
packet_of c m _ = notify_packet c m

unfoldable pub create_service_packet : Common → Message → Bytes
unfolding notify_packet reply_packet
create_service_packet c m = packet_of c m m.msg_type

-- `snprintf` into 180 bytes; `none` if the text does not fit.
unfoldable pub fitting : Bytes → Option Bytes
fitting s = if leb 180 (length s) then none else some s

unfoldable pub usn_of : Bytes → Bytes → Bytes
usn_of udn nt = udn ++ codes "::" ++ nt

abbrev pub rootdevice : Bytes
rootdevice = codes "upnp:rootdevice"

-- The three messages of a root device, or the two of another; none if a USN is too long.
abbrev messages :
    MsgType → Bytes → Bytes → Bytes → ℤ → Bool → Option Bytes → Option Bytes → List Message
messages t dev_type udn location duration root none _ = []
messages t dev_type udn location duration root (some root_usn) none = []
messages t dev_type udn location duration root (some root_usn) (some type_usn) =
    let message : Bytes → Bytes → Message = λ nt usn. record {
      msg_type = t;
      nt = nt;
      usn = usn;
      location = location;
      duration = duration;
    } in
    let both : List Message = message udn udn ∷ message dev_type type_usn ∷ [] in
    if root then message rootdevice root_usn ∷ both else both

-- `DeviceAdvertisementOrShutdown`. For a device that is not a root, the first USN is not made.
unfoldable pub device_advertisement_or_shutdown :
    MsgType → Bytes → Bool → Bytes → Bytes → ℤ → List Message
unfolding fitting usn_of
device_advertisement_or_shutdown t dev_type root udn location duration =
    messages t dev_type udn location duration root
      (if root then fitting (usn_of udn rootdevice) else some []) (fitting (usn_of udn dev_type))

-- `DeviceReply` also copies the UDN and the type into buffers of 180 bytes.
unfoldable pub device_reply : Bytes → Bool → Bytes → Bytes → ℤ → List Message
unfolding fitting usn_of device_advertisement_or_shutdown
device_reply dev_type root udn location duration =
    if leb 180 (length udn) || leb 180 (length dev_type)
    then []
    else device_advertisement_or_shutdown msgtype_reply dev_type root udn location duration

abbrev one_message : MsgType → Bytes → Bytes → ℤ → Option Bytes → List Message
one_message t nt location duration none = []
one_message t nt location duration (some usn) =
    record { msg_type = t; nt = nt; usn = usn; location = location; duration = duration } ∷ []

-- `SendReply`: one message.
unfoldable pub send_reply : Bytes → Bool → Bytes → Bytes → ℤ → Bool → List Message
unfolding fitting usn_of
send_reply dev_type root udn location duration by_type =
    if root
    then one_message msgtype_reply rootdevice location duration (fitting (usn_of udn rootdevice))
    else if by_type
    then one_message msgtype_reply dev_type location duration (fitting (usn_of udn dev_type))
    else one_message msgtype_reply udn location duration (some udn)

-- `ServiceSend`.
unfoldable pub service_send : MsgType → Bytes → Bytes → Bytes → ℤ → List Message
unfolding fitting usn_of
service_send t serv_type udn location duration =
    one_message t serv_type location duration (fitting (usn_of udn serv_type))
