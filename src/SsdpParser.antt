-- ===== src/SsdpParser.antt =====
-- src/ssdp/ssdpparser.cpp and src/inc/ssdpparser.h: the parser of SSDP packets. The packet is the
-- C string's bytes, without the end; the fields that point into the buffer are the text there.
pub mod Headers
pub mod Lines
pub mod Print
use npupnp.Common.{
  ℕ, zero, suc, Bool, true, false, ◌&&◌, ◌||◌, Option, none, some, List, [], ◌∷◌, ◌==◌,
  if◌then◌else◌, Bytes, codes, equal, equal_nocase, starts_with, first_or, drop, length, null,
}

pub record Packet : Type 0 where
  pub isresponse : Bool
  pub bootid : Option Bytes
  pub cache_control : Option Bytes
  pub configid : Option Bytes
  pub date : Option Bytes
  pub ext : Bool
  pub host : Option Bytes
  pub location : Option Bytes
  pub man : Option Bytes
  pub method : Option Bytes
  pub mx : Option Bytes
  pub nextbootid : Option Bytes
  pub nt : Option Bytes
  pub nts : Option Bytes
  pub opt : Option Bytes
  pub protocol : Option Bytes
  pub searchport : Option Bytes
  pub server : Option Bytes
  pub st : Option Bytes
  pub status : Option Bytes
  pub url : Option Bytes
  pub user_agent : Option Bytes
  pub usn : Option Bytes
  pub version : Option Bytes

-- The object before `parse`, with the first two writes of `parse`.
abbrev pub fresh_packet : Packet
fresh_packet = record {
  isresponse = false;
  bootid = none;
  cache_control = none;
  configid = none;
  date = none;
  ext = false;
  host = none;
  location = none;
  man = none;
  method = none;
  mx = none;
  nextbootid = none;
  nt = none;
  nts = none;
  opt = none;
  protocol = some (codes "HTTP");
  searchport = none;
  server = none;
  st = none;
  status = none;
  url = none;
  user_agent = none;
  usn = none;
  version = some (codes "1.1");
}

abbrev pub is_blank : ℕ → Bool
is_blank c = c == b' ' || c == 9

-- The loop that skips the blanks behind the colon.
unfoldable pub skip_blank : Bytes → Bytes
skip_blank [] = []
skip_blank (c ∷ s) = let rest = skip_blank s in if is_blank c then rest else c ∷ s

-- `trimright`: the blanks at the end are cut off.
unfoldable pub trimright : Bytes → Bytes
trimright [] = []
trimright (c ∷ s) = let rest = trimright s in if null rest && is_blank c then [] else c ∷ rest

-- `strchr(cp, ':')`: the text in front of the colon, and behind it.
unfoldable pub split_colon : Bytes → Option (Bytes × Bytes)
split_colon [] = none
split_colon (c ∷ s) =
    let later = split_colon s in
    if c == b':'
    then some ([], s)
    else elim later [ none ↦ none | some (before, after) ↦ some (c ∷ before, after) ]

-- `strstr(cp, "\r\n")`: the text in front of the end of line, and behind it.
unfoldable pub split_eol : Bytes → Option (Bytes × Bytes)
split_eol [] = none
split_eol (c ∷ s) =
    let later = split_eol s in
    if c == 13 && first_or 0 s == 10
    then some ([], drop 1 s)
    else elim later [ none ↦ none | some (before, after) ↦ some (c ∷ before, after) ]

abbrev pub is_letter : ℕ → ℕ → ℕ → Bool
is_letter lower upper c = c == lower || c == upper

-- The `switch` on the first letter of the name; a name that is not known changes nothing.
unfoldable pub assign : Packet → Bytes → Bytes → Packet
assign p nm val =
    let first = first_or 0 nm in
    let named = λ (name : Bytes). equal_nocase name nm in
    if is_letter b'b' b'B' first
    then if named (codes "BOOTID.UPNP.ORG") then record p { bootid = some val } else p
    else if is_letter b'c' b'C' first
    then if named (codes "CACHE-CONTROL")
      then record p { cache_control = some val }
      else if named (codes "CONFIGID.UPNP.ORG")
      then record p { configid = some val }
      else p
    else if is_letter b'd' b'D' first
    then if named (codes "DATE") then record p { date = some val } else p
    else if is_letter b'e' b'E' first
    then if named (codes "EXT") then record p { ext = true } else p
    else if is_letter b'h' b'H' first
    then if named (codes "HOST") then record p { host = some val } else p
    else if is_letter b'l' b'L' first
    then if named (codes "LOCATION") then record p { location = some val } else p
    else if is_letter b'm' b'M' first
    then if named (codes "MAN")
      then record p { man = some val }
      else if named (codes "MX")
      then record p { mx = some val }
      else p
    else if is_letter b'n' b'N' first
    then if named (codes "NT")
      then record p { nt = some val }
      else if named (codes "NTS")
      then record p { nts = some val }
      else if named (codes "NEXTBOOTID.UPNP.ORG")
      then record p { nextbootid = some val }
      else p
    else if is_letter b'o' b'O' first
    then if named (codes "OPT") then record p { opt = some val } else p
    else if is_letter b's' b'S' first
    then if named (codes "SERVER")
      then record p { server = some val }
      else if named (codes "ST")
      then record p { st = some val }
      else if named (codes "SEARCHPORT.UPNP.ORG")
      then record p { searchport = some val }
      else p
    else if is_letter b'u' b'U' first
    then if named (codes "USER-AGENT")
      then record p { user_agent = some val }
      else if named (codes "USN")
      then record p { usn = some val }
      else p
    else p

-- The loop over the headers, on fuel; `none` is out of fuel. The Boolean is what `parse` returns.
pub header_loop : ℕ → Bytes → Packet → Option (Bool × Packet)
header_loop zero cp p = none
header_loop (suc fuel) cp p = elim (split_colon cp) [
  | none ↦ some (equal cp (13 ∷ 10 ∷ []), p)
  | some (nm, behind) ↦ elim (split_eol (skip_blank behind)) [
    | none ↦ some (false, p)
    | some (val, rest) ↦ header_loop fuel rest (assign p nm (trimright val))
  ]
]

abbrev pub notify_start : Bytes
notify_start = codes "NOTIFY * HTTP/1.1\r\n"

abbrev pub msearch_start : Bytes
msearch_start = codes "M-SEARCH * HTTP/1.1\r\n"

abbrev pub response_start : Bytes
response_start = codes "HTTP/1.1 200 OK\r\n"

abbrev pub as_request : Bytes → Packet
as_request method = record fresh_packet { method = some method; url = some (codes "*") }

abbrev pub as_response : Packet
as_response = record fresh_packet { isresponse = true; status = some (codes "200") }

-- A header takes at least three bytes, so the packet's size and one more is enough fuel.
unfoldable pub parse : Bytes → Option (Bool × Packet)
parse packet =
    let fuel = suc (length packet) in
    if starts_with notify_start packet
    then header_loop fuel (drop (length notify_start) packet) (as_request (codes "NOTIFY"))
    else if starts_with msearch_start packet
    then header_loop fuel (drop (length msearch_start) packet) (as_request (codes "M-SEARCH"))
    else if starts_with response_start packet
    then header_loop fuel (drop (length response_start) packet) as_response
    else some (false, fresh_packet)
