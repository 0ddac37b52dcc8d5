-- ===== src/SsdpParser/Lines.antt =====
-- The headers that are known, where their values stand, and what the parser makes of them.
use npupnp.Common.{
  ℕ, ◌≡◌, ◌≢◌, ◌<◌, refl, Bool, true, false, Option, none, some, List, [], ◌∷◌, ◌++◌, Bytes, codes,
  set, All, null, length, length-append, equal_nocase, to_lower, first_or, arith,
}
use npupnp.SsdpParser.{Packet, is_blank, skip_blank, trimright, split_colon, assign}
use npupnp.SsdpParser.Headers.{crlf}

-- The headers whose values are kept.
pub data Field : Type 0 where
  in_bootid in_cache_control in_configid in_date in_host in_location in_man in_mx in_nt in_nts
        in_nextbootid in_opt in_server in_st in_searchport in_user_agent in_usn :
      Field

abbrev pub name_of : Field → Bytes
name_of in_bootid = codes "BOOTID.UPNP.ORG"
name_of in_cache_control = codes "CACHE-CONTROL"
name_of in_configid = codes "CONFIGID.UPNP.ORG"
name_of in_date = codes "DATE"
name_of in_host = codes "HOST"
name_of in_location = codes "LOCATION"
name_of in_man = codes "MAN"
name_of in_mx = codes "MX"
name_of in_nt = codes "NT"
name_of in_nts = codes "NTS"
name_of in_nextbootid = codes "NEXTBOOTID.UPNP.ORG"
name_of in_opt = codes "OPT"
name_of in_server = codes "SERVER"
name_of in_st = codes "ST"
name_of in_searchport = codes "SEARCHPORT.UPNP.ORG"
name_of in_user_agent = codes "USER-AGENT"
name_of in_usn = codes "USN"

-- Its place among the values.
abbrev pub place : Field → ℕ
place in_bootid = 0
place in_cache_control = 1
place in_configid = 2
place in_date = 3
place in_host = 4
place in_location = 5
place in_man = 6
place in_mx = 7
place in_nt = 8
place in_nts = 9
place in_nextbootid = 10
place in_opt = 11
place in_server = 12
place in_st = 13
place in_searchport = 14
place in_user_agent = 15
place in_usn = 16

-- The values of a packet: of the headers above, and method, path, status, protocol and version.
abbrev pub values : Packet → List (Option Bytes)
values p =
    p.bootid ∷ p.cache_control ∷ p.configid ∷ p.date ∷ p.host ∷ p.location ∷ p.man ∷ p.mx ∷ p.nt
    ∷ p.nts ∷ p.nextbootid ∷ p.opt ∷ p.server ∷ p.st ∷ p.searchport ∷ p.user_agent ∷ p.usn
    ∷ p.method ∷ p.url ∷ p.status ∷ p.protocol ∷ p.version ∷ []

-- The values with no header read.
abbrev pub first_values : Option Bytes → Option Bytes → Option Bytes → List (Option Bytes)
first_values method url status =
    none
    ∷ none
    ∷ none
    ∷ none
    ∷ none
    ∷ none
    ∷ none
    ∷ none
    ∷ none
    ∷ none
    ∷ none
    ∷ none
    ∷ none
    ∷ none
    ∷ none
    ∷ none
    ∷ none
    ∷ method
    ∷ url
    ∷ status
    ∷ some (codes "HTTP")
    ∷ some (codes "1.1")
    ∷ []

-- A header as it is sent: with blanks in front of its value and behind it.
pub record Line : Type 0 where
  pub field : Field
  pub lead : Bytes
  pub value : Bytes
  pub trail : Bytes

abbrev AreBlanks : Bytes → Type 0
AreBlanks s = All (λ c. is_blank c ≡ true) s

abbrev pub IsLine : Line → Type 0
IsLine l =
    AreBlanks l.lead
    × AreBlanks l.trail
    × All (λ c. c ≢ 13) l.value
    × (null l.value ≡ false)
    × (is_blank (first_or 0 l.value) ≡ false)
    × (trimright l.value ≡ l.value)

abbrev pub print_lines : List Line → Bytes
print_lines [] = crlf
print_lines (l ∷ ls) =
    name_of l.field ++ (b':' ∷ (l.lead ++ ((l.value ++ l.trail) ++ (13 ∷ 10 ∷ print_lines ls))))

-- Each value is written in its place, in the order of the headers.
abbrev pub filled : List (Option Bytes) → List Line → List (Option Bytes)
filled vs [] = vs
filled vs (l ∷ ls) = filled (set vs (place l.field) (some l.value)) ls

pub values-assign :
    (f : Field) (p : Packet) (v : Bytes)
    → values (assign p (name_of f) v) ≡ set (values p) (place f) (some v)
unfolding assign equal_nocase to_lower
values-assign in_bootid p v = refl
values-assign in_cache_control p v = refl
values-assign in_configid p v = refl
values-assign in_date p v = refl
values-assign in_host p v = refl
values-assign in_location p v = refl
values-assign in_man p v = refl
values-assign in_mx p v = refl
values-assign in_nt p v = refl
values-assign in_nts p v = refl
values-assign in_nextbootid p v = refl
values-assign in_opt p v = refl
values-assign in_server p v = refl
values-assign in_st p v = refl
values-assign in_searchport p v = refl
values-assign in_user_agent p v = refl
values-assign in_usn p v = refl

-- What no header above changes.
abbrev pub HasSameKind : Packet → Packet → Type 0
HasSameKind p q = (q.isresponse ≡ p.isresponse) × (q.ext ≡ p.ext)

pub assign-HasSameKind :
    (f : Field) (p : Packet) (v : Bytes) → HasSameKind p (assign p (name_of f) v)
unfolding assign equal_nocase to_lower
assign-HasSameKind in_bootid p v = (refl, refl)
assign-HasSameKind in_cache_control p v = (refl, refl)
assign-HasSameKind in_configid p v = (refl, refl)
assign-HasSameKind in_date p v = (refl, refl)
assign-HasSameKind in_host p v = (refl, refl)
assign-HasSameKind in_location p v = (refl, refl)
assign-HasSameKind in_man p v = (refl, refl)
assign-HasSameKind in_mx p v = (refl, refl)
assign-HasSameKind in_nt p v = (refl, refl)
assign-HasSameKind in_nts p v = (refl, refl)
assign-HasSameKind in_nextbootid p v = (refl, refl)
assign-HasSameKind in_opt p v = (refl, refl)
assign-HasSameKind in_server p v = (refl, refl)
assign-HasSameKind in_st p v = (refl, refl)
assign-HasSameKind in_searchport p v = (refl, refl)
assign-HasSameKind in_user_agent p v = (refl, refl)
assign-HasSameKind in_usn p v = (refl, refl)

pub split_colon-name :
    (f : Field) (rest : Bytes) → split_colon (name_of f ++ (b':' ∷ rest)) ≡ some (name_of f, rest)
unfolding split_colon
split_colon-name in_bootid rest = refl
split_colon-name in_cache_control rest = refl
split_colon-name in_configid rest = refl
split_colon-name in_date rest = refl
split_colon-name in_host rest = refl
split_colon-name in_location rest = refl
split_colon-name in_man rest = refl
split_colon-name in_mx rest = refl
split_colon-name in_nt rest = refl
split_colon-name in_nts rest = refl
split_colon-name in_nextbootid rest = refl
split_colon-name in_opt rest = refl
split_colon-name in_server rest = refl
split_colon-name in_st rest = refl
split_colon-name in_searchport rest = refl
split_colon-name in_user_agent rest = refl
split_colon-name in_usn rest = refl

pub skip_blank-blanks :
    (blanks s : Bytes) → AreBlanks blanks → skip_blank (blanks ++ s) ≡ skip_blank s
unfolding skip_blank
skip_blank-blanks [] s h = refl
skip_blank-blanks (c ∷ blanks) s h = ground (arith, h.0, skip_blank-blanks blanks s h.1)

pub skip_blank-id :
    (s t : Bytes) → null s ≡ false → is_blank (first_or 0 s) ≡ false → skip_blank (s ++ t) ≡ s ++ t
unfolding skip_blank
skip_blank-id [] t some_value h = absurd cc
skip_blank-id (c ∷ s) t some_value h = ground (arith, h)

trimright_blanks : (blanks : Bytes) → AreBlanks blanks → trimright blanks ≡ []
unfolding trimright
trimright_blanks [] h = refl
trimright_blanks (c ∷ blanks) h = ground (arith, h.0, trimright_blanks blanks h.1)

pub trimright-append : (s blanks : Bytes) → AreBlanks blanks → trimright (s ++ blanks) ≡ trimright s
unfolding trimright
trimright-append [] blanks h = trimright_blanks blanks h
trimright-append (c ∷ s) blanks h = ground (arith, trimright-append s blanks h)

pub blanks-ne : (blanks : Bytes) → AreBlanks blanks → All (λ c. c ≢ 13) blanks
blanks-ne [] h = tt
blanks-ne (c ∷ blanks) h = ((λ e. ground (arith, h.0, e)), blanks-ne blanks h.1)

pub print_lines_pos : (ls : List Line) → length ls < length (print_lines ls)
print_lines_pos [] = ground arith
print_lines_pos (l ∷ ls) =
    let rec = print_lines_pos ls in
    let behind : Bytes = (l.value ++ l.trail) ++ (13 ∷ 10 ∷ print_lines ls) in
    let outer = length-append (name_of l.field) (b':' ∷ (l.lead ++ behind)) in
    let middle = length-append l.lead behind in
    let inner = length-append (l.value ++ l.trail) (13 ∷ 10 ∷ print_lines ls) in omega arith

-- What the parser makes of the lines, from the packet with its first line read.
abbrev pub IsRead : List Line → Packet → Option (Bool × Packet) → Type 0
IsRead ls p none = ⊥
IsRead ls p (some (ok, q)) = (ok ≡ true) × (values q ≡ filled (values p) ls) × HasSameKind p q
