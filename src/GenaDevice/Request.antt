-- ===== src/GenaDevice/Request.antt =====
-- The request that the handlers read (`MHDTransaction`), the answer that they leave in it, and
-- `timeout_header_value` of src/utils/httputils.cpp.
use npupnp.Common.{
  ℕ, ◌-◌, ◌%◌, ◌^◌, Bool, true, false, not, ◌||◌, Option, none, some, List, ◌==◌, leb,
  if◌then◌else◌, Bytes, codes, equal, map, to_lower, starts_with, span, drop, null, min, ℤ, pos,
  negsuc, minus_one, first_or,
}
use npupnp.HttpUtils.Headers.{find_header}
use npupnp.Uri.Chars.{is_digit, is_space, decimal}
use npupnp.Uri.HostPort.{SockAddr}

-- The names of the headers are in lower case, as in the map of the code.
pub record Request : Type 0 where
  pub url : Bytes
  pub headers : List (Bytes × Bytes)
  pub client_address : SockAddr

abbrev pub has_header : Bytes → Request → Bool
has_header name req = elim (find_header name req.headers) [ none ↦ false | some v ↦ true ]

-- A bare status (`http_SendStatusResponse`), or the answer of `respond_ok`: the SID, the text of
-- the TIMEOUT header and the product version.
pub data Response : Type 0 where
  status : ℕ → Response
  subscribed : Bytes → Bytes → Bytes → Response

abbrev pub http_ok : ℕ
http_ok = 200

abbrev pub http_bad_request : ℕ
http_bad_request = 400

abbrev pub http_not_found : ℕ
http_not_found = 404

abbrev pub http_precondition_failed : ℕ
http_precondition_failed = 412

abbrev pub http_internal_server_error : ℕ
http_internal_server_error = 500

abbrev pub gena_default_timeout : ℤ
gena_default_timeout = pos 1801

-- The integer that a pattern of 32 bits stands for.
unfoldable pub signed32 : ℕ → ℤ
signed32 n = if leb (2 ^ 31) n then negsuc (2 ^ 32 - n - 1) else pos n

digits_value : Bytes → ℕ
unfolding decimal span is_digit
digits_value s = decimal 0 (span is_digit s).0

-- `%d` behind its white space and sign; then the text has to end, or `%1c` matches as well.
unfoldable pub scan_digits : Bool → Bytes → Option ℤ
unfolding digits_value signed32
scan_digits negative s =
    let (digits, rest) = span is_digit s in
    if null digits || not (null rest)
    then none
    else if negative
    then some (signed32 ((2 ^ 64 - min (digits_value s) (2 ^ 63)) % 2 ^ 32))
    else some (signed32 (min (digits_value s) (2 ^ 63 - 1) % 2 ^ 32))

unfoldable pub scan_int : Bytes → Option ℤ
unfolding scan_digits is_space
scan_int s =
    let t : Bytes = (span is_space s).1 in
    if first_or 0 t == b'-'
    then scan_digits true (drop 1 t)
    else if first_or 0 t == b'+'
    then scan_digits false (drop 1 t)
    else scan_digits false t

-- `none` if there is no usable header.
unfoldable pub timeout_header_value : Request → Option ℤ
unfolding scan_int to_lower starts_with equal find_header
timeout_header_value req = elim (find_header (codes "timeout") req.headers) [
  | none ↦ none
  | some v ↦
      let value : Bytes = map to_lower v in
      if equal value (codes "second-infinite")
      then some minus_one
      else if starts_with (codes "second-") value
      then scan_int (drop 7 value)
      else none
]
