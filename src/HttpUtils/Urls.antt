-- ===== src/HttpUtils/Urls.antt =====
-- `http_FixStrUrl`, `has_xml_content_type`, `http_SendStatusResponse` and
-- `header_callback_curl` of httputils.cpp. `trimstring` is of the smallut library, and an
-- argument: the characters to trim, then the text.
use npupnp.Common.{
  ℕ, suc, Bool, false, not, ◌||◌, Option, none, some, List, [], ◌∷◌, ◌++◌, if◌then◌else◌, Bytes,
  codes, map, to_lower, equal_nocase, null, index_of, take, drop, starts_with, show_ℕ,
}
use npupnp.Uri.HostPort.{Resolver}
use npupnp.Uri.Parse.{Uri, parse_uri}
use npupnp.HttpUtils.Headers.{find_header, put_header}
use npupnp.HttpUtils.StatusCodes.{http_get_code_text}

-- `none` is `UPNP_E_INVALID_URL`.
unfoldable pub http_fix_str_url : Resolver → Bytes → Option Uri
http_fix_str_url r surl = elim (parse_uri r surl) [
  | none ↦ none
  | some url ↦
      if not (equal_nocase (codes "http") url.scheme) || null url.hostport.text
      then none
      else some (record url { path = if null url.path then b'/' ∷ [] else url.path })
]

-- `strncasecmp` with the eight letters of the type.
unfoldable pub has_xml_content_type : List (Bytes × Bytes) → Bool
unfolding starts_with to_lower
has_xml_content_type headers = elim (find_header (codes "content-type") headers) [
  | none ↦ false
  | some value ↦ starts_with (codes "text/xml") (map to_lower value)
]

-- The page that goes with a bare status.
pub status_body : ℕ → Bytes
unfolding show_ℕ
status_body code =
    codes "<html><body><h1>"
    ++ show_ℕ code
    ++ codes " "
    ++ http_get_code_text code
    ++ codes "</h1></body></html>"

-- A line of an answer's header goes into the map, if there is a colon and a name.
unfoldable pub header_callback_curl :
    (Bytes → Bytes → Bytes) → Bytes → List (Bytes × Bytes) → List (Bytes × Bytes)
header_callback_curl trimstring buffer headers = elim (index_of b':' buffer) [
  | none ↦ headers
  | some colon ↦
      if null (take colon buffer)
      then headers
      else put_header (map to_lower (trimstring (b' ' ∷ 9 ∷ []) (take colon buffer)))
          (trimstring (b' ' ∷ 9 ∷ 13 ∷ 10 ∷ []) (drop (suc colon) buffer)) headers
]
