-- ===== src/HttpUtils/Methods.antt =====
-- The tables of methods and header names of httputils.cpp.
use npupnp.Common.{
  ℕ, Option, none, some, List, [], ◌∷◌, if◌then◌else◌, Bytes, codes, equal, ℤ, pos, minus_one,
}

-- `http_method_t`.
pub data HttpMethod : Type 0 where
  httpmethod_post httpmethod_mpost httpmethod_subscribe : HttpMethod
  httpmethod_unsubscribe httpmethod_notify httpmethod_get httpmethod_head : HttpMethod
  httpmethod_msearch httpmethod_unknown soapmethod_post httpmethod_simpleget : HttpMethod

-- The value for a key, in a table written as a list.
unfoldable pub lookup {ℓ} : {A : Type ℓ} → Bytes → List (Bytes × A) → Option A
unfolding equal
lookup key [] = none
lookup key ((k, v) ∷ more) = if equal k key then some v else lookup key more

abbrev http_method_table : List (Bytes × HttpMethod)
http_method_table =
    (codes "GET", httpmethod_get)
    ∷ (codes "HEAD", httpmethod_head)
    ∷ (codes "M-POST", httpmethod_mpost)
    ∷ (codes "M-SEARCH", httpmethod_msearch)
    ∷ (codes "NOTIFY", httpmethod_notify)
    ∷ (codes "POST", httpmethod_post)
    ∷ (codes "SUBSCRIBE", httpmethod_subscribe)
    ∷ (codes "UNSUBSCRIBE", httpmethod_unsubscribe)
    ∷ (codes "SMPOST", soapmethod_post)
    ∷ []

unfoldable pub httpmethod_str2enum : Bytes → HttpMethod
unfolding lookup
httpmethod_str2enum methname = elim (lookup methname http_method_table) [
  | none ↦ httpmethod_unknown
  | some m ↦ m
]

abbrev http_header_names : List (Bytes × ℕ)
http_header_names =
    (codes "accept", 25)
    ∷ (codes "accept-charset", 27)
    ∷ (codes "accept-encoding", 26)
    ∷ (codes "accept-language", 28)
    ∷ (codes "accept-ranges", 29)
    ∷ (codes "cache-control", 1)
    ∷ (codes "callback", 2)
    ∷ (codes "content-encoding", 30)
    ∷ (codes "content-language", 31)
    ∷ (codes "content-length", 3)
    ∷ (codes "content-location", 32)
    ∷ (codes "content-range", 33)
    ∷ (codes "content-type", 4)
    ∷ (codes "date", 5)
    ∷ (codes "ext", 6)
    ∷ (codes "host", 7)
    ∷ (codes "if-range", 34)
    ∷ (codes "location", 11)
    ∷ (codes "man", 12)
    ∷ (codes "mx", 13)
    ∷ (codes "nt", 14)
    ∷ (codes "nts", 15)
    ∷ (codes "range", 35)
    ∷ (codes "seq", 17)
    ∷ (codes "server", 16)
    ∷ (codes "sid", 18)
    ∷ (codes "soapaction", 19)
    ∷ (codes "st", 20)
    ∷ (codes "te", 36)
    ∷ (codes "timeout", 21)
    ∷ (codes "transfer-encoding", 22)
    ∷ (codes "user-agent", 24)
    ∷ (codes "usn", 23)
    ∷ []

-- The number of a header's name, which is in lower case; -1 for a name that is not known.
unfoldable pub httpheader_str2int : Bytes → ℤ
unfolding lookup
httpheader_str2int headername = elim (lookup headername http_header_names) [
  | none ↦ minus_one
  | some n ↦ pos n
]

abbrev pub hdr_accept_language : ℤ
hdr_accept_language = pos 28
