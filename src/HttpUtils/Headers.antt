-- ===== src/HttpUtils/Headers.antt =====
-- A `std::map` of header names and values: the pairs, with the last write for a name in front.
-- A search of the list by `find_header` is the map's `find`.
use npupnp.Common.{◌≡◌, Option, none, some, List, [], ◌∷◌, ◌++◌, if◌then◌else◌, Bytes, equal, arith}

unfoldable pub find_header : Bytes → List (Bytes × Bytes) → Option Bytes
unfolding equal
find_header name [] = none
find_header name ((n, v) ∷ more) = if equal n name then some v else find_header name more

-- `headers[name] = value`.
abbrev pub put_header : Bytes → Bytes → List (Bytes × Bytes) → List (Bytes × Bytes)
put_header name value headers = (name, value) ∷ headers

-- `headers.insert(first, last)`: a name that is there keeps its value.
abbrev pub insert_headers : List (Bytes × Bytes) → List (Bytes × Bytes) → List (Bytes × Bytes)
insert_headers more headers = headers ++ more

pub find_header-put_header :
    (asked name value : Bytes) (headers : List (Bytes × Bytes))
    → find_header asked (put_header name value headers)
      ≡ (if equal name asked then some value else find_header asked headers)
unfolding find_header
find_header-put_header asked name value headers = ground arith
