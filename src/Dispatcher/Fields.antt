-- ===== src/Dispatcher/Fields.antt =====
-- The header fields of a request: all values of a name, joined with commas.
use npupnp.Common.{
  ◌≡◌, refl, ap, ◌∙◌, sym, Option, none, some, List, [], ◌∷◌, ◌++◌, if◌then◌else◌, Bytes, codes,
  map, to_lower, equal, equal_iff, arith, append_assoc, append-nil, Option-cases, Bool-cases, inl,
  inr,
}
use npupnp.HttpUtils.Headers.{find_header, find_header-put_header}
use npupnp.Dispatcher.{headers_cb, collect}

-- The values of the fields with this name, in order.
abbrev pub values_of : Bytes → List (Bytes × Bytes) → List Bytes
values_of name [] = []
values_of name ((k, v) ∷ fields) =
    let rest = values_of name fields in if equal (map to_lower k) name then v ∷ rest else rest

-- The values, each with a comma before it.
abbrev pub with_commas : List Bytes → Bytes
with_commas [] = []
with_commas (v ∷ vs) = codes "," ++ v ++ with_commas vs

-- What the values make of the text before.
abbrev pub joined : Option Bytes → List Bytes → Option Bytes
joined none [] = none
joined none (v ∷ vs) = some (v ++ with_commas vs)
joined (some before) vs = some (before ++ with_commas vs)

abbrev added : Option Bytes → Bytes → Bytes
added none value = value
added (some before) value = before ++ codes "," ++ value

joined-added :
    (before : Option Bytes) (v : Bytes) (vs : List Bytes)
    → joined (some (added before v)) vs ≡ joined before (v ∷ vs)
joined-added none v vs = refl
joined-added (some b) v vs = simp append_assoc

joined-nil : (before : Option Bytes) → joined before [] ≡ before
joined-nil none = refl
joined-nil (some b) = ap some (append-nil b)

find_header-headers_cb :
    (name k value : Bytes) (headers : List (Bytes × Bytes))
    → find_header name (headers_cb k value headers) ≡ (
        if equal (map to_lower k) name
        then some (added (find_header name headers) value)
        else find_header name headers)
unfolding headers_cb
find_header-headers_cb name k value headers =
    elim (Option-cases (find_header (map to_lower k) headers)) [
      | inl nothing ↦ ground (
        arith,
        equal_iff (map to_lower k) name,
        find_header-put_header name (map to_lower k) value headers,
      )
      | inr (before, eq) ↦ ground (
        arith,
        equal_iff (map to_lower k) name,
        find_header-put_header name (map to_lower k) (before ++ codes "," ++ value) headers,
      )
    ]

-- A search of the collected headers gives the header's text before, if any, and behind it the
-- values of all fields with this name in lower case, in order and separated by commas; and
-- nothing if there are none.
pub find_header-collect :
    (name : Bytes) (fields headers : List (Bytes × Bytes))
    → find_header name (collect fields headers)
      ≡ joined (find_header name headers) (values_of name fields)
unfolding collect
find_header-collect name [] headers = sym (joined-nil (find_header name headers))
find_header-collect name ((k, v) ∷ fields) headers =
    find_header-collect name fields (headers_cb k v headers)
    ∙ (elim (Bool-cases (equal (map to_lower k) name)) [
      | inl same ↦
          rw (find_header-headers_cb name k v headers, same)
            (joined-added (find_header name headers) v (values_of name fields))
      | inr other ↦ rw (find_header-headers_cb name k v headers, other) refl
    ])
