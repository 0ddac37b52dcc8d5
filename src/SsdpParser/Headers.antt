-- ===== src/SsdpParser/Headers.antt =====
-- How far a round of the loop over the headers reads, and that the parser ends.
use npupnp.Common.{
  ℕ, zero, suc, ◌≤◌, ◌<◌, ◌≡◌, ◌≢◌, refl, none, some, [], ◌∷◌, ◌++◌, Bytes, All, length, drop,
  codes, arith, Option-cases, inl, inr,
}
use npupnp.SsdpParser.{
  Packet, skip_blank, trimright, split_colon, split_eol, assign, header_loop, parse, notify_start,
  msearch_start, response_start, as_request, as_response,
}

abbrev pub crlf : Bytes
crlf = 13 ∷ 10 ∷ []

pub split_eol-append :
    (value rest : Bytes)
    → All (λ c. c ≢ 13) value
    → split_eol (value ++ 13 ∷ 10 ∷ rest) ≡ some (value, rest)
unfolding split_eol
split_eol-append [] rest h = refl
split_eol-append (c ∷ value) rest h = ground (arith, split_eol-append value rest h.1, h.0)

pub split_colon-crlf : split_colon crlf ≡ none
unfolding split_colon
split_colon-crlf = refl

split_colon-shorter :
    (s name rest : Bytes) → split_colon s ≡ some (name, rest) → length rest < length s
unfolding split_colon
split_colon-shorter [] name rest e = ground (arith, e)
split_colon-shorter (c ∷ s) name rest e = elim (Option-cases (split_colon s)) [
  | inl lost ↦ ground (arith, e, lost)
  | inr ((n, r), found) ↦ ground (arith, e, found, split_colon-shorter s n r)
]

split_eol-shorter :
    (s value rest : Bytes) → split_eol s ≡ some (value, rest) → length rest ≤ length s
unfolding split_eol
split_eol-shorter [] value rest e = ground (arith, e)
split_eol-shorter (c ∷ []) value rest e = ground (arith, e)
split_eol-shorter (c ∷ d ∷ s) value rest e = elim (Option-cases (split_eol (d ∷ s))) [
  | inl lost ↦ ground (arith, e, lost)
  | inr ((n, r), found) ↦ ground (arith, e, found, split_eol-shorter (d ∷ s) n r)
]

length-skip_blank : (s : Bytes) → length (skip_blank s) ≤ length s
unfolding skip_blank
length-skip_blank [] = ground arith
length-skip_blank (c ∷ s) = ground (arith, length-skip_blank s)

header_loop-ne-none :
    (fuel : ℕ) (cp : Bytes) (p : Packet) → length cp < fuel → header_loop fuel cp p ≢ none
unfolding header_loop
header_loop-ne-none zero cp p enough = ground arith
header_loop-ne-none (suc fuel) cp p enough = elim (Option-cases (split_colon cp)) [
  | inl lost ↦ ground (arith, lost)
  | inr ((nm, behind), found) ↦ elim (Option-cases (split_eol (skip_blank behind))) [
    | inl lost ↦ ground (arith, found, lost)
    | inr ((value, rest), there) ↦ ground (
      arith,
      found,
      there,
      header_loop-ne-none fuel rest (assign p nm (trimright value)),
      split_colon-shorter cp nm behind found,
      split_eol-shorter (skip_blank behind) value rest there,
      length-skip_blank behind,
    )
  ]
]

length-drop-le : (n : ℕ) (s : Bytes) → length (drop n s) ≤ length s
length-drop-le zero s = ground arith
length-drop-le (suc n) [] = ground arith
length-drop-le (suc n) (c ∷ s) = ground (arith, length-drop-le n s)

-- The parser ends on every packet: the fuel is enough.
pub parse-ne-none : (packet : Bytes) → parse packet ≢ none
unfolding parse
parse-ne-none packet =
    let loop = λ (start : Bytes) (p : Packet).
      header_loop-ne-none (suc (length packet)) (drop (length start) packet) p
        (let d = length-drop-le (length start) packet in omega arith) in
    ground (
      arith,
      loop notify_start (as_request (codes "NOTIFY")),
      loop msearch_start (as_request (codes "M-SEARCH")),
      loop response_start as_response,
    )
