-- ===== src/HttpUtils/Quote.antt =====
-- `xmlQuote` and `dom_cmp_name` of src/utils/genut.cpp.
use npupnp.Common.{
  ℕ, zero, suc, ◌≡◌, refl, Bool, false, Option, none, some, List, [], ◌∷◌, ◌++◌, ◌==◌,
  if◌then◌else◌, Bytes, codes, equal, starts_with, drop, length, index_of, arith, Bool-cases, inl,
  inr, ◌∙◌, ap,
}

-- What is written for one byte.
quoted : ℕ → Bytes
quoted c =
    if c == b'"'
    then codes "&quot;"
    else if c == b'&'
    then codes "&amp;"
    else if c == b'<'
    then codes "&lt;"
    else if c == b'>'
    then codes "&gt;"
    else if c == b'\''
    then codes "&apos;"
    else c ∷ []

unfoldable pub xml_quote : Bytes → Bytes
unfolding quoted
xml_quote [] = []
xml_quote (c ∷ s) = quoted c ++ xml_quote s

-- `dom_cmp_name(...) == 0`: the name without its namespace.
unfoldable pub dom_same_name : Bytes → Bytes → Bool
unfolding index_of equal
dom_same_name domname name = elim (index_of b':' domname) [
  | none ↦ equal domname name
  | some colon ↦ equal (drop (suc colon) domname) name
]

-- The entities of XML read back, as a parser of XML reads them: a reference definition.
abbrev pub entities : List (Bytes × ℕ)
entities =
    (codes "&quot;", b'"')
    ∷ (codes "&amp;", b'&')
    ∷ (codes "&lt;", b'<')
    ∷ (codes "&gt;", b'>')
    ∷ (codes "&apos;", b'\'')
    ∷ []

-- The entity at the front of a text, with its length.
abbrev pub entity_at : Bytes → List (Bytes × ℕ) → Option (ℕ × ℕ)
entity_at s [] = none
entity_at s ((name, c) ∷ more) =
    if starts_with name s then some (c, length name) else entity_at s more

-- On fuel; a byte that starts no entity stands for itself.
abbrev pub unquote : ℕ → Bytes → Bytes
unquote zero s = []
unquote (suc fuel) [] = []
unquote (suc fuel) (c ∷ s) = elim (entity_at (c ∷ s) entities) [
  | none ↦ c ∷ unquote fuel s
  | some (d, n) ↦ d ∷ unquote fuel (drop n (c ∷ s))
]

entity_at-plain : (c : ℕ) (s : Bytes) → (c == b'&') ≡ false → entity_at (c ∷ s) entities ≡ none
unfolding starts_with
entity_at-plain c s h = ground (arith, h)

unquote-quoted : (fuel c : ℕ) (s : Bytes) → unquote (suc fuel) (quoted c ++ s) ≡ c ∷ unquote fuel s
unfolding quoted starts_with
unquote-quoted fuel c s = elim (Bool-cases (c == b'"')) [
  | inl q ↦ simp (q) (ground (arith, q))
  | inr nq ↦ elim (Bool-cases (c == b'&')) [
    | inl a ↦ simp (nq, a) (ground (arith, a))
    | inr na ↦ elim (Bool-cases (c == b'<')) [
      | inl l ↦ simp (nq, na, l) (ground (arith, l))
      | inr nl ↦ elim (Bool-cases (c == b'>')) [
        | inl g ↦ simp (nq, na, nl, g) (ground (arith, g))
        | inr ng ↦ elim (Bool-cases (c == b'\'')) [
          | inl p ↦ simp (nq, na, nl, ng, p) (ground (arith, p))
          | inr np ↦ simp (nq, na, nl, ng, np) (ground (arith, entity_at-plain c s na))
        ]
      ]
    ]
  ]
]

-- Reading the entities of a quoted text, one step for each of its bytes, gives the text back.
pub unquote-xml_quote : (s : Bytes) → unquote (length s) (xml_quote s) ≡ s
unfolding xml_quote
unquote-xml_quote [] = refl
unquote-xml_quote (c ∷ s) =
    unquote-quoted (length s) c (xml_quote s) ∙ ap (λ t. c ∷ t) (unquote-xml_quote s)
