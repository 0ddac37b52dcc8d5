-- ===== src/Uri/Escape.antt =====
-- `remove_escaped_chars` of uri.cpp, and `query_encode` of src/utils/httputils.cpp.
use npupnp.Common.{
  ℕ, ◌+◌, ◌-◌, ◌*◌, ◌/◌, ◌%◌, ◌≡◌, ◌<◌, refl, Bool, true, false, ◌||◌, none, some, List, [], ◌∷◌,
  ◌++◌, ◌==◌, ltb, if◌then◌else◌, Bytes, codes, arith, ap, ◌∙◌, All, inl, inr, Bool-cases,
}
use npupnp.Uri.Chars.{h2d, within}

-- What stands for `%` and the two bytes behind it.
unescape : ℕ → ℕ → Bytes
unfolding h2d
unescape b c = elim (h2d b) [
  | some d1 ↦ elim (h2d c) [ some d2 ↦ (d1 * 16 + d2) ∷ [] | none ↦ b'%' ∷ b ∷ c ∷ [] ]
  | none ↦ b'%' ∷ b ∷ c ∷ []
]

-- The loop `i < in.size() - 2` goes on while three bytes are left; the rest is copied.
unfoldable pub remove_escaped_chars : Bytes → Bytes
unfolding unescape
remove_escaped_chars (a ∷ b ∷ c ∷ rest) =
    let one = a ∷ remove_escaped_chars (b ∷ c ∷ rest) in
    let three = unescape b c ++ remove_escaped_chars rest in if a == b'%' then three else one
remove_escaped_chars s = s

-- The entry of the table `h`, for a number below 16.
hex_digit : ℕ → ℕ
hex_digit n = if ltb n 10 then b'0' + n else b'A' + (n - 10)

is_unreserved : ℕ → Bool
is_unreserved c =
    within b'A' b'Z' c
    || within b'a' b'z' c
    || within b'0' b'9' c
    || c == b'*'
    || c == b'-'
    || c == b'.'
    || c == b'_'

encode_byte : ℕ → Bytes
unfolding is_unreserved hex_digit
encode_byte c =
    if is_unreserved c then c ∷ [] else b'%' ∷ hex_digit (c / 16 % 16) ∷ hex_digit (c % 16) ∷ []

-- The loop stops at a zero byte, as the C string does.
unfoldable pub query_encode : Bytes → Bytes
unfolding encode_byte
query_encode [] = []
query_encode (c ∷ s) = let more = encode_byte c ++ query_encode s in if c == 0 then [] else more

remove-plain :
    (a : ℕ) (s : Bytes)
    → (a == b'%') ≡ false
    → remove_escaped_chars (a ∷ s) ≡ a ∷ remove_escaped_chars s
unfolding remove_escaped_chars
remove-plain a [] h = refl
remove-plain a (b ∷ []) h = refl
remove-plain a (b ∷ c ∷ s) h = rw h

h2d-hex_digit : (n : ℕ) → n < 16 → h2d (hex_digit n) ≡ some n
unfolding h2d hex_digit
h2d-hex_digit n h = ground arith

unescape-hex :
    (m n : ℕ) → m < 16 → n < 16 → unescape (hex_digit m) (hex_digit n) ≡ (m * 16 + n) ∷ []
unfolding unescape
unescape-hex m n h k = rw (h2d-hex_digit m h, h2d-hex_digit n k, unescape)

remove-escape :
    (b c : ℕ) (s : Bytes)
    → remove_escaped_chars (b'%' ∷ b ∷ c ∷ s) ≡ unescape b c ++ remove_escaped_chars s
unfolding remove_escaped_chars
remove-escape b c s = refl

remove-hex :
    (m n : ℕ) (s : Bytes)
    → m < 16
    → n < 16
    → remove_escaped_chars (b'%' ∷ hex_digit m ∷ hex_digit n ∷ s)
      ≡ (m * 16 + n) ∷ remove_escaped_chars s
remove-hex m n s h k =
    remove-escape (hex_digit m) (hex_digit n) s
    ∙ ap (λ d. d ++ remove_escaped_chars s) (unescape-hex m n h k)

abbrev pub IsByte : ℕ → Type 0
IsByte c = (0 < c) × (c < 256)

remove-encode_byte :
    (c : ℕ) (s : Bytes)
    → IsByte c
    → remove_escaped_chars (encode_byte c ++ s) ≡ c ∷ remove_escaped_chars s
unfolding encode_byte
remove-encode_byte c s h = elim (Bool-cases (is_unreserved c)) [
  | inl plain ↦ rw plain (remove-plain c s (unfold is_unreserved in ground arith))
  | inr coded ↦ rw coded (
      remove-hex (c / 16 % 16) (c % 16) s (omega arith) (omega arith)
      ∙ ap (λ d. d ∷ remove_escaped_chars s) (omega arith))
]

-- Percent-encoding a text of non-zero bytes and removing the escapes gives the text back.
pub remove_escaped_chars-query_encode :
    (s : Bytes) → All IsByte s → remove_escaped_chars (query_encode s) ≡ s
unfolding query_encode
remove_escaped_chars-query_encode [] h = unfold remove_escaped_chars in refl
remove_escaped_chars-query_encode (c ∷ s) h = elim (Bool-cases (c == 0)) [
  | inl nul ↦ absurd (ground arith)
  | inr ok ↦ rw ok (
      remove-encode_byte c (query_encode s) h.0
      ∙ ap (◌∷◌ c) (remove_escaped_chars-query_encode s h.1))
]

-- A lower-case hexadecimal digit.
abbrev pub is_lower_hex : ℕ → Bool
is_lower_hex c = within b'a' b'f' c

-- An escape that is written with a lower-case digit is not removed: the text keeps it as it is.
pub remove_escaped_chars-lower_hex :
    (b c : ℕ) (s : Bytes)
    → (is_lower_hex b || is_lower_hex c) ≡ true
    → remove_escaped_chars (b'%' ∷ b ∷ c ∷ s) ≡ b'%' ∷ b ∷ c ∷ remove_escaped_chars s
unfolding remove_escaped_chars
remove_escaped_chars-lower_hex b c s h = ground arith

-- A query written again from its names and values, with an ampersand behind each.
unfoldable pub query_pairs : List (Bytes × Bytes) → Bytes
unfolding query_encode
query_pairs [] = []
query_pairs ((name, val) ∷ more) =
    query_encode name ++ codes "=" ++ query_encode val ++ codes "&" ++ query_pairs more
