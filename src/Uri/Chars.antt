-- ===== src/Uri/Chars.antt =====
-- The C library's character classes and `atoi` in the C locale, `h2d` of uri.cpp, and
-- `upnp_strlcpy` of src/utils/genut.cpp.
use npupnp.Common.{
  ℕ, zero, suc, ◌+◌, ◌-◌, ◌*◌, ◌%◌, ◌^◌, ◌≡◌, ◌<◌, refl, min, Bool, ◌&&◌, ◌||◌, Option, none, some,
  [], ◌∷◌, ◌==◌, leb, if◌then◌else◌, Bytes, span, length, take, arith, ap,
}

abbrev pub within : ℕ → ℕ → ℕ → Bool
within lo hi c = leb lo c && leb c hi

unfoldable pub is_digit : ℕ → Bool
is_digit c = within b'0' b'9' c

unfoldable pub is_alpha : ℕ → Bool
is_alpha c = within b'a' b'z' c || within b'A' b'Z' c

unfoldable pub is_alnum : ℕ → Bool
unfolding is_digit is_alpha
is_alnum c = is_digit c || is_alpha c

unfoldable pub is_space : ℕ → Bool
is_space c = c == b' ' || within 9 13 c

unfoldable pub decimal : ℕ → Bytes → ℕ
decimal acc [] = acc
decimal acc (c ∷ s) = decimal (acc * 10 + (c - b'0')) s

-- The digits at the head of a text, as a number.
abbrev digits_value : Bytes → ℕ
digits_value s = decimal 0 (span is_digit s).0

-- `strtol` stops at the bounds of its 64-bit result; `atoi` keeps the low 32 bits of it, here as
-- the bit pattern.
atoi_signed : Bytes → ℕ
unfolding decimal is_digit span
atoi_signed [] = 0
atoi_signed (c ∷ s) =
    if c == b'-'
    then (2 ^ 64 - min (digits_value s) (2 ^ 63)) % 2 ^ 32
    else if c == b'+'
    then min (digits_value s) (2 ^ 63 - 1) % 2 ^ 32
    else min (digits_value (c ∷ s)) (2 ^ 63 - 1) % 2 ^ 32

unfoldable pub atoi : Bytes → ℕ
unfolding atoi_signed is_space span
atoi s = atoi_signed (span is_space s).1

-- `none` is the code's -1.
unfoldable pub h2d : ℕ → Option ℕ
h2d c =
    if within b'0' b'9' c
    then some (c - b'0')
    else if within b'A' b'F' c
    then some (10 + (c - b'A'))
    else none

-- The copying loop of `upnp_strlcpy`: what was copied, the rest of the source, and `cnt`.
strlcpy_loop : Bytes → ℕ → Bytes × Bytes × ℕ
strlcpy_loop [] cnt = ([], [], cnt)
strlcpy_loop (c ∷ s) zero = ([], c ∷ s, zero)
strlcpy_loop (c ∷ s) (suc cnt) = let (out, rest, left) = strlcpy_loop s cnt in (c ∷ out, rest, left)

-- The target's text up to its final zero, and the number returned.
unfoldable pub upnp_strlcpy : Bytes → ℕ → Bytes × ℕ
unfolding strlcpy_loop
upnp_strlcpy src dsize =
    if dsize == 0
    then ([], length src + 1)
    else let (out, rest, cnt) = strlcpy_loop src dsize in
      if cnt == 0
      then (take (dsize - 1) out, dsize + length rest - cnt + 1)
      else (out, dsize - cnt + 1)

strlcpy_loop_lem :
    (s : Bytes) (n : ℕ)
    → ((strlcpy_loop s n).0 ≡ take n s)
      × (length (strlcpy_loop s n).1 + n ≡ length s + (strlcpy_loop s n).2)
      × (0 < (strlcpy_loop s n).2 → length (strlcpy_loop s n).1 ≡ 0)
unfolding strlcpy_loop
strlcpy_loop_lem [] zero = (refl, refl, λ _. refl)
strlcpy_loop_lem [] (suc n) = (refl, refl, λ _. refl)
strlcpy_loop_lem (c ∷ s) zero = (refl, omega arith, λ h. elim h [ ])
strlcpy_loop_lem (c ∷ s) (suc n) =
    let ih = strlcpy_loop_lem s n in (ap (◌∷◌ c) ih.0, omega (arith, ih.1), ih.2)

take-take_pred : (n : ℕ) (s : Bytes) → take n (take (suc n) s) ≡ take n s
take-take_pred zero s = refl
take-take_pred (suc n) [] = refl
take-take_pred (suc n) (c ∷ s) = ap (◌∷◌ c) (take-take_pred n s)

take-all : (n : ℕ) (s : Bytes) → length s < suc n → take n s ≡ s
take-all zero [] h = refl
take-all zero (c ∷ s) h = absurd (omega arith)
take-all (suc n) [] h = refl
take-all (suc n) (c ∷ s) h = ap (◌∷◌ c) (take-all n s (omega arith))

take-suc-all : (n : ℕ) (s : Bytes) → length s < suc n → take (suc n) s ≡ take n s
take-suc-all n s h = rw (take-all n s h) (take-all (suc n) s (omega arith))

-- In a buffer with room for one byte and more, `upnp_strlcpy` keeps the longest prefix of the
-- source that leaves room for the final zero, and returns the room that the whole source would
-- need.
pub upnp_strlcpy_lem :
    (src : Bytes) (n : ℕ) → upnp_strlcpy src (suc n) ≡ (take n src, length src + 1)
unfolding upnp_strlcpy
upnp_strlcpy_lem src n =
    ground (arith, strlcpy_loop_lem src (suc n), take-take_pred n src, take-suc-all n src)
