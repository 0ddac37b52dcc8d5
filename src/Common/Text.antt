-- ===== src/Common/Text.antt =====
-- Text as a list of byte codes, as `std::string` and C strings are.
use Prim.Native.Char.{code}
use Prim.Native.String.{String}
use Prim.Native.Nat.{ℕ, zero, suc, ◌+◌, ◌/◌, ◌%◌}
use mathlib.Core.Path.{◌≡◌, refl}
use mathlib.Core.Logic.{◌↔◌}
use mathlib.Core.Bool.{Bool, true, false, ◌&&◌}
use mathlib.Core.Option
use mathlib.Core.Option.{Option, none, some}
use mathlib.Core.List.{List, [], ◌∷◌, map}
use native.Mathlib.Omega.{arith}
use npupnp.Common.Tests.{◌==◌, leb, if◌then◌else◌}
use npupnp.Common.Lists.{take, drop, null}

abbrev pub Bytes : Type 0
Bytes = List ℕ

-- The code points of a literal: its bytes, if it is ASCII.
abbrev pub codes : String → Bytes
codes String.[] = []
codes (String.◌∷◌ c s) = code c ∷ codes s

unfoldable pub equal : Bytes → Bytes → Bool
equal [] t = null t
equal (c ∷ s) [] = false
equal (c ∷ s) (d ∷ t) = c == d && equal s t

pub equal_iff : (s t : Bytes) → (equal s t ≡ true) ↔ (s ≡ t)
unfolding equal
equal_iff [] [] = ground arith
equal_iff [] (d ∷ t) = ground arith
equal_iff (c ∷ s) [] = ground arith
equal_iff (c ∷ s) (d ∷ t) = ground (arith, equal_iff s t)

pub equal_refl : (a : Bytes) → equal a a ≡ true
equal_refl a = (equal_iff a a).1 refl

-- `tolower` in the C locale.
unfoldable pub to_lower : ℕ → ℕ
to_lower c = if leb b'A' c && leb c b'Z' then c + 32 else c

-- `strcasecmp(a, b) == 0`.
unfoldable pub equal_nocase : Bytes → Bytes → Bool
unfolding equal to_lower
equal_nocase a b = equal (map to_lower a) (map to_lower b)

-- `strncmp(s, prefix, strlen(prefix)) == 0`.
unfoldable pub starts_with : Bytes → Bytes → Bool
starts_with [] s = true
starts_with (p ∷ ps) [] = false
starts_with (p ∷ ps) (c ∷ s) = p == c && starts_with ps s

-- `strchr` and `std::string::find`: the first position of a byte.
unfoldable pub index_of : ℕ → Bytes → Option ℕ
index_of b [] = none
index_of b (c ∷ s) = let later = Option.map suc (index_of b s) in if c == b then some 0 else later

-- `std::string::rfind`: the last position of a byte.
unfoldable pub last_index_of : ℕ → Bytes → Option ℕ
last_index_of b [] = none
last_index_of b (c ∷ s) = elim (last_index_of b s) [
  | some i ↦ some (suc i)
  | none ↦ if c == b then some 0 else none
]

-- `std::string::back`, with a default for the empty text.
abbrev pub last_or : ℕ → Bytes → ℕ
last_or d [] = d
last_or d (c ∷ s) = last_or c s

abbrev pub first_or : ℕ → Bytes → ℕ
first_or d [] = d
first_or d (c ∷ s) = c

-- `std::string::pop_back`.
unfoldable pub pop_back : Bytes → Bytes
pop_back [] = []
pop_back (c ∷ []) = []
pop_back (c ∷ d ∷ s) = c ∷ pop_back (d ∷ s)

-- `std::string::substr(from, n)`.
abbrev pub substr : Bytes → ℕ → ℕ → Bytes
substr s from n = take n (drop from s)

-- The longest prefix of bytes that pass, and what follows it.
unfoldable pub span : (ℕ → Bool) → Bytes → Bytes × Bytes
span p [] = ([], [])
span p (c ∷ s) = let (a, b) = span p s in if p c then (c ∷ a, b) else ([], c ∷ s)

-- The decimal digits of a number, as `operator<<` writes them. There are fewer digits than the
-- fuel, one more than the number.
show_loop : ℕ → ℕ → Bytes → Bytes
show_loop zero n acc = acc
show_loop (suc fuel) n acc =
    let digits = (b'0' + n % 10) ∷ acc in
    let more = show_loop fuel (n / 10) digits in if n / 10 == 0 then digits else more

unfoldable pub show_ℕ : ℕ → Bytes
unfolding show_loop
show_ℕ n = show_loop (suc n) n []
