-- ===== src/Common/Table.antt =====
-- Association lists over a Boolean key test.
use Prim.Native.Nat.{ℕ, suc}
use mathlib.Core.Bool.{Bool}
use mathlib.Core.Option
use mathlib.Core.List.{List, [], ◌∷◌}
use mathlib.Core.Option.{Option, none, some}
use npupnp.Common.Tests.{if◌then◌else◌}

-- The first entry that passes, as `std::find_if` returns it.
abbrev pub find_if {ℓ} : {A : Type ℓ} → (A → Bool) → List A → Option A
find_if p [] = none
find_if p (x ∷ xs) = if p x then some x else find_if p xs

-- Its position.
abbrev pub find_index {ℓ} : {A : Type ℓ} → (A → Bool) → List A → Option ℕ
find_index p [] = none
find_index p (x ∷ xs) =
    let later = Option.map suc (find_index p xs) in if p x then some 0 else later
