-- ===== src/Handles/Devices.antt =====
-- The walk over the devices of the table, from one to the next, meets each once.
use npupnp.Common.{
  ℕ, zero, suc, ◌+◌, ◌-◌, ◌≡◌, ◌<◌, refl, ap, ◌∙◌, sym, Option, none, some, List, [], ◌∷◌, length,
  pos, leb, arith, Bool-cases, inl, inr, if◌then◌else◌,
}
use npupnp.Handles.{
  HandleInfo, Handles, num_handle, is_device, first_slot, drop_slots, get_device_handle_info,
}

-- The devices of the entries, counted from `i`: their handles and entries.
abbrev pub devices_from : ℕ → Handles → List (ℕ × HandleInfo)
devices_from i [] = []
devices_from i (none ∷ hs) = devices_from (suc i) hs
devices_from i (some h ∷ hs) =
    let rest = devices_from (suc i) hs in if is_device h.htype then (i, h) ∷ rest else rest

-- What the walk is at: its next device, with the entries behind it; or its end.
abbrev pub IsNext : ℕ → Handles → Option (ℕ × HandleInfo) → Type 0
IsNext i ys none = devices_from i ys ≡ []
IsNext i ys (some (j, h)) =
    (k : ℕ) × (j ≡ i + k)
    × (devices_from i ys ≡ (j, h) ∷ devices_from (suc j) (drop_slots (suc k) ys))
    × (k < length ys)

IsNext-later :
    (i : ℕ) (x : Option HandleInfo) (ys : Handles) (o : Option (ℕ × HandleInfo))
    → devices_from i (x ∷ ys) ≡ devices_from (suc i) ys
    → IsNext (suc i) ys o
    → IsNext i (x ∷ ys) o
IsNext-later i x ys none e h = e ∙ h
IsNext-later i x ys (some (j, d)) e (k, at, eq, lt) = (suc k, omega arith, e ∙ eq, omega arith)

first_slot-IsNext : (i : ℕ) (ys : Handles) → IsNext i ys (first_slot (λ h. is_device h.htype) i ys)
unfolding first_slot
first_slot-IsNext i [] = refl
first_slot-IsNext i (none ∷ ys) = IsNext-later i none ys _ refl (first_slot-IsNext (suc i) ys)
first_slot-IsNext i (some d ∷ ys) = elim (Bool-cases (is_device d.htype)) [
  | inl dev ↦ rw (dev) (0, omega arith, simp (dev), omega arith)
  | inr other ↦ rw (other) (
      IsNext-later i (some d) ys (first_slot (λ h. is_device h.htype) (suc i) ys) (simp (other))
        (first_slot-IsNext (suc i) ys))
]

drop_slots-nil : (n : ℕ) → drop_slots n [] ≡ []
drop_slots-nil zero = refl
drop_slots-nil (suc n) = refl

drop_slots_add :
    (a b c : ℕ) (hs : Handles) → c ≡ b + a → drop_slots a (drop_slots b hs) ≡ drop_slots c hs
drop_slots_add a zero c hs e = ap (λ n. drop_slots n hs) (omega arith)
drop_slots_add a (suc b) c [] e = drop_slots-nil a ∙ sym (drop_slots-nil c)
drop_slots_add a (suc b) zero (h ∷ hs) e = absurd (omega arith)
drop_slots_add a (suc b) (suc c) (h ∷ hs) e = drop_slots_add a b c hs (omega arith)

length-drop_slots : (n : ℕ) (hs : Handles) → length (drop_slots n hs) ≡ length hs - n
length-drop_slots zero hs = omega arith
length-drop_slots (suc n) [] = omega arith
length-drop_slots (suc n) (h ∷ hs) = omega (arith, length-drop_slots n hs)

-- What the walk finds behind `start`, in a table of the right size.
abbrev pub IsStep : ℕ → Handles → Option (ℕ × HandleInfo) → Type 0
IsStep start hs none = devices_from (suc start) (drop_slots (suc start) hs) ≡ []
IsStep start hs (some (j, h)) =
    (start < j)
    × (j < num_handle)
    × (devices_from (suc start) (drop_slots (suc start) hs)
        ≡ (j, h) ∷ devices_from (suc j) (drop_slots (suc j) hs))

IsNext-IsStep :
    (start : ℕ) (hs : Handles) (o : Option (ℕ × HandleInfo))
    → length hs ≡ num_handle
    → IsNext (suc start) (drop_slots (suc start) hs) o
    → IsStep start hs o
IsNext-IsStep start hs none l h = h
IsNext-IsStep start hs (some (j, d)) l (k, at, eq, lt) = (
  omega arith,
  omega (arith, length-drop_slots (suc start) hs),
  eq
      ∙ ap (λ ys. (j, d) ∷ devices_from (suc j) ys)
          (drop_slots_add (suc k) (suc start) (suc j) hs (omega arith)),
)

devices_from-nil : (i : ℕ) (ys : Handles) → length ys ≡ 0 → devices_from i ys ≡ []
devices_from-nil i [] l = refl
devices_from-nil i (y ∷ ys) l = absurd (omega arith)

-- The search behind `start` finds the next device, or there is none.
pub get_device_handle_info-IsStep :
    (start : ℕ) (hs : Handles)
    → length hs ≡ num_handle
    → IsStep start hs (get_device_handle_info (pos start) hs)
unfolding get_device_handle_info
get_device_handle_info-IsStep start hs l = elim (Bool-cases (leb (num_handle - 1) start)) [
  | inl at_end ↦ rw (at_end) (
      devices_from-nil (suc start) (drop_slots (suc start) hs)
        (ground (arith, length-drop_slots (suc start) hs)))
  | inr inside ↦ rw (inside) (
      IsNext-IsStep start hs
        (first_slot (λ h. is_device h.htype) (suc start) (drop_slots (suc start) hs)) l
        (first_slot-IsNext (suc start) (drop_slots (suc start) hs)))
]
