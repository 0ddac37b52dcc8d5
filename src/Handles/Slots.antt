-- ===== src/Handles/Slots.antt =====
-- Handles are given out and taken back: a free slot, never slot 0, and what is read back.
use npupnp.Common.{
  ℕ, zero, suc, ◌+◌, ◌≡◌, ◌≤◌, ◌<◌, ◌≢◌, refl, subst, ◌∙◌, Option, none, some, [], ◌∷◌, ◌==◌,
  if◌then◌else◌, length, All, drop, is_some, get_elem?, set, pos, arith, Option-cases, inl, inr,
}
use npupnp.Handles.{
  HandleInfo, Handles, num_handle, first_null, get_free_handle, free_handle, get_handle_info, slot,
}

first_null-free :
    (i j : ℕ) (hs : Handles)
    → first_null i hs ≡ some j
    → (k : ℕ) × (j ≡ i + k) × (get_elem? hs k ≡ some none) × (k < length hs)
unfolding first_null
first_null-free i j [] e = cc
first_null-free i j (none ∷ hs) e = (0, ground arith, refl, omega arith)
first_null-free i j (some h ∷ hs) e =
    let (k, a, b, c) = first_null-free (suc i) j hs e in (suc k, omega arith, b, omega arith)

first_null-full : (i : ℕ) (hs : Handles) → first_null i hs ≡ none → All (λ h. h ≢ none) hs
unfolding first_null
first_null-full i [] e = tt
first_null-full i (none ∷ hs) e = cc
first_null-full i (some x ∷ hs) e = (λ h. cc, first_null-full (suc i) hs e)

-- What a handle given out is: a free slot other than slot 0; none is given out only if every
-- such slot is taken.
abbrev pub IsFreeHandle : Handles → Option ℕ → Type 0
IsFreeHandle hs (some i) = (1 ≤ i) × (i < length hs) × (get_elem? hs i ≡ some none)
IsFreeHandle hs none = All (λ h. h ≢ none) (drop 1 hs)

-- A handle that is given out is a free slot of the table other than slot 0; none is given out
-- only if no such slot is free.
pub get_free_handle_lem : (hs : Handles) → IsFreeHandle hs (get_free_handle hs)
unfolding get_free_handle
get_free_handle_lem [] = tt
get_free_handle_lem (h ∷ hs) = elim (Option-cases (first_null 1 hs)) [
  | inl full ↦ simp (full) (first_null-full 1 hs full)
  | inr (i, e) ↦
      let (k, a, b, c) = first_null-free 1 i hs e in
      simp (e) (
        omega arith,
        omega arith,
        subst (λ m. get_elem? (h ∷ hs) m ≡ some none) {x = suc k} (omega arith) b,
      )
]

pub get_elem?-set :
    (hs : Handles) (i j : ℕ) (v : Option HandleInfo)
    → i < length hs
    → get_elem? (set hs i v) j ≡ (if i == j then some v else get_elem? hs j)
get_elem?-set [] i j v h = absurd (omega arith)
get_elem?-set (x ∷ hs) zero zero v h = refl
get_elem?-set (x ∷ hs) zero (suc j) v h = ground arith
get_elem?-set (x ∷ hs) (suc i) zero v h = ground arith
get_elem?-set (x ∷ hs) (suc i) (suc j) v h = get_elem?-set hs i j v (omega arith) ∙ ground arith

-- In a table of 200 slots, what is stored under a handle that was given out is read back there,
-- and no other handle changes.
pub get_handle_info-set :
    (hs : Handles) (info : HandleInfo) (i j : ℕ)
    → length hs ≡ num_handle
    → get_free_handle hs ≡ some i
    → get_handle_info (pos j) (set hs i (some info))
      ≡ (if i == j then some (i, info) else get_handle_info (pos j) hs)
unfolding get_handle_info slot
get_handle_info-set hs info i j l e =
    let (a, b, c) : IsFreeHandle hs (some i) = subst (IsFreeHandle hs) e (get_free_handle_lem hs) in
    ground (arith, get_elem?-set hs i j (some info) b)

pub get_elem?-lt :
    (hs : Handles) (i : ℕ) (v : Option HandleInfo) → get_elem? hs i ≡ some v → i < length hs
get_elem?-lt [] i v h = cc
get_elem?-lt (x ∷ hs) zero v h = omega arith
get_elem?-lt (x ∷ hs) (suc i) v h = omega (arith, get_elem?-lt hs i v h)

-- Freeing a handle takes away exactly that handle, and succeeds just when it was there.
pub get_handle_info-free_handle :
    (hs : Handles) (i j : ℕ)
    → (get_handle_info (pos j) (free_handle i hs).0
        ≡ (if i == j then none else get_handle_info (pos j) hs))
      × ((free_handle i hs).1 ≡ is_some (get_handle_info (pos i) hs))
unfolding get_handle_info free_handle slot
get_handle_info-free_handle hs i j = elim (Option-cases (get_elem? hs i)) [
  | inl out ↦ ground (arith, out)
  | inr (v, at) ↦ ground (arith, at, get_elem?-set hs i j none (get_elem?-lt hs i v at))
]
