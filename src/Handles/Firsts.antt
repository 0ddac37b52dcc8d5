-- ===== src/Handles/Firsts.antt =====
-- A write to the slot of the first client.
use npupnp.Common.{
  ℕ, suc, ◌+◌, ◌≡◌, sym, ap, subst, ◌∙◌, Bool, true, false, Option, none, some, [], ◌∷◌, set, arith,
  Bool-cases, inl, inr,
}
use npupnp.Handles.{Handles, HandleInfo, is_client, first_slot, get_client_handle_info}

-- Slot `k`, behind the `i` that come before, is the first that passes: another one written to it
-- that passes is the first as well, and the old one written back gives the old slots.
abbrev IsFirstAt : (HandleInfo → Bool) → ℕ → ℕ → HandleInfo → Handles → ℕ → Type 0
IsFirstAt p i j h hs k =
    (j ≡ k + i)
    × (p h ≡ true)
    × ((e : HandleInfo) → p e ≡ true → first_slot p i (set hs k (some e)) ≡ some (j, e))
    × ((e : Option HandleInfo) → set (set hs k e) k (some h) ≡ hs)

first_slot-here :
    (p : HandleInfo → Bool) (i : ℕ) (e : HandleInfo) (hs : Handles)
    → p e ≡ true
    → first_slot p i (some e ∷ hs) ≡ some (i, e)
unfolding first_slot
first_slot-here p i e hs h = ground (arith, h)

first_slot-later :
    (p : HandleInfo → Bool) (i : ℕ) (e : HandleInfo) (hs : Handles)
    → p e ≡ false
    → first_slot p i (some e ∷ hs) ≡ first_slot p (suc i) hs
unfolding first_slot
first_slot-later p i e hs h = ground (arith, h)

pair_fst :
    (a b : ℕ) (x y : HandleInfo)
    → ◌≡◌ {A = Option (ℕ × HandleInfo)} (some (a, x)) (some (b, y))
    → a ≡ b
pair_fst a b x y e = cc

pair_snd :
    (a b : ℕ) (x y : HandleInfo)
    → ◌≡◌ {A = Option (ℕ × HandleInfo)} (some (a, x)) (some (b, y))
    → x ≡ y
pair_snd a b x y e = cc

first_slot-IsFirstAt :
    (p : HandleInfo → Bool) (i j : ℕ) (hs : Handles) (h : HandleInfo)
    → first_slot p i hs ≡ some (j, h)
    → (k : ℕ) × IsFirstAt p i j h hs k
unfolding first_slot
first_slot-IsFirstAt p i j [] h e = absurd (ground (arith, e))
first_slot-IsFirstAt p i j (none ∷ hs) h e =
    let (k, (at, ok, written, back)) = first_slot-IsFirstAt p (suc i) j hs h e in
    (suc k, (omega arith, ok, written, λ v. ap (λ t. none ∷ t) (back v)))
first_slot-IsFirstAt p i j (some x ∷ hs) h e = elim (Bool-cases (p x)) [
  | inl here ↦
      let found : ◌≡◌ {A = Option (ℕ × HandleInfo)} (some (i, x)) (some (j, h)) =
        sym (first_slot-here p i x hs here) ∙ e in
      let same : x ≡ h = pair_snd i j x h found in
      let at : i ≡ j = pair_fst i j x h found in
      (
        0,
        (
          omega arith,
          subst (λ t. p t ≡ true) same here,
          λ y ok. first_slot-here p i y hs ok ∙ ap (λ n. some (n, y)) at,
          λ v. ap (λ t. some t ∷ hs) (sym same),
        ),
      )
  | inr other ↦
      let (k, (at, ok, written, back)) =
        first_slot-IsFirstAt p (suc i) j hs h (sym (first_slot-later p i x hs other) ∙ e) in
      (
        suc k,
        (
          omega arith,
          ok,
          λ y good. first_slot-later p i x (set hs k (some y)) other ∙ written y good,
          λ v. ap (λ t. some x ∷ t) (back v),
        ),
      )
]

-- What `get_client_handle_info` finds is a client. A client written to its slot is found in its
-- place, and the old one written back gives the old table.
abbrev pub IsWritable : ℕ → HandleInfo → Handles → Type 0
IsWritable i info hs =
    (is_client info.htype ≡ true)
    × ((e : HandleInfo)
        → is_client e.htype ≡ true
        → get_client_handle_info (set hs i (some e)) ≡ some (i, e))
    × ((e : Option HandleInfo) → set (set hs i e) i (some info) ≡ hs)

pub get_client_handle_info-IsWritable :
    (i : ℕ) (info : HandleInfo) (hs : Handles)
    → get_client_handle_info hs ≡ some (i, info)
    → IsWritable i info hs
unfolding get_client_handle_info first_slot
get_client_handle_info-IsWritable i info [] e = absurd (ground (arith, e))
get_client_handle_info-IsWritable i info (x ∷ hs) e =
    let (k, (at, ok, written, back)) =
      first_slot-IsFirstAt (λ h. is_client h.htype) 1 i hs info e in
    let one_more : suc k ≡ i = omega arith in
    subst (λ n. IsWritable n info (x ∷ hs)) one_more
      (
        ok,
        λ y good. written y good ∙ ap (λ n. some (n, y)) (sym one_more),
        λ v. ap (λ t. x ∷ t) (back v),
      )
