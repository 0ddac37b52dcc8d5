-- ===== src/GenaDevice/Callbacks/Brackets.antt =====
-- The texts between brackets that the loop over the CALLBACK header cuts out.
use npupnp.Common.{
  ℕ, suc, ◌-◌, ◌≡◌, refl, sym, ap, subst, ◌∙◌, true, false, none, some, [], ◌∷◌, ◌++◌, ◌==◌, ==_iff,
  leb, Bytes, index_of, take, drop, append_assoc, arith, Option-cases, Bool-cases, inl, inr,
}

-- The text stands in the list between a `<` and the next `>`.
abbrev pub IsBracketed : Bytes → Bytes → Type 0
IsBracketed ulist given =
    (before : Bytes) × (after : Bytes) × (ulist ≡ before ++ (b'<' ∷ (given ++ (b'>' ∷ after))))
    × (index_of b'>' given ≡ none)

index_of-here : (b c : ℕ) (s : Bytes) → (c == b) ≡ true → index_of b (c ∷ s) ≡ some 0
unfolding index_of
index_of-here b c s h = ground (arith, h)

index_of-later :
    (b c : ℕ) (s : Bytes) (i : ℕ)
    → (c == b) ≡ false
    → index_of b (c ∷ s) ≡ some i
    → (j : ℕ) × (i ≡ suc j) × (index_of b s ≡ some j)
unfolding index_of
index_of-later b c s i h e = elim (Option-cases (index_of b s)) [
  | inl lost ↦ absurd (ground (arith, h, e, lost))
  | inr (j, found) ↦ (j, ground (arith, h, e, found), found)
]

-- What stands at the first `b`, and that there is none in front of it.
index_of-split :
    (b i : ℕ) (s : Bytes)
    → index_of b s ≡ some i
    → (s ≡ take i s ++ (b ∷ drop (suc i) s))
      × (drop i s ≡ b ∷ drop (suc i) s)
      × (index_of b (take i s) ≡ none)
unfolding index_of
index_of-split b i [] e = cc
index_of-split b i (c ∷ s) e = elim (Bool-cases (c == b)) [
  | inl here ↦
      let same : c ≡ b = (==_iff c b).0 here in
      let first : 0 ≡ i = ground (arith, index_of-here b c s here, e) in
      subst
        (λ n.
          ((c ∷ s) ≡ take n (c ∷ s) ++ (b ∷ drop (suc n) (c ∷ s)))
          × (drop n (c ∷ s) ≡ b ∷ drop (suc n) (c ∷ s))
          × (index_of b (take n (c ∷ s)) ≡ none))
        first (ap (λ x. x ∷ s) same, ap (λ x. x ∷ s) same, refl)
  | inr other ↦
      let (j, next, found) = index_of-later b c s i other e in
      let (whole, at, clear) = index_of-split b j s found in
      subst
        (λ n.
          ((c ∷ s) ≡ take n (c ∷ s) ++ (b ∷ drop (suc n) (c ∷ s)))
          × (drop n (c ∷ s) ≡ b ∷ drop (suc n) (c ∷ s))
          × (index_of b (take n (c ∷ s)) ≡ none))
        (sym next) (ap (λ t. c ∷ t) whole, at, ground (arith, other, clear))
]

pub url-IsBracketed :
    (ulist before s : Bytes) (i k : ℕ)
    → ulist ≡ before ++ s
    → index_of b'<' s ≡ some i
    → index_of b'>' (drop i s) ≡ some k
    → leb k 1 ≡ false
    → IsBracketed ulist (take (k - 1) (drop (suc i) s))
url-IsBracketed ulist before s i k whole opened closed long =
    let (split, at, clear) = index_of-split b'<' i s opened in
    let t : Bytes = drop (suc i) s in
    let (j, next, found) =
      index_of-later b'>' b'<' t k (ground arith)
        (subst (λ u. index_of b'>' u ≡ some k) at closed) in
    let (rest, stop, inside) = index_of-split b'>' j t found in
    let same : j ≡ k - 1 = omega arith in
    subst (λ n. IsBracketed ulist (take n t)) same
      (
        before ++ take i s,
        drop (suc j) t,
        whole
            ∙ ap (λ u. before ++ u) (split ∙ ap (λ u. take i s ++ (b'<' ∷ u)) rest)
            ∙ sym (append_assoc before (take i s) (b'<' ∷ (take j t ++ (b'>' ∷ drop (suc j) t)))),
        inside,
      )
