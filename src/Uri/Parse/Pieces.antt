-- ===== src/Uri/Parse/Pieces.antt =====
-- What `parse_uri` reads as path, query and fragment, and what it writes back.
use npupnp.Common.{
  ℕ, zero, suc, ◌+◌, ◌-◌, ◌≡◌, ◌≢◌, ◌≤◌, ◌<◌, refl, ap, sym, subst, ◌∙◌, ◌⊎◌, inl, inr, Bool-cases,
  Option, none, some, [], ◌∷◌, ◌++◌, if◌then◌else◌, Bytes, index_of, length, take, drop, null,
  ==-refl, ltb, arith, All, append-nil, Option-cases,
}
use npupnp.Uri.HostPort.{Resolver}
use npupnp.Uri.Parse.{Uri, absolute, relative, split_path, parse_uri, parse_scheme, authority}

-- No byte of the text is this one.
abbrev pub Lacks : ℕ → Bytes → Type 0
Lacks b = All λ c. c ≢ b

-- A text that stands behind a marker, if it is there at all.
abbrev pub Marked : ℕ → Bytes → Bytes → Type 0
Marked b text whole = ((text ≡ []) × (whole ≡ [])) ⊎ (whole ≡ b ∷ text)

-- RFC 3986, appendix B: the path ends at the first `?` or `#`, the query at the first `#`.
pub record SplitsAs (s path query fragment : Bytes) : Type 0 where
  pub query_part : Bytes
  pub fragment_part : Bytes
  pub whole : s ≡ path ++ (query_part ++ fragment_part)
  pub query_is : Marked b'?' query query_part
  pub fragment_is : Marked b'#' fragment fragment_part
  pub path_no_question : Lacks b'?' path
  pub path_no_hash : Lacks b'#' path
  pub query_no_hash : Lacks b'#' query

index_of-none : (b : ℕ) (s : Bytes) → index_of b s ≡ none → Lacks b s
unfolding index_of
index_of-none b [] h = tt
index_of-none b (c ∷ s) h = ground (arith, index_of-none b s, λ (e : c ≡ b). ==-refl b)

index_of-some :
    (b i : ℕ) (s : Bytes)
    → index_of b s ≡ some i
    → (s ≡ take i s ++ (b ∷ drop (suc i) s)) × Lacks b (take i s)
unfolding index_of
index_of-some b i [] h = cc
index_of-some b zero (c ∷ s) h = ground arith
index_of-some b (suc i) (c ∷ s) h = ground (arith, index_of-some b i s)

Lacks-take : (b n : ℕ) (s : Bytes) → Lacks b s → Lacks b (take n s)
Lacks-take b zero s h = tt
Lacks-take b (suc n) [] h = tt
Lacks-take b (suc n) (c ∷ s) h = (h.0, Lacks-take b n s h.1)

Lacks-drop : (b n : ℕ) (s : Bytes) → Lacks b s → Lacks b (drop n s)
Lacks-drop b zero s h = h
Lacks-drop b (suc n) [] h = tt
Lacks-drop b (suc n) (c ∷ s) h = Lacks-drop b n s h.1

index_of-drop :
    (b n m : ℕ) (s : Bytes) → index_of b s ≡ some m → n ≤ m → index_of b (drop n s) ≡ some (m - n)
unfolding index_of
index_of-drop b zero m s h l = h ∙ ap some (omega arith)
index_of-drop b (suc n) m [] h l = cc
index_of-drop b (suc n) zero (c ∷ s) h l = absurd (omega arith)
index_of-drop b (suc n) (suc m) (c ∷ s) h l =
    index_of-drop b n m s (ground arith) (omega arith) ∙ ap some (omega arith)

drop-nil : (n : ℕ) → drop {A = ℕ} n [] ≡ []
drop-nil zero = refl
drop-nil (suc n) = refl

drop-drop : (n m : ℕ) (s : Bytes) → drop m (drop n s) ≡ drop (n + m) s
drop-drop zero m s = ap (λ k. drop k s) (omega arith)
drop-drop (suc n) m [] = drop-nil m ∙ sym (drop-nil (suc n + m))
drop-drop (suc n) m (c ∷ s) =
    drop-drop n m s ∙ ap (λ k. drop k (c ∷ s)) {x = suc (n + m)} (omega arith)

take-take : (n m : ℕ) (s : Bytes) → n ≤ m → take n (take m s) ≡ take n s
take-take zero m s h = refl
take-take (suc n) zero s h = absurd (omega arith)
take-take (suc n) (suc m) [] h = refl
take-take (suc n) (suc m) (c ∷ s) h = ap (◌∷◌ c) (take-take n m s (omega arith))

-- A `#` in front of the first `?`.
hash_first :
    (i j : ℕ) (s : Bytes)
    → index_of b'?' s ≡ some i
    → index_of b'#' s ≡ some j
    → j < i
    → SplitsAs s (take j s) [] (drop (suc j) s)
hash_first i j s q h l = record {
  query_part = [];
  fragment_part = b'#' ∷ drop (suc j) s;
  whole = (index_of-some b'#' j s h).0;
  query_is = inl (refl, refl);
  fragment_is = inr refl;
  path_no_question =
      subst (Lacks b'?') (take-take j i s (omega arith))
        (Lacks-take b'?' j (take i s) (index_of-some b'?' i s q).1);
  path_no_hash = (index_of-some b'#' j s h).1;
  query_no_hash = tt;
}

hash_behind :
    (i j : ℕ) (s : Bytes)
    → index_of b'#' s ≡ some j
    → i < j
    → (drop (suc i) s ≡ take (j - i - 1) (drop (suc i) s) ++ (b'#' ∷ drop (suc j) s))
      × Lacks b'#' (take (j - i - 1) (drop (suc i) s))
hash_behind i j s h l =
    let at : index_of b'#' (drop (suc i) s) ≡ some (j - i - 1) =
      index_of-drop b'#' (suc i) j s h l ∙ ap some (omega arith) in
    let (cut, no_hash) = index_of-some b'#' (j - i - 1) (drop (suc i) s) at in
    (
      cut
          ∙ ap (λ d. take (j - i - 1) (drop (suc i) s) ++ (b'#' ∷ d))
              (drop-drop (suc i) (suc (j - i - 1)) s
                ∙ ap (λ k. drop k s) {y = suc j} (omega arith)),
      no_hash,
    )

-- The first `?` in front of the first `#`.
question_first :
    (i j : ℕ) (s : Bytes)
    → index_of b'?' s ≡ some i
    → index_of b'#' s ≡ some j
    → i < j
    → SplitsAs s (take i s) (take (j - i - 1) (drop (suc i) s)) (drop (suc j) s)
question_first i j s q h l = record {
  query_part = b'?' ∷ take (j - i - 1) (drop (suc i) s);
  fragment_part = b'#' ∷ drop (suc j) s;
  whole = (index_of-some b'?' i s q).0 ∙ ap (λ d. take i s ++ (b'?' ∷ d)) (hash_behind i j s h l).0;
  query_is = inr refl;
  fragment_is = inr refl;
  path_no_question = (index_of-some b'?' i s q).1;
  path_no_hash =
      subst (Lacks b'#') (take-take i j s (omega arith))
        (Lacks-take b'#' i (take j s) (index_of-some b'#' j s h).1);
  query_no_hash = (hash_behind i j s h l).1;
}

index_of_ne : (i : ℕ) (s : Bytes) → index_of b'?' s ≡ some i → index_of b'#' s ≡ some i → ⊥
unfolding index_of
index_of_ne i [] q h = cc
index_of_ne zero (c ∷ s) q h = ground arith
index_of_ne (suc i) (c ∷ s) q h = ground (arith, index_of_ne i s)

split_path-SplitsAs :
    (question hash : Option ℕ) (s : Bytes)
    → index_of b'?' s ≡ question
    → index_of b'#' s ≡ hash
    → SplitsAs s
        (split_path question hash s).0
        (split_path question hash s).1
        (split_path question hash s).2
unfolding split_path
split_path-SplitsAs none none s q h = record {
  query_part = [];
  fragment_part = [];
  whole = sym (append-nil s);
  query_is = inl (refl, refl);
  fragment_is = inl (refl, refl);
  path_no_question = index_of-none b'?' s q;
  path_no_hash = index_of-none b'#' s h;
  query_no_hash = tt;
}
split_path-SplitsAs (some i) none s q h = record {
  query_part = b'?' ∷ drop (suc i) s;
  fragment_part = [];
  whole = rw append-nil (index_of-some b'?' i s q).0;
  query_is = inr refl;
  fragment_is = inl (refl, refl);
  path_no_question = (index_of-some b'?' i s q).1;
  path_no_hash = Lacks-take b'#' i s (index_of-none b'#' s h);
  query_no_hash = Lacks-drop b'#' (suc i) s (index_of-none b'#' s h);
}
split_path-SplitsAs none (some j) s q h = record {
  query_part = [];
  fragment_part = b'#' ∷ drop (suc j) s;
  whole = (index_of-some b'#' j s h).0;
  query_is = inl (refl, refl);
  fragment_is = inr refl;
  path_no_question = Lacks-take b'?' j s (index_of-none b'?' s q);
  path_no_hash = (index_of-some b'#' j s h).1;
  query_no_hash = tt;
}
split_path-SplitsAs (some i) (some j) s q h = elim (Bool-cases (ltb j i)) [
  | inl first ↦ rw first (hash_first i j s q h (ground arith))
  | inr later ↦ rw later (
      question_first i j s q h
        (ground (arith, index_of_ne i s, λ (e : i ≡ j). index_of_ne i s q (h ∙ ap some (sym e)))))
]

-- Where the path begins: behind the scheme with its colon, and behind the authority, if any.
abbrev pub scheme_end : Bytes → ℕ
scheme_end s = if null (parse_scheme s) then 0 else length (parse_scheme s) + 1

-- An accepted text splits, from the end of its scheme and authority on, as RFC 3986 says: the
-- path ends at the first `?` or `#`, the query at the first `#`. The URI is absolute just when
-- there is a scheme.
pub parse_uri-SplitsAs :
    (r : Resolver) (s : Bytes) {u : Uri}
    → parse_uri r s ≡ some u
    → (begin : ℕ) × (authority r (scheme_end s) s ≡ some (u.hostport, begin))
      × SplitsAs (drop begin s) u.path u.query u.fragment
      × (u.scheme ≡ parse_scheme s)
      × (u.kind ≡ (if null (parse_scheme s) then relative else absolute))
unfolding parse_uri
parse_uri-SplitsAs r s {u} e = elim (Option-cases (authority r (scheme_end s) s)) [
  | inl bad ↦ absurd (ground (arith, bad))
  | inr ((hp, begin), found) ↦
      let rest : Bytes = drop begin s in
      let three : Bytes × Bytes × Bytes =
        split_path (index_of b'?' rest) (index_of b'#' rest) rest in
      let split : SplitsAs rest three.0 three.1 three.2 =
        split_path-SplitsAs (index_of b'?' rest) (index_of b'#' rest) rest refl refl in
      let path_is : three.0 ≡ u.path = ground (arith, found) in
      let query_is : three.1 ≡ u.query = ground (arith, found) in
      let fragment_is : three.2 ≡ u.fragment = ground (arith, found) in
      (
        begin,
        ground (arith, found),
        rw (← path_is, ← query_is, ← fragment_is) split,
        ground (arith, found),
        ground (arith, found),
      )
]
