-- ===== src/WebServer/Paths/Joined.antt =====
-- The result of `remove_dots` in terms of its elements, and the name of a file as the document
-- root followed by elements.
use mathlib.Core.List.{foldl}
use npupnp.Common.{
  ℕ, ◌≡◌, refl, sym, ap, ◌∙◌, Bool, true, false, not, ◌&&◌, List, [], ◌∷◌, ◌++◌, ◌==◌, Bytes,
  last_or, null, pop_back, arith, append_assoc, All,
}
use npupnp.Uri.Dots.{push_element, join}
use npupnp.Uri.Dots.Segments.{segments, IsNormal}
use npupnp.WebServer.Sources.{strip_slashes}

-- The byte does not occur.
abbrev pub lacks : ℕ → Bytes → Bool
lacks b [] = true
lacks b (c ∷ s) = not (c == b) && lacks b s

lacks-append : (b : ℕ) (s t : Bytes) → lacks b s ≡ true → lacks b t ≡ true → lacks b (s ++ t) ≡ true
lacks-append b [] t h k = k
lacks-append b (c ∷ s) t h k = ground (arith, lacks-append b s t)

-- An element of a path below the root.
abbrev pub IsElement : Bytes → Type 0
IsElement elt = IsNormal elt × (lacks b'/' elt ≡ true)

abbrev pub LacksSlash : Bytes → Type 0
LacksSlash elt = lacks b'/' elt ≡ true

pub segments-LacksSlash :
    (cur s : Bytes) → LacksSlash cur → lacks b'?' s ≡ true → All LacksSlash (segments cur s)
segments-LacksSlash cur [] h k = (h, tt)
segments-LacksSlash cur (c ∷ s) h k = ground (
  arith,
  segments-LacksSlash [] s refl,
  segments-LacksSlash (cur ++ c ∷ []) s,
  lacks-append b'/' cur (c ∷ []) h,
)

push_element-LacksSlash :
    (v : List Bytes) (elt : Bytes)
    → All LacksSlash v
    → LacksSlash elt
    → All LacksSlash (push_element v elt)
unfolding push_element
push_element-LacksSlash [] elt h k = ground arith
push_element-LacksSlash (x ∷ v) elt h k = ground arith

pub foldl-LacksSlash :
    (v elts : List Bytes)
    → All LacksSlash v
    → All LacksSlash elts
    → All LacksSlash (foldl push_element v elts)
foldl-LacksSlash v [] h k = h
foldl-LacksSlash v (x ∷ elts) h k =
    foldl-LacksSlash (push_element v x) elts (push_element-LacksSlash v x h k.0) k.1

pub All-IsElement : (v : List Bytes) → All IsNormal v → All LacksSlash v → All IsElement v
All-IsElement [] h k = tt
All-IsElement (x ∷ v) h k = ((h.0, k.0), All-IsElement v h.1 k.1)

-- The name that the elements, the last one first, have under a directory.
abbrev pub below : Bytes → List Bytes → Bytes
below root [] = root
below root (elt ∷ before) = below root before ++ (b'/' ∷ elt)

pub below-join :
    (root : Bytes) (v : List Bytes) → root ++ (b'/' ∷ join v) ≡ below root v ++ (b'/' ∷ [])
unfolding join
below-join root [] = refl
below-join root (elt ∷ v) =
    sym (append_assoc root (b'/' ∷ join v) (elt ++ (b'/' ∷ [])))
    ∙ ap (λ s. s ++ (elt ++ (b'/' ∷ []))) (below-join root v)
    ∙ append_assoc (below root v) (b'/' ∷ []) (elt ++ (b'/' ∷ []))
    ∙ sym (append_assoc (below root v) (b'/' ∷ elt) (b'/' ∷ []))

pub pop_back-slash :
    (s : Bytes) → null s ≡ false → (last_or 0 s == b'/') ≡ true → pop_back s ++ (b'/' ∷ []) ≡ s
unfolding pop_back
pop_back-slash [] h k = cc
pop_back-slash (c ∷ []) h k = ground arith
pop_back-slash (c ∷ d ∷ s) h k = ap (λ r. c ∷ r) (pop_back-slash (d ∷ s) refl k)

pub strip_slashes-slash : (s : Bytes) → strip_slashes (s ++ (b'/' ∷ [])) ≡ strip_slashes s
unfolding strip_slashes
strip_slashes-slash [] = refl
strip_slashes-slash (c ∷ s) = rw (strip_slashes-slash s) refl

pub strip_slashes-id : (d : ℕ) (s : Bytes) → (last_or d s == b'/') ≡ false → strip_slashes s ≡ s
unfolding strip_slashes
strip_slashes-id d [] h = refl
strip_slashes-id d (c ∷ []) h = simp (h) refl
strip_slashes-id d (c ∷ e ∷ s) h = ground (arith, strip_slashes-id c (e ∷ s) h)
