-- ===== src/Uri/Dots/Segments.antt =====
-- `remove_dots` against a fold over the path's segments.
use mathlib.Core.List.{foldl}
use npupnp.Common.{
  ℕ, zero, suc, ◌+◌, ◌≡◌, ◌≢◌, ◌<◌, refl, true, false, ◌||◌, some, List, [], ◌∷◌, ◌++◌, ◌==◌,
  if◌then◌else◌, Bytes, codes, equal_iff, span, length, drop, first_or, null, arith, append_assoc,
  All, append-nil,
}
use npupnp.Uri.Dots.{push_element, not_marker, dots_loop, remove_dots, rebuild, ends_with_slash}

-- The text split at each slash; from a question mark on nothing is split. `cur` is the segment
-- read so far.
abbrev pub segments : Bytes → Bytes → List Bytes
segments cur [] = cur ∷ []
segments cur (c ∷ s) =
    let split = cur ∷ segments [] s in
    let more = segments (cur ++ c ∷ []) s in
    if c == b'/' then split else if c == b'?' then (cur ++ (c ∷ s)) ∷ [] else more

-- The segments in terms of the first marker.
abbrev by_span : Bytes → Bytes → Bytes → Bytes → List Bytes
by_span cur s elt behind =
    if null behind || first_or 0 behind == b'?'
    then (cur ++ s) ∷ []
    else (cur ++ elt) ∷ segments [] (drop 1 behind)

segments-span :
    (cur s : Bytes) → segments cur s ≡ by_span cur s (span not_marker s).0 (span not_marker s).1
unfolding span
segments-span cur [] = simp append-nil
segments-span cur (c ∷ s) = ground (
  arith,
  append-nil cur,
  segments-span (cur ++ c ∷ []) s,
  append_assoc cur (c ∷ []) s,
  append_assoc cur (c ∷ []) (span not_marker s).0,
)

push_element-nil : (v : List Bytes) → push_element v [] ≡ v
unfolding push_element
push_element-nil v = refl

segments-at_slash :
    (behind : Bytes)
    → first_or 0 behind ≡ b'/'
    → segments [] behind ≡ [] ∷ segments [] (drop 1 behind)
segments-at_slash [] h = absurd (omega arith)
segments-at_slash (c ∷ s) h = ground arith

span-length : (s : Bytes) → length (span not_marker s).0 + length (span not_marker s).1 ≡ length s
unfolding span
span-length [] = refl
span-length (c ∷ s) = ground (arith, span-length s)

-- What stands behind the span is a marker.
span-stops :
    (s : Bytes)
    → null (span not_marker s).1 ≡ false
    → (first_or 0 (span not_marker s).1 == b'?') ≡ false
    → first_or 0 (span not_marker s).1 ≡ b'/'
unfolding span
span-stops [] h k = cc
span-stops (c ∷ s) h k = ground (arith, span-stops s)

length-drop_one : (s : Bytes) → null s ≡ false → length (drop 1 s) + 1 ≡ length s
length-drop_one [] h = cc
length-drop_one (c ∷ s) h = omega arith

length-pos : (s : Bytes) → null s ≡ false → 0 < length s
length-pos [] h = cc
length-pos (c ∷ s) h = omega arith

null-eq : (s : Bytes) → null s ≡ true → s ≡ []
null-eq [] h = refl
null-eq (c ∷ s) h = cc

-- With more fuel than bytes, the loop is the fold over the segments.
pub dots_loop-segments :
    (fuel : ℕ) (s : Bytes) (v : List Bytes)
    → length s < fuel
    → dots_loop fuel s v ≡ some (foldl push_element v (segments [] s))
unfolding dots_loop
dots_loop-segments zero s v h = absurd (omega arith)
dots_loop-segments (suc fuel) s v h =
    let behind : Bytes = (span not_marker s).1 in
    ground (
      arith,
      segments-span [] s,
      push_element-nil v,
      push_element-nil (push_element v (span not_marker s).0),
      null-eq (span not_marker s).0,
      segments-at_slash behind,
      span-length s,
      span-stops s,
      length-drop_one behind,
      length-pos (span not_marker s).0,
      dots_loop-segments fuel (drop 1 behind) v,
      dots_loop-segments fuel behind (push_element v (span not_marker s).0),
    )

-- An element that a path without dot segments may have.
abbrev pub IsNormal : Bytes → Type 0
IsNormal elt = (elt ≢ []) × (elt ≢ codes ".") × (elt ≢ codes "..")

push_element-IsNormal :
    (v : List Bytes) (elt : Bytes) → All IsNormal v → All IsNormal (push_element v elt)
unfolding push_element
push_element-IsNormal [] elt h =
    ground (arith, equal_iff elt (codes "."), equal_iff elt (codes ".."), null-eq elt)
push_element-IsNormal (x ∷ v) elt h =
    ground (arith, equal_iff elt (codes "."), equal_iff elt (codes ".."), null-eq elt)

foldl-IsNormal :
    (v : List Bytes) (elts : List Bytes) → All IsNormal v → All IsNormal (foldl push_element v elts)
foldl-IsNormal v [] h = h
foldl-IsNormal v (x ∷ elts) h = foldl-IsNormal (push_element v x) elts (push_element-IsNormal v x h)

-- For a path that is not empty, `remove_dots` gives a result. It is built from the path's
-- segments by one fold, in which an empty segment and `.` count for nothing and `..` takes back
-- the segment before, if any; no element that it is built from is empty, `.` or `..`.
pub remove_dots-segments :
    (s : Bytes)
    → s ≢ []
    → (remove_dots s
        ≡ some (
            rebuild
              (first_or 0 s == b'/')
              (ends_with_slash s)
              (foldl push_element [] (segments [] s))))
      × All IsNormal (foldl push_element [] (segments [] s))
unfolding remove_dots
remove_dots-segments [] h = absurd (h refl)
remove_dots-segments (c ∷ s) h = (
  rw (dots_loop-segments (suc (length (c ∷ s))) (c ∷ s) [] (omega arith), remove_dots) refl,
  foldl-IsNormal [] (segments [] (c ∷ s)) tt,
)
