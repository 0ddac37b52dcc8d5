-- ===== src/Uri/Dots/Cleaned.antt =====
-- `remove_dots` against a description that reads the segments from the last one to the first.
use mathlib.Core.List.{foldl}
use npupnp.Common.{
  ℕ, zero, suc, ◌-◌, ◌≡◌, ◌≤◌, refl, sym, ap, ◌∙◌, Bool, true, false, not, ◌||◌, ◌&&◌, some, List,
  [], ◌∷◌, ◌++◌, ◌==◌, ltb, if◌then◌else◌, Bytes, codes, equal, length, drop, first_or, last_or,
  null, pop_back, arith, append_assoc, append-nil, length-append, All,
}
use npupnp.Uri.Dots.{drop_head, push_element, from_end, ends_with_slash, join, rebuild, remove_dots}
use npupnp.Uri.Dots.Segments.{segments, IsNormal, remove_dots-segments}

abbrev backwards : List Bytes → List Bytes
backwards [] = []
backwards (x ∷ xs) = backwards xs ++ (x ∷ [])

-- The segments that are left, from the last to the first, where `n` segments are still to be
-- taken back: an empty one and `.` count for nothing, and `..` takes back one more.
abbrev pub survivors : ℕ → List Bytes → List Bytes
survivors n [] = []
survivors zero (x ∷ xs) =
    let passed = survivors 0 xs in
    let more = survivors 1 xs in
    if null x || equal x (codes ".")
    then passed
    else if equal x (codes "..")
    then more
    else x ∷ passed
survivors (suc n) (x ∷ xs) =
    let passed = survivors (suc n) xs in
    let more = survivors (suc (suc n)) xs in
    let taken = survivors n xs in
    if null x || equal x (codes ".") then passed else if equal x (codes "..") then more else taken

-- The elements, the last one first, with a slash between two of them.
abbrev pub path_of : List Bytes → Bytes
path_of [] = []
path_of (x ∷ before) = if null before then x else path_of before ++ (b'/' ∷ x)

-- Whether the text ends in `/`, `/.` or `/..`.
abbrev pub names_directory : Bytes → Bool
names_directory [] = false
names_directory (c ∷ s) =
    let later = names_directory s in
    (c == b'/' && (null s || (equal s (codes ".") || equal s (codes "..")))) || later

-- A slash in front if there was one, the segments that are left, and a slash behind them if the
-- text names a directory.
abbrev pub cleaned : Bytes → Bytes
cleaned s =
    let left = survivors 0 (backwards (segments [] s)) in
    (if first_or 0 s == b'/' then b'/' ∷ [] else [])
    ++ (path_of left ++ (if names_directory s && not (null left) then b'/' ∷ [] else []))

-- What is left of the segments `xs` and of those before them, `v`.
abbrev survivors_of : ℕ → List Bytes → List Bytes → List Bytes
survivors_of n [] v = drop n v
survivors_of zero (x ∷ xs) v =
    let passed = survivors_of 0 xs v in
    let more = survivors_of 1 xs v in
    if null x || equal x (codes ".")
    then passed
    else if equal x (codes "..")
    then more
    else x ∷ passed
survivors_of (suc n) (x ∷ xs) v =
    let passed = survivors_of (suc n) xs v in
    let more = survivors_of (suc (suc n)) xs v in
    let taken = survivors_of n xs v in
    if null x || equal x (codes ".") then passed else if equal x (codes "..") then more else taken

drop-drop_head : (n : ℕ) (v : List Bytes) → drop n (drop_head v) ≡ drop (suc n) v
drop-drop_head zero [] = refl
drop-drop_head (suc n) [] = refl
drop-drop_head n (x ∷ v) = refl

drop-nil : (n : ℕ) → drop {0} {A = Bytes} n [] ≡ []
drop-nil zero = refl
drop-nil (suc n) = refl

survivors_of-one :
    (n : ℕ) (x : Bytes) (v : List Bytes) → survivors_of n (x ∷ []) v ≡ drop n (push_element v x)
unfolding push_element
survivors_of-one zero x v = ground (arith, drop-drop_head 0 v)
survivors_of-one (suc n) x v = ground (arith, drop-drop_head (suc n) v)

survivors_of-append :
    (n : ℕ) (xs : List Bytes) (x : Bytes) (v : List Bytes)
    → survivors_of n (xs ++ (x ∷ [])) v ≡ survivors_of n xs (push_element v x)
survivors_of-append n [] x v = survivors_of-one n x v
survivors_of-append zero (y ∷ xs) x v =
    rw (survivors_of-append 0 xs x v, survivors_of-append 1 xs x v) refl
survivors_of-append (suc n) (y ∷ xs) x v =
    rw
      (
        survivors_of-append n xs x v,
        survivors_of-append (suc n) xs x v,
        survivors_of-append (suc (suc n)) xs x v,
      )
      refl

foldl-survivors_of : (xs v : List Bytes) → foldl push_element v xs ≡ survivors_of 0 (backwards xs) v
foldl-survivors_of [] v = refl
foldl-survivors_of (x ∷ xs) v =
    foldl-survivors_of xs (push_element v x) ∙ sym (survivors_of-append 0 (backwards xs) x v)

survivors_of-survivors : (n : ℕ) (xs : List Bytes) → survivors_of n xs [] ≡ survivors n xs
survivors_of-survivors zero [] = refl
survivors_of-survivors (suc n) [] = refl
survivors_of-survivors zero (x ∷ xs) =
    rw (survivors_of-survivors 0 xs, survivors_of-survivors 1 xs) refl
survivors_of-survivors (suc n) (x ∷ xs) =
    rw
      (
        survivors_of-survivors n xs,
        survivors_of-survivors (suc n) xs,
        survivors_of-survivors (suc (suc n)) xs,
      )
      refl

from_end-cons : (n c : ℕ) (s : Bytes) → n ≤ length s → from_end n (c ∷ s) ≡ from_end n s
unfolding from_end
from_end-cons n c s h =
    let behind : length (c ∷ s) - n ≡ suc (length s - n) = omega arith in rw (behind) (ground arith)

ends_with_slash-names_directory : (s : Bytes) → ends_with_slash s ≡ names_directory s
unfolding ends_with_slash from_end equal
ends_with_slash-names_directory [] = ground arith
ends_with_slash-names_directory (c ∷ []) = ground arith
ends_with_slash-names_directory (c ∷ d ∷ []) = ground arith
ends_with_slash-names_directory (c ∷ d ∷ e ∷ []) = ground arith
ends_with_slash-names_directory (c ∷ d ∷ e ∷ f ∷ s) = ground (
  arith,
  from_end-cons 1 c (d ∷ e ∷ f ∷ s),
  from_end-cons 2 c (d ∷ e ∷ f ∷ s),
  from_end-cons 3 c (d ∷ e ∷ f ∷ s),
  ends_with_slash-names_directory (d ∷ e ∷ f ∷ s),
)

join-path_of :
    (x : Bytes) (before : List Bytes) → join (x ∷ before) ≡ path_of (x ∷ before) ++ (b'/' ∷ [])
unfolding join
join-path_of x [] = refl
join-path_of x (y ∷ before) =
    ap (λ t. t ++ (x ++ (b'/' ∷ []))) (join-path_of y before)
    ∙ append_assoc (path_of (y ∷ before)) (b'/' ∷ []) (x ++ (b'/' ∷ []))
    ∙ sym (append_assoc (path_of (y ∷ before)) (b'/' ∷ x) (b'/' ∷ []))

pop_back-append : (s : Bytes) (c : ℕ) → pop_back (s ++ (c ∷ [])) ≡ s
unfolding pop_back
pop_back-append [] c = refl
pop_back-append (d ∷ []) c = refl
pop_back-append (d ∷ e ∷ s) c = ap (λ t. d ∷ t) (pop_back-append (e ∷ s) c)

last_or-append : (d c : ℕ) (s : Bytes) → last_or d (s ++ (c ∷ [])) ≡ c
last_or-append d c [] = refl
last_or-append d c (x ∷ s) = last_or-append x c s

length-path_of : (x : Bytes) (before : List Bytes) → IsNormal x → 1 ≤ length (path_of (x ∷ before))
length-path_of [] before h = absurd (h.0 refl)
length-path_of (c ∷ x) [] h = ground arith
length-path_of (c ∷ x) (y ∷ before) h =
    ground (arith, length-append (path_of (y ∷ before)) (b'/' ∷ c ∷ x))

-- A text with a slash at its end loses it, unless it is to stay.
trimmed :
    (endslash : Bool) (s : Bytes)
    → 1 ≤ length s
    → (if not endslash
          && ltb 1 (length (s ++ (b'/' ∷ [])))
          && (last_or 0 (s ++ (b'/' ∷ [])) == b'/')
        then pop_back (s ++ (b'/' ∷ []))
        else s ++ (b'/' ∷ []))
      ≡ s ++ (if endslash then b'/' ∷ [] else [])
trimmed true s h = refl
trimmed false s h = ground (
  arith,
  length-append s (b'/' ∷ []),
  last_or-append 0 b'/' s,
  pop_back-append s b'/',
  append-nil s,
)

rebuild-path_of :
    (isabs endslash : Bool) (v : List Bytes)
    → All IsNormal v
    → rebuild isabs endslash v
      ≡ (if isabs then b'/' ∷ [] else [])
        ++ (path_of v ++ (if endslash && not (null v) then b'/' ∷ [] else []))
unfolding rebuild join
rebuild-path_of true true [] h = refl
rebuild-path_of true false [] h = ground arith
rebuild-path_of false true [] h = refl
rebuild-path_of false false [] h = ground arith
rebuild-path_of true true (x ∷ before) h = rw (join-path_of x before) refl
rebuild-path_of true false (x ∷ before) h =
    rw (join-path_of x before) (trimmed false (b'/' ∷ path_of (x ∷ before)) (omega arith))
rebuild-path_of false true (x ∷ before) h = rw (join-path_of x before) refl
rebuild-path_of false false (x ∷ before) h =
    rw (join-path_of x before) (trimmed false (path_of (x ∷ before)) (length-path_of x before h.0))

-- The text of `remove_dots` is always the cleaned one. A slash stands in front of it just when
-- one stood in front of the path; then come the path's segments that are left, with a slash
-- between two of them, and a slash at the end just when there are some and the path ended in `/`,
-- `/.` or `/..`. Of the segments, an empty one and `.` are dropped, and each `..` drops itself and
-- the last one before it that is left, if there is one; so `..` above the root is no error. From
-- a question mark on the text is one segment with what stands before it up to the slash.
pub remove_dots-cleaned : (s : Bytes) → remove_dots s ≡ some (cleaned s)
unfolding remove_dots
remove_dots-cleaned [] = refl
remove_dots-cleaned (c ∷ s) =
    let (built, normal) = remove_dots-segments (c ∷ s) (λ e. cc) in
    let v : List Bytes = foldl push_element [] (segments [] (c ∷ s)) in
    let left : v ≡ survivors 0 (backwards (segments [] (c ∷ s))) =
      foldl-survivors_of (segments [] (c ∷ s)) []
      ∙ survivors_of-survivors 0 (backwards (segments [] (c ∷ s))) in
    built
    ∙ ap some (
        rebuild-path_of (c == b'/') (ends_with_slash (c ∷ s)) v normal
        ∙ ap
            (λ b.
              (if c == b'/' then b'/' ∷ [] else [])
              ++ (path_of v ++ (if b && not (null v) then b'/' ∷ [] else [])))
            (ends_with_slash-names_directory (c ∷ s))
        ∙ ap
            (λ t.
              (if c == b'/' then b'/' ∷ [] else [])
              ++ (path_of t ++ (if names_directory (c ∷ s) && not (null t) then b'/' ∷ [] else [])))
            left)
