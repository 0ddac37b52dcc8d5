-- ===== src/Uri/Dots.antt =====
-- `remove_dots` of uri.cpp. `vpath` is kept with its last element first.
pub mod Segments
pub mod Cleaned
use npupnp.Common.{
  ℕ, zero, suc, ◌-◌, Bool, true, false, not, ◌&&◌, ◌||◌, Option, none, some, List, [], ◌∷◌, ◌++◌,
  ◌==◌, ltb, if◌then◌else◌, Bytes, codes, equal, span, length, drop, first_or, last_or, null,
  pop_back,
}

abbrev pub drop_head : List Bytes → List Bytes
drop_head [] = []
drop_head (x ∷ xs) = xs

-- What one element of the path does to `vpath`.
unfoldable pub push_element : List Bytes → Bytes → List Bytes
unfolding equal
push_element vpath elt =
    if null elt || equal elt (codes ".")
    then vpath
    else if equal elt (codes "..")
    then drop_head vpath
    else elt ∷ vpath

abbrev pub not_marker : ℕ → Bool
not_marker c = not (c == b'/' || c == b'?')

-- The loop over the path from `pos` on; `none` means that the fuel ran out.
pub dots_loop : ℕ → Bytes → List Bytes → Option (List Bytes)
unfolding span push_element
dots_loop zero s vpath = none
dots_loop (suc fuel) s vpath =
    let elt : Bytes = (span not_marker s).0 in
    let behind : Bytes = (span not_marker s).1 in
    let skip = dots_loop fuel (drop 1 behind) vpath in
    let next = dots_loop fuel behind (push_element vpath elt) in
    if null behind || first_or 0 behind == b'?'
    then some (push_element vpath s)
    else if null elt
    then skip
    else next

-- The elements joined, each with a slash behind it.
unfoldable pub join : List Bytes → Bytes
join [] = []
join (elt ∷ before) = join before ++ (elt ++ (b'/' ∷ []))

-- The byte at `size - n`, or 0 if the text is shorter.
from_end : ℕ → Bytes → ℕ
from_end n s = if ltb (length s) n then 0 else first_or 0 (drop (length s - n) s)

pub ends_with_slash : Bytes → Bool
unfolding from_end
ends_with_slash s =
    from_end 1 s == b'/'
    || (from_end 2 s == b'/' && from_end 1 s == b'.')
    || (from_end 3 s == b'/' && from_end 2 s == b'.' && from_end 1 s == b'.')

-- The text built from the elements.
unfoldable pub rebuild : Bool → Bool → List Bytes → Bytes
unfolding join pop_back
rebuild isabs endslash vpath =
    let out = (if isabs then b'/' ∷ [] else []) ++ join vpath in
    if not endslash && ltb 1 (length out) && last_or 0 out == b'/' then pop_back out else out

-- The fuel is one more than the bytes of the path.
unfoldable pub remove_dots : Bytes → Option Bytes
unfolding dots_loop rebuild ends_with_slash
remove_dots s = if null s then some s else elim (dots_loop (suc (length s)) s []) [
  | none ↦ none
  | some vpath ↦ some (rebuild (first_or 0 s == b'/') (ends_with_slash s) vpath)
]
