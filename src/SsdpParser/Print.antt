-- ===== src/SsdpParser/Print.antt =====
-- Packets that are printed with known headers are read back.
use npupnp.Common.{
  ℕ, zero, suc, ◌≡◌, ◌≢◌, ◌<◌, refl, sym, ap, ◌∙◌, subst, Bool, true, false, Option, none, some,
  List, [], ◌∷◌, ◌++◌, Bytes, codes, All, All-append, append_assoc, length, length-append, equal,
  equal_refl, starts_with, arith,
}
use npupnp.SsdpParser.{
  Packet, skip_blank, split_eol, assign, header_loop, parse, notify_start, msearch_start,
  response_start, as_request, as_response,
}
use npupnp.SsdpParser.Headers.{crlf, split_eol-append, split_colon-crlf}
use npupnp.SsdpParser.Lines.{
  name_of, values, first_values, Line, IsLine, print_lines, filled, values-assign,
  assign-HasSameKind, split_colon-name, skip_blank-blanks, skip_blank-id, trimright-append,
  blanks-ne, print_lines_pos, IsRead,
}

-- What stands behind the colon of a line.
skip_blank-line :
    (l : Line) (rest : Bytes)
    → IsLine l
    → skip_blank (l.lead ++ ((l.value ++ l.trail) ++ (13 ∷ 10 ∷ rest)))
      ≡ (l.value ++ l.trail) ++ (13 ∷ 10 ∷ rest)
skip_blank-line l rest h =
    skip_blank-blanks l.lead _ h.0
    ∙ ap skip_blank (append_assoc l.value l.trail (13 ∷ 10 ∷ rest))
    ∙ skip_blank-id l.value (l.trail ++ (13 ∷ 10 ∷ rest)) h.3 h.4
    ∙ sym (append_assoc l.value l.trail (13 ∷ 10 ∷ rest))

split_eol-line :
    (l : Line) (rest : Bytes)
    → IsLine l
    → split_eol ((l.value ++ l.trail) ++ (13 ∷ 10 ∷ rest)) ≡ some (l.value ++ l.trail, rest)
split_eol-line l rest h =
    split_eol-append (l.value ++ l.trail) rest
      (All-append (λ c. c ≢ 13) l.value l.trail h.2 (blanks-ne l.trail h.1))

header_loop-line :
    (fuel : ℕ) (l : Line) (ls : List Line) (p : Packet)
    → IsLine l
    → header_loop (suc fuel) (print_lines (l ∷ ls)) p
      ≡ header_loop fuel (print_lines ls) (assign p (name_of l.field) l.value)
unfolding header_loop
header_loop-line fuel l ls p h = ground (
  arith,
  split_colon-name l.field (l.lead ++ ((l.value ++ l.trail) ++ (13 ∷ 10 ∷ print_lines ls))),
  skip_blank-line l (print_lines ls) h,
  split_eol-line l (print_lines ls) h,
  trimright-append l.value l.trail h.1,
  h.5,
)

IsRead-assign :
    (l : Line) (ls : List Line) (p : Packet) (o : Option (Bool × Packet))
    → IsRead ls (assign p (name_of l.field) l.value) o
    → IsRead (l ∷ ls) p o
IsRead-assign l ls p none h = h
IsRead-assign l ls p (some (ok, q)) h =
    let kind = assign-HasSameKind l.field p l.value in
    (
      h.0,
      h.1 ∙ ap (λ vs. filled vs ls) (values-assign l.field p l.value),
      (h.2.0 ∙ kind.0, h.2.1 ∙ kind.1),
    )

header_loop-end :
    (fuel : ℕ) (p : Packet) → header_loop (suc fuel) (print_lines []) p ≡ some (true, p)
unfolding header_loop equal
header_loop-end fuel p = ground (arith, split_colon-crlf, equal_refl crlf)

header_loop-IsRead :
    (fuel : ℕ) (ls : List Line) (p : Packet)
    → All IsLine ls
    → length ls < fuel
    → IsRead ls p (header_loop fuel (print_lines ls) p)
header_loop-IsRead zero ls p h enough = absurd (omega arith)
header_loop-IsRead (suc fuel) [] p h enough =
    subst (IsRead [] p) (sym (header_loop-end fuel p)) (refl, refl, (refl, refl))
header_loop-IsRead (suc fuel) (l ∷ ls) p h enough =
    subst (IsRead (l ∷ ls) p) (sym (header_loop-line fuel l ls p h.0)) (
      IsRead-assign l ls p (header_loop fuel (print_lines ls) (assign p (name_of l.field) l.value))
        (header_loop-IsRead fuel ls (assign p (name_of l.field) l.value) h.1 (omega arith)))

-- The packet that a parse gives: whether it is an answer, and its values.
abbrev pub IsParsed : Bool → List (Option Bytes) → Option (Bool × Packet) → Type 0
IsParsed isresponse vs none = ⊥
IsParsed isresponse vs (some (ok, q)) =
    (ok ≡ true) × (values q ≡ vs) × (q.isresponse ≡ isresponse) × (q.ext ≡ false)

IsRead-IsParsed :
    (isresponse : Bool) (vs : List (Option Bytes)) (ls : List Line) (p : Packet)
    (o : Option (Bool × Packet))
    → values p ≡ vs
    → p.isresponse ≡ isresponse
    → p.ext ≡ false
    → IsRead ls p o
    → IsParsed isresponse (filled vs ls) o
IsRead-IsParsed isresponse vs ls p none e kind no_ext h = h
IsRead-IsParsed isresponse vs ls p (some (ok, q)) e kind no_ext h =
    (h.0, h.1 ∙ ap (λ us. filled us ls) e, h.2.0 ∙ kind, h.2.1 ∙ no_ext)

-- A packet that starts with one of the three first lines, and goes on with lines of the headers
-- that are kept, each in capitals and with any number of blanks in front of its value and behind
-- it, and the empty line, is accepted. Its method, path and status are those of the first line.
-- The value of each header is the one of its last line, without the blanks, and it has none if
-- there is no such line. This is for values with no carriage return, not empty, and with no blank
-- at their ends.
pub parse-print_lines :
    (ls : List Line)
    → All IsLine ls
    → IsParsed false
        (filled (first_values (some (codes "NOTIFY")) (some (codes "*")) none) ls)
        (parse (codes "NOTIFY * HTTP/1.1\r\n" ++ print_lines ls))
      × IsParsed false
          (filled (first_values (some (codes "M-SEARCH")) (some (codes "*")) none) ls)
          (parse (codes "M-SEARCH * HTTP/1.1\r\n" ++ print_lines ls))
      × IsParsed true
          (filled (first_values none none (some (codes "200"))) ls)
          (parse (codes "HTTP/1.1 200 OK\r\n" ++ print_lines ls))
unfolding parse starts_with
parse-print_lines ls h =
    let size = print_lines_pos ls in
    let loop = λ (start : Bytes) (p : Packet).
      header_loop-IsRead (suc (length (start ++ print_lines ls))) ls p h
        (let whole = length-append start (print_lines ls) in omega arith) in
    (
      IsRead-IsParsed _ _ ls (as_request (codes "NOTIFY")) _ refl refl refl
          (loop notify_start (as_request (codes "NOTIFY"))),
      IsRead-IsParsed _ _ ls (as_request (codes "M-SEARCH")) _ refl refl refl
          (loop msearch_start (as_request (codes "M-SEARCH"))),
      IsRead-IsParsed _ _ ls as_response _ refl refl refl (loop response_start as_response),
    )
