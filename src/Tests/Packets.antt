-- ===== src/Tests/Packets.antt =====
-- The theorem on the SSDP packet parser at concrete lines.
use npupnp.Common.{true, false, none, some, List, [], ◌∷◌, ◌++◌, codes, All, arith}
use npupnp.SsdpParser.{parse, trimright}
use npupnp.SsdpParser.Lines.{Line, in_nt, in_nts, IsLine, print_lines, filled, first_values}
use npupnp.SsdpParser.Print.{IsParsed, parse-print_lines}

abbrev lines : List Line
lines =
    record { field = in_nts; lead = codes " "; value = codes "a b"; trail = codes "  " }
    ∷ record { field = in_nt; lead = []; value = codes "c"; trail = [] }
    ∷ []

lines-IsLine : All IsLine lines
unfolding trimright
lines-IsLine = ground arith

parse-print_lines_example :
    IsParsed false
      (filled (first_values (some (codes "NOTIFY")) (some (codes "*")) none) lines)
      (parse (codes "NOTIFY * HTTP/1.1\r\n" ++ print_lines lines))
    × IsParsed false
        (filled (first_values (some (codes "M-SEARCH")) (some (codes "*")) none) lines)
        (parse (codes "M-SEARCH * HTTP/1.1\r\n" ++ print_lines lines))
    × IsParsed true
        (filled (first_values none none (some (codes "200"))) lines)
        (parse (codes "HTTP/1.1 200 OK\r\n" ++ print_lines lines))
parse-print_lines_example = parse-print_lines lines lines-IsLine
