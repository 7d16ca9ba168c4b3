-- ===== src/Http/Unparse/Size.antt =====
-- What is printed has the announced length.
use computer_network.Prelude.{
  ℕ, ◌+◌, ◌≡◌, refl, List, [], ◌∷◌, ◌++◌, Option, none, some, arith, length, length-append, ltb,
  if◌then◌else◌,
}
use computer_network.Http.Request.{Bytes, Header, RequestLine, ParsedRequest}
use computer_network.Http.Unparse.{
  crlf, scheme_end, line_len, lines_len, parsed_header_headers_len, print_lines,
  parsed_header_print_headers, port_len, request_line_len, print_port, print_address, print_line,
  parsed_request_print_request_line, parsed_request_total_len, parsed_request_unparse,
}

length-print_lines : (hs : List (Option Header)) → length (print_lines hs) ≡ lines_len hs + 2
unfolding print_lines lines_len line_len
length-print_lines [] = refl
length-print_lines (none ∷ hs) = omega (arith, length-print_lines hs)
length-print_lines (some h ∷ hs) = omega (
  arith,
  length-print_lines hs,
  length-append h.key (b':' ∷ b' ' ∷ (h.value ++ (crlf ++ print_lines hs))),
  length-append h.value (crlf ++ print_lines hs),
)

length-print_port : (p : Option Bytes) → length (print_port p) ≡ port_len p
length-print_port none = refl
length-print_port (some p) = omega arith

pub length-print_line : (l : RequestLine) → length (print_line l) ≡ request_line_len l
unfolding print_line print_address request_line_len
length-print_line l = omega (
  arith,
  length-append l.method (b' ' ∷ (print_address l ++ (b' ' ∷ (l.version ++ crlf)))),
  length-append (print_address l) (b' ' ∷ (l.version ++ crlf)),
  length-append l.version crlf,
  length-append l.protocol (scheme_end ++ (l.host ++ (print_port l.port ++ l.path))),
  length-append l.host (print_port l.port ++ l.path),
  length-append (print_port l.port) l.path,
  length-print_port l.port,
)

-- A parsed request is printed exactly if the buffer has the announced total length, and then has
-- that length: nothing is written outside the buffer.
pub parsed_request_unparse-size :
    (pr : ParsedRequest) (l : RequestLine) (buflen : ℕ)
    → pr.line ≡ some l
    → (parsed_request_unparse pr buflen ≡ (
        if ltb buflen (parsed_request_total_len pr)
        then none
        else some (print_line l ++ print_lines pr.headers)))
      × (length (print_line l ++ print_lines pr.headers) ≡ parsed_request_total_len pr)
unfolding parsed_request_unparse parsed_request_total_len parsed_request_print_request_line
    parsed_header_print_headers parsed_header_headers_len
parsed_request_unparse-size pr l buflen parsed =
    let line = length-print_line l in
    let lines = length-print_lines pr.headers in
    (
      ground (arith, line, lines),
      ground (arith, line, lines, length-append (print_line l) (print_lines pr.headers)),
    )
