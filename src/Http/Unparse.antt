-- ===== src/Http/Unparse.antt =====
-- The printing half of proxy_parse.c: what is written to the buffer of the caller, none for -1.
-- Lengths fit an int.
pub mod Size
use computer_network.Prelude.{
  ℕ, ◌+◌, ◌-◌, Bool, List, [], ◌∷◌, ◌++◌, Option, none, some, length, ltb, if◌then◌else◌,
}
use computer_network.Http.Request.{Bytes, Header, RequestLine, ParsedRequest}

abbrev pub crlf : Bytes
crlf = b'\r' ∷ b'\n' ∷ []

-- "://"
abbrev pub scheme_end : Bytes
scheme_end = b':' ∷ b'/' ∷ b'/' ∷ []

unfoldable pub line_len : Option Header → ℕ
line_len none = 0
line_len (some h) = length h.key + length h.value + 4

unfoldable pub lines_len : List (Option Header) → ℕ
lines_len [] = 0
lines_len (h ∷ hs) = line_len h + lines_len hs

-- ParsedHeader_headersLen
unfoldable pub parsed_header_headers_len : ParsedRequest → ℕ
parsed_header_headers_len pr = elim pr.line [ none ↦ 0 | some l ↦ lines_len pr.headers + 2 ]

unfoldable pub print_lines : List (Option Header) → Bytes
print_lines [] = crlf
print_lines (none ∷ hs) = print_lines hs
print_lines (some h ∷ hs) = h.key ++ (b':' ∷ b' ' ∷ (h.value ++ (crlf ++ print_lines hs)))

unfoldable pub parsed_header_print_headers : ParsedRequest → ℕ → Option Bytes
parsed_header_print_headers pr len =
    if ltb len (parsed_header_headers_len pr) then none else some (print_lines pr.headers)

abbrev pub port_len : Option Bytes → ℕ
port_len none = 0
port_len (some p) = length p + 1

unfoldable pub request_line_len : RequestLine → ℕ
request_line_len l =
    length l.method
    + 1
    + length l.protocol
    + 3
    + length l.host
    + 1
    + length l.version
    + 2
    + port_len l.port
    + length l.path

abbrev pub print_port : Option Bytes → Bytes
print_port none = []
print_port (some p) = b':' ∷ p

-- The request line up to the version, whose CRLF ends it.
unfoldable pub print_address : RequestLine → Bytes
print_address l = l.protocol ++ (scheme_end ++ (l.host ++ (print_port l.port ++ l.path)))

unfoldable pub print_line : RequestLine → Bytes
print_line l = l.method ++ (b' ' ∷ (print_address l ++ (b' ' ∷ (l.version ++ crlf))))

unfoldable pub parsed_request_print_request_line : RequestLine → ℕ → Option Bytes
parsed_request_print_request_line l buflen =
    if ltb buflen (request_line_len l) then none else some (print_line l)

-- ParsedRequest_totalLen
unfoldable pub parsed_request_total_len : ParsedRequest → ℕ
parsed_request_total_len pr = elim pr.line [
  | none ↦ 0
  | some l ↦ request_line_len l + parsed_header_headers_len pr
]

unfoldable pub parsed_request_unparse_headers : ParsedRequest → ℕ → Option Bytes
parsed_request_unparse_headers pr buflen = elim pr.line [
  | none ↦ none
  | some l ↦ parsed_header_print_headers pr buflen
]

-- The headers are printed into what the request line leaves of the buffer.
unfoldable pub parsed_request_unparse : ParsedRequest → ℕ → Option Bytes
parsed_request_unparse pr buflen = elim pr.line [
  | none ↦ none
  | some l ↦ elim (parsed_request_print_request_line l buflen) [
    | none ↦ none
    | some first ↦ elim (parsed_header_print_headers pr (buflen - length first)) [
      | none ↦ none
      | some rest ↦ some (first ++ rest)
    ]
  ]
]
