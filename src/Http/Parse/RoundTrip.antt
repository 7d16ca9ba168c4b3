-- ===== src/Http/Parse/RoundTrip.antt =====
-- A request that is printed and parsed again.
use mathlib.Core.List.{append_assoc}
use computer_network.Prelude.{
  ℕ, suc, ◌≤◌, ◌≡◌, ◌≢◌, refl, sym, ap, ◌∙◌, Bool, true, false, ◌||◌, List, [], ◌∷◌, ◌++◌, Option,
  none, some, arith, length, length-append, All, All-map, All-append, ltb,
}
use computer_network.Prelude.Result.{ok}
use computer_network.Prelude.Text.{c_string, strstr, before}
use computer_network.Prelude.Text.Laws.{c_string-All, strstr_found, strstr-append, before-append}
use computer_network.Http.Attempt.{done}
use computer_network.Http.Request.{Bytes, Header, RequestLine, ParsedRequest}
use computer_network.Http.Headers.{find_header, parsed_header_get, parsed_request_create}
use computer_network.Http.Headers.Table.{Distinct}
use computer_network.Http.Unparse.{
  crlf, scheme_end, print_port, print_address, print_line, print_lines, parsed_request_total_len,
  parsed_request_unparse,
}
use computer_network.Http.Unparse.Size.{parsed_request_unparse-size}
use computer_network.Http.Parse.{
  min_req_len, max_req_len, parse_line, parse_lines, parsed_request_parse,
}
use computer_network.Http.Parse.Host.{IsWord}
use computer_network.Http.Parse.Printed.{IsPort, IsPrintable, line_of, parse_line-print_line}
use computer_network.Http.Parse.Lines.{IsSlot, parse_lines-print_lines}

-- A byte inside a line.
abbrev IsInner : ℕ → Type 0
IsInner b = (b ≢ 0) × (b ≢ b'\r')

IsWord-IsInner : (delims s : Bytes) → IsWord delims s → All IsInner s
IsWord-IsInner delims s w = All-map s (λ b k. (k.0.0, k.0.2)) w

print_port-IsInner :
    (bad_port : Bytes → Bool) (port : Option Bytes)
    → IsPort bad_port port
    → All IsInner (print_port port)
print_port-IsInner bad_port none w = tt
print_port-IsInner bad_port (some p) w = ((omega arith, omega arith), IsWord-IsInner _ p w.0.1)

line_of-IsInner :
    (bad_port : Bytes → Bool) (l : RequestLine) → IsPrintable bad_port l → All IsInner (line_of l)
unfolding print_address
line_of-IsInner bad_port l w =
    let (q, e, plain, single) = w.path in
    let path : All IsInner l.path =
      rw e ((omega arith, omega arith), All-map q (λ b k. (k.0, k.2)) plain) in
    All-append IsInner l.method _ (IsWord-IsInner [] l.method w.method.1) (
      (omega arith, omega arith),
      All-append IsInner (print_address l) _
          (All-append IsInner l.protocol _ (IsWord-IsInner scheme_end l.protocol w.protocol.1) (
            (omega arith, omega arith),
            (
              (omega arith, omega arith),
              (
                (omega arith, omega arith),
                All-append IsInner l.host _ (IsWord-IsInner _ l.host w.host.1) (
                    All-append IsInner (print_port l.port) _
                      (print_port-IsInner bad_port l.port w.port) path),
              ),
            ),
          ))
          ((omega arith, omega arith), w.version),
    )

print_lines_no_nul :
    (slots : List (Option Header)) → All IsSlot slots → All (λ b. b ≢ 0) (print_lines slots)
unfolding print_lines
print_lines_no_nul [] w = (omega arith, (omega arith, tt))
print_lines_no_nul (none ∷ slots) w = print_lines_no_nul slots w.1
print_lines_no_nul (some h ∷ slots) w =
    All-append (λ b. b ≢ 0) h.key _ (All-map h.key (λ b k. k.0) w.0.key)
      (
        omega arith,
        (
          omega arith,
          All-append (λ b. b ≢ 0) h.value _ (All-map h.value (λ b k. k.0) w.0.value)
              (omega arith, (omega arith, print_lines_no_nul slots w.1)),
        ),
      )

-- The empty line stands at the end.
print_lines_end :
    (slots : List (Option Header))
    → (s : Bytes) × (crlf ++ print_lines slots ≡ s ++ ((crlf ++ crlf) ++ []))
unfolding print_lines
print_lines_end [] = ([], refl)
print_lines_end (none ∷ slots) = print_lines_end slots
print_lines_end (some h ∷ slots) =
    let (s, e) = print_lines_end slots in
    (
      crlf ++ (h.key ++ (b':' ∷ b' ' ∷ (h.value ++ s))),
      ap (λ t. crlf ++ (h.key ++ (b':' ∷ b' ' ∷ (h.value ++ t)))) e ∙ simp append_assoc,
    )

abbrev text_of_request : RequestLine → List (Option Header) → Bytes
text_of_request l slots = line_of l ++ (crlf ++ print_lines slots)

-- The text of a whole request, parsed.
module _ (bad_port : Bytes → Bool) (l : RequestLine) (slots : List (Option Header))
    (printable : IsPrintable bad_port l) (fields : All IsSlot slots) where
  text_no_nul : c_string (text_of_request l slots) ≡ text_of_request l slots
  text_no_nul = c_string-All (text_of_request l slots) (
      All-append (λ b. b ≢ 0) (line_of l) _
        (All-map (line_of l) (λ b k. k.0) (line_of-IsInner bad_port l printable))
        (omega arith, (omega arith, print_lines_no_nul slots fields)))

  text_end : (found : Bytes) × (strstr (crlf ++ crlf) (text_of_request l slots) ≡ some found)
  text_end =
      let (s, e) = print_lines_end slots in
      let (found, at) = strstr_found (crlf ++ crlf) (line_of l ++ s) [] in
      (
        found,
        ap (λ t. strstr (crlf ++ crlf) (line_of l ++ t)) e
            ∙ ap (strstr (crlf ++ crlf)) (sym (append_assoc (line_of l) s _))
            ∙ at,
      )

  first_crlf : strstr crlf (text_of_request l slots) ≡ some (crlf ++ print_lines slots)
  first_crlf =
      strstr-append b'\r' (b'\n' ∷ []) (line_of l) (print_lines slots)
        (All-map (line_of l) (λ b k. k.1) (line_of-IsInner bad_port l printable))

  parse_text :
      min_req_len ≤ length (text_of_request l slots)
      → length (text_of_request l slots) ≤ max_req_len
      → parsed_request_parse bad_port parsed_request_create (text_of_request l slots)
        ≡ parse_lines
            (suc (length (text_of_request l slots)))
            (record parsed_request_create { line = some l })
            (print_lines slots)
  unfolding parsed_request_parse parsed_request_create
  parse_text small big =
      let (found, at) = text_end in
      let fits : (ltb (length (text_of_request l slots)) min_req_len
            || ltb max_req_len (length (text_of_request l slots)))
          ≡ false =
        ground arith in
      let parsed : parse_line bad_port
            (before (text_of_request l slots) (crlf ++ print_lines slots))
          ≡ done l =
        ap (parse_line bad_port) (before-append (line_of l) (crlf ++ print_lines slots))
        ∙ parse_line-print_line bad_port l printable in
      rw (fits, text_no_nul, at, text_no_nul, first_crlf, text_no_nul, parsed, text_no_nul) refl

-- A parsed request with a printable line and distinct printable headers, of at most 65535 bytes, is
-- printed into a buffer that has room for it, and the printed text is parsed into a request with
-- the same request line in which every key has the header that it had.
pub parsed_request_parse-parsed_request_unparse :
    (bad_port : Bytes → Bool) (pr : ParsedRequest) (l : RequestLine) (buflen : ℕ)
    → pr.line ≡ some l
    → IsPrintable bad_port l
    → Distinct pr.headers
    → All IsSlot pr.headers
    → parsed_request_total_len pr ≤ max_req_len
    → parsed_request_total_len pr ≤ buflen
    → (printed : Bytes) × (parsed_request_unparse pr buflen ≡ some printed)
      × (pr' : ParsedRequest) × (parsed_request_parse bad_port parsed_request_create printed
          ≡ ok (true, pr'))
      × (pr'.line ≡ some l)
      × ((j : Bytes) → parsed_header_get pr' j ≡ parsed_header_get pr j)
unfolding parsed_request_create parsed_header_get print_line
parsed_request_parse-parsed_request_unparse bad_port pr l buflen line printable distinct fields
      small room =
    let printed = text_of_request l pr.headers in
    let (unparse, size) = parsed_request_unparse-size pr l buflen line in
    let start = record parsed_request_create { line = some l } in
    let same : print_line l ++ print_lines pr.headers ≡ printed = simp append_assoc in
    let (pr', e, f) =
      parse_lines-print_lines pr.headers (suc (length printed)) start distinct fields
        (record { distinct = tt; room = omega arith })
        (omega (arith, length-append (line_of l) (crlf ++ print_lines pr.headers))) in
    (
      printed,
      unparse ∙ ground (arith, same, room),
      pr',
      parse_text bad_port l pr.headers printable fields
            (omega (
              arith,
              length-append l.method (b' ' ∷ (print_address l ++ b' ' ∷ l.version)),
              length-append (print_address l) (b' ' ∷ l.version),
              length-append (line_of l) (crlf ++ print_lines pr.headers),
            ))
            (omega (arith, ap length same, size, small))
          ∙ e,
      f.line,
      λ j. f.get j ∙ (unfold find_header in ground arith),
    )
