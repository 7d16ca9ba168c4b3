-- ===== src/Http/Examples.antt =====
-- A request, and what the parser and the printer do with it.
use computer_network.Prelude.{
  ◌≡◌, ◌≢◌, refl, Bool, true, false, List, [], ◌∷◌, ◌++◌, none, some, arith, length, All, ltb,
  if◌then◌else◌,
}
use computer_network.Prelude.Result.{ok, fault, null_deref, no_rounds}
use computer_network.Prelude.Text.{starts_with, is_delim, strchr, strstr}
use computer_network.Http.Attempt.{broken}
use computer_network.Http.Request.{Bytes, RequestLine, ParsedRequest}
use computer_network.Http.Headers.{parsed_header_get, parsed_request_create, find_header}
use computer_network.Http.Headers.Refine.{
  HeaderCall, set_header, remove_header, calls, map_calls, Implements, created-Implements,
}
use computer_network.Http.Unparse.{
  print_line, print_lines, parsed_request_total_len, parsed_request_unparse, request_line_len,
  parsed_header_headers_len, lines_len, line_len,
}
use computer_network.Http.Unparse.Size.{parsed_request_unparse-size}
use computer_network.Http.Parse.{parsed_header_parse, parsed_request_parse}
use computer_network.Http.Parse.Printed.{IsPrintable}
use computer_network.Http.Parse.Lines.{IsSlot}
use computer_network.Http.Parse.RoundTrip.{parsed_request_parse-parsed_request_unparse}
use computer_network.Http.Parse.Termination.{parsed_request_parse-terminates}

abbrev get_method : Bytes
get_method = b'G' ∷ b'E' ∷ b'T' ∷ []

abbrev host_key : Bytes
host_key = b'H' ∷ b'o' ∷ []

abbrev some_value : Bytes
some_value = b'a' ∷ b' ' ∷ b'b' ∷ []

-- GET http://a.b:80/x HTTP/1
abbrev some_line : RequestLine
some_line = record {
  method = get_method;
  protocol = b'h' ∷ b't' ∷ b't' ∷ b'p' ∷ [];
  host = b'a' ∷ b'.' ∷ b'b' ∷ [];
  port = some (b'8' ∷ b'0' ∷ []);
  path = b'/' ∷ b'x' ∷ [];
  version = b'H' ∷ b'T' ∷ b'T' ∷ b'P' ∷ b'/' ∷ b'1' ∷ [];
}

abbrev some_request : ParsedRequest
some_request = record {
  line = some some_line;
  headers = none ∷ some (record { key = host_key; value = some_value }) ∷ [];
  headerslen = 8;
}

abbrev any_port : Bytes → Bool
any_port p = false

some_line-IsPrintable : IsPrintable any_port some_line
unfolding is_delim starts_with
some_line-IsPrintable = record {
  method = (ground arith, ground arith);
  protocol = (ground arith, ground arith);
  host = (ground arith, ground arith);
  port = ((ground arith, ground arith), refl);
  path = (_, refl, ground arith, refl);
  http = refl;
  version = ground arith;
}

some_slots : All IsSlot some_request.headers
some_slots = (tt, (record { key = ground arith; value = ground arith }, tt))

some_calls : List HeaderCall
some_calls =
    set_header host_key some_value ∷ remove_header host_key ∷ set_header host_key get_method ∷ []

created-Implements_example :
    (pr : ParsedRequest) × (calls parsed_request_create some_calls ≡ ok pr)
    × Implements pr (map_calls (λ j. none) some_calls)
created-Implements_example = created-Implements some_calls

parsed_request_unparse-size_example :
    (parsed_request_unparse some_request 30 ≡ (
      if ltb 30 (parsed_request_total_len some_request)
      then none
      else some (print_line some_line ++ print_lines some_request.headers)))
    × (length (print_line some_line ++ print_lines some_request.headers)
        ≡ parsed_request_total_len some_request)
parsed_request_unparse-size_example = parsed_request_unparse-size some_request some_line 30 refl

parsed_request_parse-parsed_request_unparse_example :
    (printed : Bytes) × (parsed_request_unparse some_request 100 ≡ some printed)
    × (pr' : ParsedRequest) × (parsed_request_parse any_port parsed_request_create printed
        ≡ ok (true, pr'))
    × (pr'.line ≡ some some_line)
    × ((j : Bytes) → parsed_header_get pr' j ≡ parsed_header_get some_request j)
unfolding parsed_request_total_len request_line_len parsed_header_headers_len lines_len line_len
    find_header
parsed_request_parse-parsed_request_unparse_example =
    parsed_request_parse-parsed_request_unparse any_port some_request some_line 100 refl
      some_line-IsPrintable (refl, tt) some_slots (omega arith) (omega arith)

parsed_request_parse-terminates_example :
    parsed_request_parse any_port parsed_request_create get_method ≢ fault no_rounds
parsed_request_parse-terminates_example =
    parsed_request_parse-terminates any_port parsed_request_create get_method

-- A header line "ab" and no colon before the empty line, but one behind it.
no_colon :
    parsed_header_parse parsed_request_create
      (b'a' ∷ b'b' ∷ b'\r' ∷ b'\n' ∷ b'\r' ∷ b'\n' ∷ b':' ∷ b'x' ∷ [])
    ≡ broken null_deref
unfolding parsed_header_parse strchr strstr starts_with
no_colon = refl
