-- ===== src/Http/Proxy/Examples.antt =====
-- A client that asks for http://a/.
use computer_network.Prelude.{
  ◌≡◌, refl, Bool, true, false, [], ◌∷◌, ◌++◌, none, some, arith, replicate,
}
use computer_network.Prelude.Result.{ok}
use computer_network.Prelude.Text.{starts_with, strstr}
use computer_network.Http.Request.{Bytes, RequestLine, ParsedRequest}
use computer_network.Http.Unparse.{crlf}
use computer_network.Http.Proxy.{reading, Remote, get_method, http_1_1, read_request}
use computer_network.Http.Proxy.Recv.{read_request_hangs}

abbrev zeros : Bytes
zeros = replicate 2048 0

-- "GET http://a/ HTTP/1.1" and an empty line
abbrev asked : Bytes
asked =
    get_method
    ++ (b' '
        ∷ b'h'
        ∷ b't'
        ∷ b't'
        ∷ b'p'
        ∷ b':'
        ∷ b'/'
        ∷ b'/'
        ∷ b'a'
        ∷ b'/'
        ∷ b' '
        ∷ (http_1_1 ++ (crlf ++ crlf)))

abbrev any_port : Bytes → Bool
any_port p = false

abbrev some_remote : Remote
some_remote = record {
  resolves = λ host port. true;
  has_socket = true;
  connects = true;
  sends = true;
  replies = (some (b'x' ∷ []), true) ∷ (some [], true) ∷ [];
}

abbrev asked_line : RequestLine
asked_line = record {
  method = get_method;
  protocol = b'h' ∷ b't' ∷ b't' ∷ b'p' ∷ [];
  host = b'a' ∷ [];
  port = none;
  path = b'/' ∷ [];
  version = http_1_1;
}

abbrev asked_request : ParsedRequest
asked_request = record { line = some asked_line; headers = []; headerslen = 8 }

read_request_hangs_example : read_request zeros 0 (replicate 3 (some [])) ≡ ok reading
unfolding strstr starts_with
read_request_hangs_example = read_request_hangs 3 zeros 0 refl (omega arith)
