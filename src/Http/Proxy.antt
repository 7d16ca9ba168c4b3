-- ===== src/Http/Proxy.antt =====
-- handle_client of proxy.c. What the sockets deliver and whether their calls succeed are arguments;
-- what the handler does to them is a list of actions. Prints, and the buffer that only they read,
-- are left out.
pub mod Recv
pub mod Forward
mod Examples
use computer_network.Prelude.{
  ℕ, ◌+◌, ◌-◌, Bool, true, false, not, List, [], ◌∷◌, ◌++◌, Option, none, some, length, take, ltb,
  bytes_eq, if◌then◌else◌,
}
use computer_network.Prelude.Result.{Result, ok, fault, ◌>>=◌, out_of_bounds, null_deref}
use computer_network.Prelude.Buffer.{patch}
use computer_network.Prelude.Text.{c_string, strstr}
use computer_network.Http.Request.{Bytes, RequestLine, ParsedRequest}
use computer_network.Http.Headers.{parsed_header_set, parsed_request_create}
use computer_network.Http.Unparse.{crlf, parsed_request_total_len, parsed_request_unparse}
use computer_network.Http.Parse.{parsed_request_parse}

-- RECV_BUFFER_SIZE
abbrev pub recv_buffer_size : ℕ
recv_buffer_size = 2048

-- How the loop over recv ends: with -1, with a request in the buffer and its length, or not yet.
pub data Reading : Type 0 where
  failed : Reading
  received : Bytes → ℕ → Reading
  reading : Reading

-- The calls of recv give bytes, none of them where the peer has closed, or -1. strstr reads up to a
-- NUL, which has to stand in the buffer.
unfoldable pub read_request : Bytes → ℕ → List (Option Bytes) → Result Reading
read_request buffer total [] = ok reading
read_request buffer total (none ∷ more) = ok failed
read_request buffer total (some bytes ∷ more) =
    let got : Bytes = take (recv_buffer_size - total) bytes in
    let buffer1 : Bytes = patch total got buffer in
    let total1 : ℕ = total + length got in
    let rest : Result Reading = read_request buffer1 total1 more in
    elim (strstr (crlf ++ crlf) (c_string buffer1)) [
      | some end ↦
          if ltb total1 recv_buffer_size
          then ok (received (patch total1 (0 ∷ []) buffer1) total1)
          else fault out_of_bounds
      | none ↦
          if ltb (length (c_string buffer1)) recv_buffer_size then rest else fault out_of_bounds
    ]

pub data Action : Type 0 where
  look_up : Bytes → Bytes → Action
  to_client : Bytes → Action
  to_remote : Bytes → Action
  close_client : Action
  close_remote : Action
  close_unset : Action

-- The server that is asked: whether getaddrinfo, socket, connect and send succeed, and what its
-- recv gives, with whether the send of it to the client succeeds.
pub record Remote : Type 0 where
  pub resolves : Bytes → Bytes → Bool
  pub has_socket : Bool
  pub connects : Bool
  pub sends : Bool
  pub replies : List (Option Bytes × Bool)

-- "GET"
abbrev pub get_method : Bytes
get_method = b'G' ∷ b'E' ∷ b'T' ∷ []

-- "HTTP/1.0"
abbrev pub http_1_0 : Bytes
http_1_0 = b'H' ∷ b'T' ∷ b'T' ∷ b'P' ∷ b'/' ∷ b'1' ∷ b'.' ∷ b'0' ∷ []

-- "HTTP/1.1"
abbrev pub http_1_1 : Bytes
http_1_1 = b'H' ∷ b'T' ∷ b'T' ∷ b'P' ∷ b'/' ∷ b'1' ∷ b'.' ∷ b'1' ∷ []

-- "Connection", "close" and "Host"
abbrev pub connection_key : Bytes
connection_key = b'C' ∷ b'o' ∷ b'n' ∷ b'n' ∷ b'e' ∷ b'c' ∷ b't' ∷ b'i' ∷ b'o' ∷ b'n' ∷ []

abbrev pub close_value : Bytes
close_value = b'c' ∷ b'l' ∷ b'o' ∷ b's' ∷ b'e' ∷ []

abbrev pub host_key : Bytes
host_key = b'H' ∷ b'o' ∷ b's' ∷ b't' ∷ []

-- A response line: its code of three digits and its reason.
abbrev pub response : Bytes → Bytes → Bytes
response code reason = http_1_0 ++ (b' ' ∷ (code ++ (b' ' ∷ (reason ++ (crlf ++ crlf)))))

-- "400" and "Bad Request", "501" and "Not Implemented", "500" and "Internal Server Error"
abbrev pub bad_request : Bytes
bad_request =
    response (b'4' ∷ b'0' ∷ b'0' ∷ [])
      (b'B' ∷ b'a' ∷ b'd' ∷ b' ' ∷ b'R' ∷ b'e' ∷ b'q' ∷ b'u' ∷ b'e' ∷ b's' ∷ b't' ∷ [])

abbrev pub not_implemented : Bytes
not_implemented = response (b'5' ∷ b'0' ∷ b'1' ∷ []) (
    b'N' ∷ b'o' ∷ b't' ∷ b' ' ∷ b'I' ∷ b'm' ∷ b'p' ∷ b'l' ∷ b'e' ∷ b'm' ∷ b'e' ∷ b'n' ∷ b't' ∷ b'e'
    ∷ b'd' ∷ [])

abbrev pub server_error : Bytes
server_error = response (b'5' ∷ b'0' ∷ b'0' ∷ []) (
    b'I' ∷ b'n' ∷ b't' ∷ b'e' ∷ b'r' ∷ b'n' ∷ b'a' ∷ b'l' ∷ b' ' ∷ b'S' ∷ b'e' ∷ b'r' ∷ b'v' ∷ b'e'
    ∷ b'r' ∷ b' ' ∷ b'E' ∷ b'r' ∷ b'r' ∷ b'o' ∷ b'r' ∷ [])

-- The loop that passes the reply on.
unfoldable pub relay_reply : List (Option Bytes × Bool) → List Action
relay_reply [] = []
relay_reply ((none, sent) ∷ more) = close_client ∷ close_remote ∷ []
relay_reply ((some [], sent) ∷ more) = close_client ∷ close_remote ∷ []
relay_reply ((some (b ∷ bs), sent) ∷ more) =
    let rest : List Action = relay_reply more in
    to_client (b ∷ bs) ∷ (if sent then rest else close_client ∷ close_remote ∷ [])

-- From getaddrinfo on.
unfoldable pub ask_remote : Remote → Bytes → Bytes → Bytes → List Action
ask_remote remote host port request =
    look_up host port
    ∷ (if not (remote.resolves host port)
        then close_client ∷ close_unset ∷ []
        else if not remote.has_socket
        then close_client ∷ []
        else if not remote.connects
        then close_client ∷ close_remote ∷ []
        else to_remote request
          ∷ (if remote.sends then relay_reply remote.replies else close_client ∷ close_remote ∷ []))

-- "80" where the request has no port.
abbrev pub port_or_80 : Option Bytes → Bytes
port_or_80 none = b'8' ∷ b'0' ∷ []
port_or_80 (some port) = port

abbrev pub lower_version : RequestLine → RequestLine
lower_version l = if bytes_eq l.version http_1_1 then record l { version = http_1_0 } else l

-- From the parsed request on. The printed request fills what is allocated for it, and strlen reads
-- on into `behind`, what stands behind it.
unfoldable pub forward_request : Remote → Bytes → ParsedRequest → Result (List Action)
forward_request remote behind pr = elim pr.line [
  | none ↦ fault null_deref
  | some l ↦
      if not (bytes_eq l.method get_method)
      then ok (to_client not_implemented ∷ close_client ∷ [])
      else parsed_header_set (record pr { line = some (lower_version l) }) connection_key
          close_value
        >>= λ pr1. parsed_header_set pr1 host_key l.host >>= λ pr2.
            elim (parsed_request_unparse pr2 (parsed_request_total_len pr2)) [
              | none ↦ ok (to_client server_error ∷ [])
              | some request ↦
                  ok (ask_remote remote l.host (port_or_80 l.port) (c_string (request ++ behind)))
            ]
]

unfoldable pub handle_client :
    (Bytes → Bool) → Remote → Bytes → Bytes → List (Option Bytes) → Result (List Action)
handle_client bad_port remote behind buffer recvs = read_request buffer 0 recvs >>= λ answer.
    elim answer [
      | reading ↦ ok []
      | failed ↦ ok (close_client ∷ [])
      | received text total ↦
          parsed_request_parse bad_port parsed_request_create (take total text) >>= λ parsed.
          if parsed.0
          then forward_request remote behind parsed.1
          else ok (to_client bad_request ∷ close_client ∷ [])
    ]
