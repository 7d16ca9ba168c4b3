-- ===== src/Http/Parse.antt =====
-- ParsedRequest_parse and ParsedHeader_parse of proxy_parse.c. malloc succeeds. The fields of a
-- parsed line are read once it is parsed: its buffer is not written to afterwards.
pub mod Errors
pub mod Host
pub mod Line
pub mod Lines
pub mod Printed
pub mod RoundTrip
pub mod Table
pub mod Termination
use computer_network.Prelude.{
  ℕ, zero, suc, ◌+◌, Bool, true, false, not, ◌||◌, List, [], ◌∷◌, ◌++◌, Option, none, some, length,
  drop, ltb, ◌==◌, ◌&&◌, if◌then◌else◌,
}
use computer_network.Prelude.Result.{Result, ok, fault, null_deref, out_of_bounds, no_rounds}
use computer_network.Prelude.Text.{c_string, starts_with, strchr, strstr, before}
use computer_network.Prelude.Token.{Token, text_at, strtok_r}
use computer_network.Http.Attempt.{
  Attempt, done, refused, broken, ◌>>=◌, ◌>>◌, require, guard, present, follow,
}
use computer_network.Http.Request.{Bytes, RequestLine, ParsedRequest}
use computer_network.Http.Headers.{parsed_header_set}
use computer_network.Http.Unparse.{crlf, scheme_end}

-- MAX_REQ_LEN
abbrev pub max_req_len : ℕ
max_req_len = 65535

-- MIN_REQ_LEN
abbrev pub min_req_len : ℕ
min_req_len = 4

abbrev pub space : Bytes
space = b' ' ∷ []

abbrev pub slash : Bytes
slash = b'/' ∷ []

abbrev pub colon : Bytes
colon = b':' ∷ []

-- "HTTP/"
abbrev pub http_version : Bytes
http_version = b'H' ∷ b'T' ∷ b'T' ∷ b'P' ∷ b'/' ∷ []

-- The path that is kept: never empty, and with one slash in front.
unfoldable pub path_of : Token → Attempt Bytes
path_of t = elim t.found [
  | none ↦ done slash
  | some p ↦
      let path = text_at t.mem p in if starts_with slash path then refused else done (slash ++ path)
]

-- `bad_port` is whether strtol leaves 0 and EINVAL for a text.
abbrev pub port_bad : (Bytes → Bool) → Token → Bool
port_bad bad_port t = elim t.found [ none ↦ false | some p ↦ bad_port (text_at t.mem p) ]

abbrev pub text_of : Token → Option Bytes
text_of t = elim t.found [ none ↦ none | some p ↦ some (text_at t.mem p) ]

module _ (bad_port : Bytes → Bool) where
  -- The request line, in its buffer of its own.
  unfoldable pub parse_line : Bytes → Attempt RequestLine
  parse_line line = do
    let t1 = strtok_r space (line ++ 0 ∷ []) 0
    method ← present t1.found
    let t2 = strtok_r space t1.mem t1.save
    full_addr ← present t2.found
    let version = full_addr + length (text_at t2.mem full_addr) + 1
    guard (ltb version (length t2.mem)) out_of_bounds
    require (starts_with http_version (text_at t2.mem version))
    let t3 = strtok_r scheme_end t2.mem full_addr
    protocol ← present t3.found
    let rem = full_addr + length (text_at t3.mem protocol) + 3
    guard (ltb rem (length t3.mem)) out_of_bounds
    let t4 = strtok_r slash t3.mem t3.save
    host ← present t4.found
    require (not (length (text_at t4.mem host) == length (text_at t3.mem rem)))
    let t5 = strtok_r space t4.mem t4.save
    path ← path_of t5
    let t6 = strtok_r colon t5.mem host
    let t7 = strtok_r slash t6.mem t6.save
    name ← present t6.found
    require (not (port_bad bad_port t7))
    done (record {
      method = text_at t7.mem method;
      protocol = text_at t7.mem protocol;
      host = text_at t7.mem name;
      port = text_of t7;
      path = path;
      version = text_at t7.mem version;
    })

abbrev pub stored : Result ParsedRequest → Attempt ParsedRequest
stored (ok pr) = done pr
stored (fault why) = broken why

-- `line` goes on to the end of the whole text. The colon is looked for in all of it, and one byte
-- is skipped behind the colon, whatever it is.
unfoldable pub parsed_header_parse : ParsedRequest → Bytes → Attempt ParsedRequest
parsed_header_parse pr line = do
  index1 ← present (strchr b':' line)
  guard (ltb 1 (length index1)) out_of_bounds
  index2 ← follow (strstr crlf (drop 2 index1)) null_deref
  stored (parsed_header_set pr (before line index1) (before (drop 2 index1) index2))

-- The loop over the header lines; false is -1.
unfoldable pub parse_lines : ℕ → ParsedRequest → Bytes → Result (Bool × ParsedRequest)
parse_lines zero pr current = fault no_rounds
parse_lines (suc fuel) pr [] = ok (true, pr)
parse_lines (suc fuel) pr (c ∷ cs) = elim (starts_with crlf (c ∷ cs)) [
  | true ↦ ok (true, pr)
  | false ↦ elim (parsed_header_parse pr (c ∷ cs)) [
    | broken why ↦ fault why
    | refused ↦ ok (false, pr)
    | done pr' ↦ elim (strstr crlf (c ∷ cs)) [
      | none ↦ ok (true, pr')
      | some next ↦ elim (ltb (length next) 2) [
        | true ↦ ok (true, pr')
        | false ↦ parse_lines fuel pr' (drop 2 next)
      ]
    ]
  ]
]

-- The loop goes on in what is left of the text: its length is fuel enough.
unfoldable pub parsed_request_parse :
    (Bytes → Bool) → ParsedRequest → Bytes → Result (Bool × ParsedRequest)
parsed_request_parse bad_port pr buf = elim pr.line [
  | some l ↦ ok (false, pr)
  | none ↦
      if ltb (length buf) min_req_len || ltb max_req_len (length buf)
      then ok (false, pr)
      else elim (strstr (crlf ++ crlf) (c_string buf)) [
        | none ↦ ok (false, pr)
        | some header_end ↦ elim (strstr crlf (c_string buf)) [
          | none ↦ fault null_deref
          | some index ↦ elim (parse_line bad_port (before (c_string buf) index)) [
            | broken why ↦ fault why
            | refused ↦ ok (false, pr)
            | done l ↦
                parse_lines (suc (length (c_string buf))) (record pr { line = some l })
                  (drop 2 index)
          ]
        ]
      ]
]
