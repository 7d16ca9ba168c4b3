-- ===== src/Http/Request.antt =====
-- The structs of proxy_parse.h.
use computer_network.Prelude.{ℕ, List, Option}

-- A string of C, the terminating NUL left out.
abbrev pub Bytes : Type 0
Bytes = List ℕ

-- struct ParsedHeader; `keylen` and `valuelen` are one more than the lengths, and never read.
pub record Header : Type 0 where
  pub key : Bytes
  pub value : Bytes

-- What the pointers of struct ParsedRequest into `buf` point to, once the request line is parsed.
pub record RequestLine : Type 0 where
  pub method : Bytes
  pub protocol : Bytes
  pub host : Bytes
  pub port : Option Bytes
  pub path : Bytes
  pub version : Bytes

-- struct ParsedRequest. `line` is none where `buf` is NULL. `headers` are the slots in use, none
-- where the key is NULL; `headerslen` is how many slots are allocated.
pub record ParsedRequest : Type 0 where
  pub line : Option RequestLine
  pub headers : List (Option Header)
  pub headerslen : ℕ
