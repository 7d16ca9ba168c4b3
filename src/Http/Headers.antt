-- ===== src/Http/Headers.antt =====
-- The header table of proxy_parse.c.
pub mod Table
pub mod Refine
use computer_network.Prelude.{
  ℕ, ◌+◌, ◌*◌, Bool, true, false, List, [], ◌∷◌, ◌++◌, Option, none, some, length, ltb, leb,
  bytes_eq, if◌then◌else◌,
}
use computer_network.Prelude.Result.{Result, guard, ok, ◌>>◌, out_of_bounds}
use computer_network.Http.Request.{Bytes, Header, RequestLine, ParsedRequest}

-- DEFAULT_NHDRS
abbrev pub default_nhdrs : ℕ
default_nhdrs = 8

-- The walk over the slots of ParsedHeader_get.
unfoldable pub find_header : Bytes → List (Option Header) → Option Header
find_header key [] = none
find_header key (none ∷ hs) = find_header key hs
find_header key (some h ∷ hs) = if bytes_eq h.key key then some h else find_header key hs

unfoldable pub parsed_header_get : ParsedRequest → Bytes → Option Header
parsed_header_get pr key = find_header key pr.headers

-- `tmp->key = NULL` in the slot that the walk finds.
unfoldable pub clear_header : Bytes → List (Option Header) → List (Option Header)
clear_header key [] = []
clear_header key (none ∷ hs) = none ∷ clear_header key hs
clear_header key (some h ∷ hs) =
    if bytes_eq h.key key then none ∷ hs else some h ∷ clear_header key hs

-- False is -1.
unfoldable pub parsed_header_remove : ParsedRequest → Bytes → Bool × ParsedRequest
parsed_header_remove pr key = elim (parsed_header_get pr key) [
  | none ↦ (false, pr)
  | some h ↦ (true, record pr { headers = clear_header key pr.headers })
]

-- The new slot is written behind those in use. realloc succeeds.
unfoldable pub parsed_header_set : ParsedRequest → Bytes → Bytes → Result ParsedRequest
parsed_header_set pr key value =
    let hs = (parsed_header_remove pr key).1.headers in
    let headerslen =
      if leb pr.headerslen (length hs + 1) then pr.headerslen * 2 else pr.headerslen in
    do
      guard (ltb (length hs) headerslen) out_of_bounds
      ok (record pr {
        headers = hs ++ some (record { key = key; value = value }) ∷ [];
        headerslen = headerslen;
      })

-- ParsedRequest_create with ParsedHeader_create.
unfoldable pub parsed_request_create : ParsedRequest
parsed_request_create = record { line = none; headers = []; headerslen = default_nhdrs }

-- ParsedHeader_destroy
unfoldable pub parsed_header_destroy : ParsedRequest → ParsedRequest
parsed_header_destroy pr = record pr { headers = []; headerslen = 0 }
