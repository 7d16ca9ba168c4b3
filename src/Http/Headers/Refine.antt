-- ===== src/Http/Headers/Refine.antt =====
-- The header table implements a map from keys to values.
use computer_network.Prelude.{
  ◌+◌, ◌*◌, ◌≡◌, refl, ◌∙◌, ap, List, [], ◌∷◌, ◌++◌, Option, none, some, arith, length,
  length-append, leb, bytes_eq, bytes_eq_refl, if◌then◌else◌,
}
use computer_network.Prelude.Result.{Result, ok, ◌>>=◌}
use computer_network.Http.Request.{Bytes, Header, ParsedRequest}
use computer_network.Http.Headers.{
  find_header, parsed_header_get, parsed_header_remove, parsed_header_set, parsed_request_create,
}
use computer_network.Http.Headers.Table.{
  IsTable, bytes_eq_iff, find_header-clear_header, find_header-append, Distinct-clear_header,
  Distinct-append, length-clear_header,
}

find_header-removed :
    (pr : ParsedRequest) (k j : Bytes)
    → IsTable pr
    → find_header j (parsed_header_remove pr k).1.headers
      ≡ (if bytes_eq k j then none else find_header j pr.headers)
unfolding parsed_header_remove parsed_header_get
find_header-removed pr k j t =
    ground (arith, find_header-clear_header k j pr.headers t.distinct, bytes_eq_iff k j)

removed-IsTable :
    (pr : ParsedRequest) (k : Bytes) → IsTable pr → IsTable (parsed_header_remove pr k).1
unfolding parsed_header_remove
removed-IsTable pr k t =
    ground (arith, Distinct-clear_header k pr.headers t.distinct, length-clear_header k pr.headers)

headerslen-removed :
    (pr : ParsedRequest) (k : Bytes) → (parsed_header_remove pr k).1.headerslen ≡ pr.headerslen
unfolding parsed_header_remove
headerslen-removed pr k = ground arith

-- The request after a successful parsed_header_set.
pub record IsHeld (pr : ParsedRequest) (k v : Bytes) (pr' : ParsedRequest) : Type 0 where
  pub done : parsed_header_set pr k v ≡ ok pr'
  pub table : IsTable pr'
  pub line : pr'.line ≡ pr.line
  pub get :
      (j : Bytes)
      → parsed_header_get pr' j
        ≡ (if bytes_eq k j then some (record { key = k; value = v }) else parsed_header_get pr j)

pub parsed_header_set-IsHeld :
    (pr : ParsedRequest) (k v : Bytes) → IsTable pr → (pr' : ParsedRequest) × IsHeld pr k v pr'
unfolding parsed_header_set parsed_header_get
parsed_header_set-IsHeld pr k v t =
    let hs = (parsed_header_remove pr k).1.headers in
    let h : Header = record { key = k; value = v } in
    let t' = removed-IsTable pr k t in
    let len = headerslen-removed pr k in
    let gone = find_header-removed pr k k t in
    let pr' : ParsedRequest = record pr {
      headers = hs ++ some h ∷ [];
      headerslen = if leb pr.headerslen (length hs + 1) then pr.headerslen * 2 else pr.headerslen;
    } in
    (
      pr',
      record {
        done = ground (arith, t'.room, len);
        table = record {
          distinct = Distinct-append h hs t'.distinct (ground (arith, gone, bytes_eq_refl k));
          room = ground (arith, t'.room, len, length-append hs (some h ∷ []));
        };
        line = refl;
        get = λ j. find_header-append j h hs ∙ ground (arith, find_header-removed pr k j t);
      },
    )

-- The calls on the header table, and what they do to a map.
pub data HeaderCall : Type 0 where
  set_header : Bytes → Bytes → HeaderCall
  remove_header : Bytes → HeaderCall

pub call : ParsedRequest → HeaderCall → Result ParsedRequest
call pr (set_header k v) = parsed_header_set pr k v
call pr (remove_header k) = ok (parsed_header_remove pr k).1

pub calls : ParsedRequest → List HeaderCall → Result ParsedRequest
calls pr [] = ok pr
calls pr (c ∷ cs) = call pr c >>= λ pr'. calls pr' cs

abbrev pub HeaderMap : Type 0
HeaderMap = Bytes → Option Bytes

pub map_call : HeaderMap → HeaderCall → HeaderMap
map_call m (set_header k v) j = if bytes_eq k j then some v else m j
map_call m (remove_header k) j = if bytes_eq k j then none else m j

pub map_calls : HeaderMap → List HeaderCall → HeaderMap
map_calls m [] = m
map_calls m (c ∷ cs) = map_calls (map_call m c) cs

abbrev pub value_of : Option Header → Option Bytes
value_of none = none
value_of (some h) = some h.value

-- The table is well formed and holds what the map says.
pub record Implements (pr : ParsedRequest) (m : HeaderMap) : Type 0 where
  pub table : IsTable pr
  pub same : (j : Bytes) → value_of (parsed_header_get pr j) ≡ m j

call-Implements :
    (pr : ParsedRequest) (m : HeaderMap) (c : HeaderCall)
    → Implements pr m
    → (pr' : ParsedRequest) × (call pr c ≡ ok pr') × Implements pr' (map_call m c)
unfolding call map_call
call-Implements pr m (set_header k v) i =
    let (pr', s) = parsed_header_set-IsHeld pr k v i.table in
    (
      pr',
      s.done,
      record { table = s.table; same = λ j. ap value_of (s.get j) ∙ ground (arith, i.same j) },
    )
call-Implements pr m (remove_header k) i = (
  (parsed_header_remove pr k).1,
  refl,
  record {
    table = removed-IsTable pr k i.table;
    same = λ j.
        unfold parsed_header_get in
        (ap value_of (find_header-removed pr k j i.table) ∙ ground (arith, i.same j));
  },
)

calls-Implements :
    (cs : List HeaderCall) (pr : ParsedRequest) (m : HeaderMap)
    → Implements pr m
    → (pr' : ParsedRequest) × (calls pr cs ≡ ok pr') × Implements pr' (map_calls m cs)
unfolding calls map_calls
calls-Implements [] pr m i = (pr, refl, i)
calls-Implements (c ∷ cs) pr m i =
    let (pr1, done, i1) = call-Implements pr m c i in
    let rest = calls-Implements cs pr1 (map_call m c) i1 in (rest.0, rw done rest.1, rest.2)

-- From ParsedRequest_create on, any calls of ParsedHeader_set and ParsedHeader_remove write inside
-- the allocated slots and return, and ParsedHeader_get then finds exactly what a map finds that is
-- changed by the same calls; no two slots hold one key.
pub created-Implements :
    (cs : List HeaderCall)
    → (pr : ParsedRequest) × (calls parsed_request_create cs ≡ ok pr)
      × Implements pr (map_calls (λ j. none) cs)
unfolding parsed_request_create
created-Implements cs =
    calls-Implements cs parsed_request_create (λ j. none)
      (record {
        table = record { distinct = tt; room = omega arith };
        same = λ j. unfold parsed_header_get find_header in refl;
      })
