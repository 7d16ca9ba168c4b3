-- ===== src/Http/Parse/Table.antt =====
-- The header table after a text is parsed.
use computer_network.Prelude.{
  ℕ, zero, suc, ◌≡◌, refl, subst, Bool, [], ◌∷◌, some, arith, length, drop, ltb, Bool-cases,
  Option-cases, ◌⊎◌, inl, inr,
}
use computer_network.Prelude.Result.{ok, Fault}
use computer_network.Prelude.Text.{starts_with, strstr}
use computer_network.Http.Attempt.{Attempt, done, refused, broken}
use computer_network.Http.Request.{Bytes, RequestLine, ParsedRequest}
use computer_network.Http.Headers.{parsed_header_set, parsed_request_create}
use computer_network.Http.Headers.Table.{IsTable}
use computer_network.Http.Headers.Refine.{parsed_header_set-IsHeld}
use computer_network.Http.Unparse.{crlf}
use computer_network.Http.Parse.{stored, parsed_header_parse, parse_lines, parsed_request_parse}

stored_set-IsTable :
    (pr pr' : ParsedRequest) (k v : Bytes)
    → IsTable pr
    → stored (parsed_header_set pr k v) ≡ done pr'
    → IsTable pr'
stored_set-IsTable pr pr' k v table e =
    let (pr1, s) = parsed_header_set-IsHeld pr k v table in
    let same : pr1 ≡ pr' = ground (arith, s.done, e) in subst IsTable same s.table

parsed_header_parse-IsTable :
    (pr pr' : ParsedRequest) (line : Bytes)
    → IsTable pr
    → parsed_header_parse pr line ≡ done pr'
    → IsTable pr'
unfolding parsed_header_parse
parsed_header_parse-IsTable pr pr' line table e = grind (arith, stored_set-IsTable pr pr')

Attempt-cases :
    (a : Attempt ParsedRequest)
    → ((pr : ParsedRequest) × (a ≡ done pr)) ⊎ ((a ≡ refused) ⊎ ((why : Fault) × (a ≡ broken why)))
Attempt-cases (done pr) = inl (pr, refl)
Attempt-cases refused = inr (inl refl)
Attempt-cases (broken why) = inr (inr (why, refl))

parse_lines-IsTable :
    (fuel : ℕ) (pr pr' : ParsedRequest) (b : Bool) (current : Bytes)
    → IsTable pr
    → parse_lines fuel pr current ≡ ok (b, pr')
    → IsTable pr'
unfolding parse_lines
parse_lines-IsTable zero pr pr' b current table e = ground arith
parse_lines-IsTable (suc fuel) pr pr' b [] table e =
    let same : pr ≡ pr' = ground (arith, e) in subst IsTable same table
parse_lines-IsTable (suc fuel) pr pr' b (c ∷ cs) table e =
    elim (Bool-cases (starts_with crlf (c ∷ cs))) [
      | inl stop ↦ let same : pr ≡ pr' = ground (arith, stop, e) in subst IsTable same table
      | inr go ↦ elim (Attempt-cases (parsed_header_parse pr (c ∷ cs))) [
        | inr (inl refusal) ↦
            let same : pr ≡ pr' = ground (arith, go, refusal, e) in subst IsTable same table
        | inr (inr (why, bad)) ↦ ground (arith, go, bad, e)
        | inl (pr1, good) ↦
            let table1 = parsed_header_parse-IsTable pr pr1 (c ∷ cs) table good in
            elim (Option-cases (strstr crlf (c ∷ cs))) [
              | inl last ↦
                  let same : pr1 ≡ pr' = ground (arith, go, good, last, e) in
                  subst IsTable same table1
              | inr (next, at) ↦ elim (Bool-cases (ltb (length next) 2)) [
                | inl short ↦
                    let same : pr1 ≡ pr' = ground (arith, go, good, at, short, e) in
                    subst IsTable same table1
                | inr long ↦
                    parse_lines-IsTable fuel pr1 pr' b (drop 2 next) table1
                      (ground (arith, go, good, at, long, e))
              ]
            ]
      ]
    ]

-- Whatever text is parsed into a new request, no two slots of its header table hold one key, and
-- there is room for one more slot.
pub parsed_request_parse-IsTable :
    (bad_port : Bytes → Bool) (pr' : ParsedRequest) (b : Bool) (buf : Bytes)
    → parsed_request_parse bad_port parsed_request_create buf ≡ ok (b, pr')
    → IsTable pr'
unfolding parsed_request_parse parsed_request_create
parsed_request_parse-IsTable bad_port pr' b buf e =
    let lines : (l : RequestLine) (fuel : ℕ) (text : Bytes)
        → parse_lines fuel (record { line = some l; headers = []; headerslen = 8 }) text
          ≡ ok (b, pr')
        → IsTable pr' =
      λ l fuel text e.
        parse_lines-IsTable fuel _ pr' b text (record { distinct = tt; room = omega arith }) e in
    grind (arith, lines)
