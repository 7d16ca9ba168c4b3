-- ===== src/Http/Parse/Termination.antt =====
-- The loop over the header lines ends.
use computer_network.Prelude.{
  ℕ, zero, suc, ◌≤◌, ◌<◌, ◌≡◌, ◌≢◌, Bool, true, false, [], ◌∷◌, Option, none, some, arith, length,
  length-drop,
}
use computer_network.Prelude.Result.{Result, ok, fault, no_rounds, out_of_bounds, null_deref}
use computer_network.Prelude.Text.{c_string, strstr}
use computer_network.Prelude.Token.{Token}
use computer_network.Http.Attempt.{
  Attempt, done, refused, broken, present, follow, guard, require, ◌>>=◌,
}
use computer_network.Http.Request.{Bytes, ParsedRequest}
use computer_network.Http.Headers.{parsed_header_set}
use computer_network.Http.Unparse.{crlf}
use computer_network.Http.Parse.{
  stored, parsed_header_parse, parse_lines, path_of, parse_line, parsed_request_parse,
}

length-strstr : (n text next : Bytes) → strstr n text ≡ some next → length next ≤ length text
unfolding strstr
length-strstr n [] next e = ground arith
length-strstr n (c ∷ cs) next e = ground (arith, length-strstr n cs next)

parsed_header_set-no_rounds :
    (pr : ParsedRequest) (k v : Bytes) → parsed_header_set pr k v ≢ fault no_rounds
unfolding parsed_header_set
parsed_header_set-no_rounds pr k v = ground arith

-- An attempt that does not break for want of rounds.
abbrev HasRounds {ℓ} : {A : Type ℓ} → Attempt A → Type ℓ
HasRounds a = a ≢ broken no_rounds

then_rounds {ℓ κ} :
    {A : Type ℓ} {B : Type κ} (a : Attempt A) (next : A → Attempt B)
    → HasRounds a
    → ((v : A) → HasRounds (next v))
    → HasRounds (a >>= next)
then_rounds (done v) next h k = k v
then_rounds refused next h k = ground arith
then_rounds (broken why) next h k = λ e. h (ground arith)

present_rounds {ℓ} : {A : Type ℓ} (a : Option A) → HasRounds (present a)
present_rounds none = ground arith
present_rounds (some v) = ground arith

require_rounds : (b : Bool) → HasRounds (require b)
require_rounds true = ground arith
require_rounds false = ground arith

bounds_rounds : (b : Bool) → HasRounds (guard b out_of_bounds)
bounds_rounds true = ground arith
bounds_rounds false = ground arith

follow_rounds {ℓ} : {A : Type ℓ} (a : Option A) → HasRounds (follow a null_deref)
follow_rounds none = ground arith
follow_rounds (some v) = ground arith

stored_rounds : (r : Result ParsedRequest) → r ≢ fault no_rounds → HasRounds (stored r)
stored_rounds (ok pr) h = ground arith
stored_rounds (fault why) h = λ e. h (ground arith)

stored_set_rounds :
    (pr : ParsedRequest) (k v : Bytes) → HasRounds (stored (parsed_header_set pr k v))
stored_set_rounds pr k v =
    stored_rounds (parsed_header_set pr k v) (parsed_header_set-no_rounds pr k v)

parsed_header_parse_rounds :
    (pr : ParsedRequest) (line : Bytes) → HasRounds (parsed_header_parse pr line)
unfolding parsed_header_parse
parsed_header_parse_rounds pr line = grind (arith, stored_set_rounds)

path_of_rounds : (t : Token) → HasRounds (path_of t)
unfolding path_of
path_of_rounds t = ground arith

parse_line_rounds : (bad_port : Bytes → Bool) (line : Bytes) → HasRounds (parse_line bad_port line)
unfolding parse_line
parse_line_rounds bad_port line = grind (arith, path_of_rounds)

-- `fuel` rounds are enough for a text of fewer bytes.
parse_lines-no_rounds :
    (fuel : ℕ) (pr : ParsedRequest) (current : Bytes)
    → length current < fuel
    → parse_lines fuel pr current ≢ fault no_rounds
unfolding parse_lines
parse_lines-no_rounds zero pr current le = absurd (omega arith)
parse_lines-no_rounds (suc fuel) pr [] le = ground arith
parse_lines-no_rounds (suc fuel) pr (c ∷ cs) le = grind (
  arith,
  parsed_header_parse_rounds,
  length-strstr crlf (c ∷ cs),
  parse_lines-no_rounds fuel,
  length-drop,
)

-- The parser ends on every text: the loop over the header lines never goes on after as many rounds
-- as the text has bytes, and one more.
pub parsed_request_parse-terminates :
    (bad_port : Bytes → Bool) (pr : ParsedRequest) (buf : Bytes)
    → parsed_request_parse bad_port pr buf ≢ fault no_rounds
unfolding parsed_request_parse
parsed_request_parse-terminates bad_port pr buf = grind (
  arith,
  parse_line_rounds bad_port,
  length-strstr crlf (c_string buf),
  parse_lines-no_rounds (suc (length (c_string buf))),
  length-drop,
)
