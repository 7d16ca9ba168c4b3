-- ===== src/Http/Parse/Errors.antt =====
-- A request line without a version.
use mathlib.Core.List.{append_assoc}
use computer_network.Prelude.{
  ℕ, ◌+◌, ◌≡◌, refl, Bool, false, [], ◌∷◌, ◌++◌, some, arith, length, length-append, All, All-map,
  ltb,
}
use computer_network.Prelude.Result.{out_of_bounds}
use computer_network.Prelude.Text.{is_delim}
use computer_network.Prelude.Token.{text_at, strtok_r}
use computer_network.Prelude.Token.Laws.{token_delim, token_nul, text_at_part}
use computer_network.Http.Attempt.{broken}
use computer_network.Http.Request.{Bytes}
use computer_network.Http.Parse.{space, parse_line}
use computer_network.Http.Parse.Host.{IsPlain, plain_no_nul}

-- A request line of a method, a space and an address, with nothing behind the address, makes the
-- parser read the version behind the end of its buffer.
pub parse_line_no_version :
    (bad_port : Bytes → Bool) (m : ℕ) (ms : Bytes) (r : ℕ) (rs : Bytes)
    → All IsPlain (m ∷ ms)
    → All IsPlain (r ∷ rs)
    → parse_line bad_port ((m ∷ ms) ++ b' ' ∷ r ∷ rs) ≡ broken out_of_bounds
unfolding parse_line is_delim
parse_line_no_version bad_port m ms r rs method address =
    let cut = (m ∷ ms) ++ 0 ∷ ((r ∷ rs) ++ 0 ∷ []) in
    let front = (m ∷ ms) ++ 0 ∷ [] in
    let at = length (m ∷ ms) + 1 in
    let text : ((m ∷ ms) ++ b' ' ∷ r ∷ rs) ++ 0 ∷ [] ≡ (m ∷ ms) ++ b' ' ∷ ((r ∷ rs) ++ 0 ∷ []) =
      simp append_assoc in
    let here : at ≡ length front = omega (arith, length-append (m ∷ ms) (0 ∷ [])) in
    let behind : cut ≡ front ++ ((r ∷ rs) ++ 0 ∷ []) = simp append_assoc in
    let t1 : strtok_r space ((m ∷ ms) ++ b' ' ∷ ((r ∷ rs) ++ 0 ∷ [])) 0
        ≡ record { found = some 0; mem = cut; save = at } =
      token_delim space _ cut [] [] m ms b' ' _ 0 0 at refl refl refl refl (omega arith) tt
        (All-map (m ∷ ms) (λ b k. ground arith) method) (omega arith) refl in
    let t2 : strtok_r space cut at
        ≡ record { found = some at; mem = cut; save = at + length (r ∷ rs) } =
      token_nul space cut [] front [] r rs 0 [] at at _ behind here (omega arith) refl tt
        (All-map (r ∷ rs) (λ b k. ground arith) address) in
    let full_addr : text_at cut at ≡ r ∷ rs =
      text_at_part cut front (r ∷ rs) [] at behind here (plain_no_nul (r ∷ rs) address) in
    let over : ltb (at + length (r ∷ rs) + 1) (length cut) ≡ false =
      ground (arith, length-append ms (0 ∷ ((r ∷ rs) ++ 0 ∷ [])), length-append rs (0 ∷ [])) in
    rw (text, t1, t2, full_addr, over) refl
