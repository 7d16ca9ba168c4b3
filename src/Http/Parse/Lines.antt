-- ===== src/Http/Parse/Lines.antt =====
-- The loop over printed header lines.
use mathlib.Core.List.{append_assoc}
use computer_network.Prelude.{
  ℕ, zero, suc, ◌≤◌, ◌≡◌, ◌≢◌, refl, ap, ◌∙◌, true, false, List, [], ◌∷◌, ◌++◌, Option, none, some,
  arith, length, length-append, All, All-map, All-append, ltb, drop,
}
use computer_network.Prelude.Result.{ok}
use computer_network.Prelude.Text.{starts_with, strstr}
use computer_network.Prelude.Text.Laws.{strchr-append, strstr-append, before-append}
use computer_network.Http.Attempt.{done}
use computer_network.Http.Request.{Bytes, Header, ParsedRequest}
use computer_network.Http.Headers.{find_header, parsed_header_get, parsed_header_set}
use computer_network.Http.Headers.Table.{IsTable, Distinct, bytes_eq_iff}
use computer_network.Http.Headers.Refine.{IsHeld, parsed_header_set-IsHeld}
use computer_network.Http.Unparse.{crlf, print_lines}
use computer_network.Http.Parse.{stored, parsed_header_parse, parse_lines}

-- A header whose line can be told apart again.
pub record IsField (h : Header) : Type 0 where
  pub key : All (λ b. (b ≢ 0) × (b ≢ b':') × (b ≢ b'\r')) h.key
  pub value : All (λ b. (b ≢ 0) × (b ≢ b'\r')) h.value

abbrev pub IsSlot : Option Header → Type 0
IsSlot none = Unit {0}
IsSlot (some h) = IsField h

abbrev field_of : Header → Bytes
field_of h = h.key ++ (b':' ∷ b' ' ∷ h.value)

parsed_header_parse_field :
    (pr pr' : ParsedRequest) (h : Header) (rest : Bytes)
    → IsField h
    → parsed_header_set pr h.key h.value ≡ ok pr'
    → parsed_header_parse pr (field_of h ++ (crlf ++ rest)) ≡ done pr'
unfolding parsed_header_parse
parsed_header_parse_field pr pr' h rest w e =
    let text : field_of h ++ (crlf ++ rest) ≡ h.key ++ (b':' ∷ b' ' ∷ (h.value ++ (crlf ++ rest))) =
      simp append_assoc in
    let at1 =
      strchr-append b':' h.key (b' ' ∷ (h.value ++ (crlf ++ rest)))
        (All-map h.key (λ b k. k.1) w.key) in
    let at2 =
      strstr-append b'\r' (b'\n' ∷ []) h.value rest (All-map h.value (λ b k. k.1) w.value) in
    let fits : ltb 1 (length (b':' ∷ b' ' ∷ (h.value ++ (crlf ++ rest)))) ≡ true = ground arith in
    let set_at = ap (parsed_header_set pr h.key) (before-append h.value (crlf ++ rest)) ∙ e in
    rw (text, at1, before-append h.key (b':' ∷ b' ' ∷ (h.value ++ (crlf ++ rest))), fits, at2)
      (ap stored set_at)

starts_with_no_cr : (c : ℕ) (text : Bytes) → c ≢ b'\r' → starts_with crlf (c ∷ text) ≡ false
unfolding starts_with
starts_with_no_cr c text h = ground arith

parse_lines_cons :
    (fuel : ℕ) (pr pr' : ParsedRequest) (c : ℕ) (text next : Bytes)
    → c ≢ b'\r'
    → parsed_header_parse pr (c ∷ text) ≡ done pr'
    → strstr crlf (c ∷ text) ≡ some next
    → ltb (length next) 2 ≡ false
    → parse_lines (suc fuel) pr (c ∷ text) ≡ parse_lines fuel pr' (drop 2 next)
unfolding parse_lines
parse_lines_cons fuel pr pr' c text next n e at long =
    rw (parse_lines, starts_with_no_cr c text n, e, at, long) refl

parse_lines_step :
    (fuel : ℕ) (pr pr' : ParsedRequest) (s rest : Bytes)
    → s ≢ []
    → All (λ b. b ≢ b'\r') s
    → parsed_header_parse pr (s ++ (crlf ++ rest)) ≡ done pr'
    → parse_lines (suc fuel) pr (s ++ (crlf ++ rest)) ≡ parse_lines fuel pr' rest
parse_lines_step fuel pr pr' [] rest n w e = absurd (n refl)
parse_lines_step fuel pr pr' (c ∷ cs) rest n w e =
    let at = strstr-append b'\r' (b'\n' ∷ []) (c ∷ cs) rest w in
    parse_lines_cons fuel pr pr' c (cs ++ (crlf ++ rest)) (crlf ++ rest) w.0 e at (ground arith)

-- The request after the printed slots are parsed.
pub record IsFilled (pr : ParsedRequest) (slots : List (Option Header)) (pr' : ParsedRequest)
    : Type 0 where
  pub table : IsTable pr'
  pub line : pr'.line ≡ pr.line
  pub get :
      (j : Bytes)
      → parsed_header_get pr' j
        ≡ elim (find_header j slots) [ none ↦ parsed_header_get pr j | some h ↦ some h ]

parse_lines_end :
    (fuel : ℕ) (pr : ParsedRequest) → 2 ≤ fuel → parse_lines fuel pr crlf ≡ ok (true, pr)
unfolding parse_lines starts_with
parse_lines_end zero pr h = absurd (omega arith)
parse_lines_end (suc fuel) pr h = refl

field_of-no_cr : (h : Header) → IsField h → All (λ b. b ≢ b'\r') (field_of h)
field_of-no_cr h w =
    All-append (λ b. b ≢ b'\r') h.key (b':' ∷ b' ' ∷ h.value) (All-map h.key (λ b k. k.2) w.key)
      (omega arith, (omega arith, All-map h.value (λ b k. k.1) w.value))

length-field_of : (h : Header) → 2 ≤ length (field_of h)
length-field_of h = omega (arith, length-append h.key (b':' ∷ b' ' ∷ h.value))

IsFilled-append :
    (pr pr1 pr' : ParsedRequest) (h : Header) (slots : List (Option Header))
    → find_header h.key slots ≡ none
    → IsHeld pr h.key h.value pr1
    → IsFilled pr1 slots pr'
    → IsFilled pr (some h ∷ slots) pr'
unfolding find_header
IsFilled-append pr pr1 pr' h slots new s f = record {
  table = f.table;
  line = f.line ∙ s.line;
  get = λ j. f.get j ∙ ground (arith, s.get j, bytes_eq_iff h.key j);
}

-- Enough fuel is the length of the text.
pub parse_lines-print_lines :
    (slots : List (Option Header)) (fuel : ℕ) (pr : ParsedRequest)
    → Distinct slots
    → All IsSlot slots
    → IsTable pr
    → length (print_lines slots) ≤ fuel
    → (pr' : ParsedRequest) × (parse_lines fuel pr (print_lines slots) ≡ ok (true, pr'))
      × IsFilled pr slots pr'
unfolding print_lines find_header
parse_lines-print_lines [] fuel pr d w t le =
    (pr, parse_lines_end fuel pr le, record { table = t; line = refl; get = λ j. refl })
parse_lines-print_lines (none ∷ slots) fuel pr d w t le =
    let (pr', e, f) = parse_lines-print_lines slots fuel pr d w.1 t le in
    (pr', e, record { table = f.table; line = f.line; get = f.get })
parse_lines-print_lines (some h ∷ slots) zero pr d w t le =
    absurd
      (omega (arith, length-append h.key (b':' ∷ b' ' ∷ (h.value ++ (crlf ++ print_lines slots)))))
parse_lines-print_lines (some h ∷ slots) (suc fuel) pr d w t le =
    let (pr1, s) = parsed_header_set-IsHeld pr h.key h.value t in
    let rest = print_lines slots in
    let text : print_lines (some h ∷ slots) ≡ field_of h ++ (crlf ++ rest) = simp append_assoc in
    let size : length rest ≤ fuel =
      omega
        (arith, le, ap length text, length-append (field_of h) (crlf ++ rest), length-field_of h) in
    let (pr', e, f) = parse_lines-print_lines slots fuel pr1 d.1 w.1 s.table size in
    (
      pr',
      ap (parse_lines (suc fuel) pr) text
          ∙ (parse_lines_step fuel pr pr1 (field_of h) rest
                (λ e. absurd (omega (arith, ap length e, length-field_of h))) (field_of-no_cr h w.0)
                (parsed_header_parse_field pr pr1 h rest w.0 s.done)
              ∙ e),
      IsFilled-append pr pr1 pr' h slots d.0 s f,
    )
