-- ===== src/Prelude/Token/Laws.antt =====
-- The token that a call finds in a buffer of known parts.
use Prim.Native.Nat.{ℕ, zero, suc, ◌+◌}
use mathlib.Core.Path.{◌≡◌, refl, sym, ap, ◌∙◌}
use mathlib.Core.Logic.{◌≢◌, ◌⊎◌, inl, inr}
use mathlib.Core.Bool.{true, false}
use mathlib.Core.Option.{none, some}
use mathlib.Core.List.{List, [], ◌∷◌, ◌++◌, append_assoc}
use native.Mathlib.Omega.{arith}
use computer_network.Prelude.Lists.{length, drop, All, All-map, length-append}
use computer_network.Prelude.Buffer.{patch}
use computer_network.Prelude.Text.{is_delim, strspn, strcspn}
use computer_network.Prelude.Text.Laws.{
  IsInside, strspn-append, strcspn-append, drop-append, c_string-append,
}
use computer_network.Prelude.Token.{text_at, strtok_r}

patch-append :
    (n : ℕ) (pre rest : List ℕ) (a b : ℕ)
    → n ≡ length pre
    → patch n (b ∷ []) (pre ++ a ∷ rest) ≡ pre ++ b ∷ rest
unfolding patch
patch-append zero [] [] a b h = refl
patch-append zero [] (x ∷ xs) a b h = refl
patch-append zero (x ∷ xs) rest a b h = absurd (omega arith)
patch-append (suc n) [] rest a b h = absurd (omega arith)
patch-append (suc n) (x ∷ xs) rest a b h = ap (◌∷◌ x) (patch-append n xs rest a b (omega arith))

-- A token of at least one byte, after delimiters to be skipped, ended by a byte.
module _ (delims pre skipped : List ℕ) (t : ℕ) (ts : List ℕ) (d : ℕ) (rest : List ℕ)
    (skip : All (λ b. is_delim delims b ≡ true) skipped) (inside : IsInside delims (t ∷ ts)) where
  abbrev whole : ℕ → List ℕ
  whole e = pre ++ (skipped ++ ((t ∷ ts) ++ e ∷ rest))

  abbrev start : ℕ
  start = length pre + length skipped

  abbrev end : ℕ
  end = start + length (t ∷ ts)

  drop-pre : (e : ℕ) → drop (length pre) (whole e) ≡ skipped ++ ((t ∷ ts) ++ e ∷ rest)
  drop-pre e = drop-append (length pre) pre _ refl

  drop-start : (e : ℕ) → drop start (whole e) ≡ (t ∷ ts) ++ e ∷ rest
  drop-start e =
      ap (drop start) (sym (append_assoc pre skipped ((t ∷ ts) ++ e ∷ rest)))
      ∙ drop-append start (pre ++ skipped) _ (omega (arith, length-append pre skipped))

  abbrev front : List ℕ
  front = pre ++ (skipped ++ (t ∷ ts))

  whole-eq-front : (e : ℕ) → whole e ≡ front ++ e ∷ rest
  whole-eq-front e = simp append_assoc

  length-front : end ≡ length front
  length-front =
      omega (arith, length-append pre (skipped ++ (t ∷ ts)), length-append skipped (t ∷ ts))

  drop-end : (e : ℕ) → drop end (whole e) ≡ e ∷ rest
  drop-end e = ap (drop end) (whole-eq-front e) ∙ drop-append end front _ length-front

  patch-end : patch end (0 ∷ []) (whole d) ≡ whole 0
  patch-end =
      ap (patch end (0 ∷ [])) (whole-eq-front d)
      ∙ patch-append end front rest d 0 length-front
      ∙ sym (whole-eq-front 0)

  span : (e : ℕ) → strspn delims (drop (length pre) (whole e)) ≡ length skipped
  unfolding strspn
  span e =
      rw (drop-pre e)
        (strspn-append delims skipped ((t ∷ ts) ++ e ∷ rest) skip (ground (arith, inside.0.1)))

  cspan :
      (e : ℕ)
      → (e ≡ 0) ⊎ (is_delim delims e ≡ true)
      → strcspn delims (drop start (whole e)) ≡ length (t ∷ ts)
  cspan e h = rw (drop-start e) (strcspn-append delims (t ∷ ts) rest e inside h)

  -- The token ends at a delimiter, which becomes a NUL.
  pub strtok_r-delim :
      d ≢ 0
      → is_delim delims d ≡ true
      → strtok_r delims (whole d) (length pre)
        ≡ record { found = some start; mem = whole 0; save = suc end }
  unfolding strtok_r
  strtok_r-delim nonzero ends =
      rw (span d, cspan d (inr ends), drop-start d, drop-end d, patch-end)
        (ground (arith, inside.0.0))

  -- The token ends at a NUL.
  pub strtok_r-nul :
      strtok_r delims (whole 0) (length pre)
      ≡ record { found = some start; mem = whole 0; save = end }
  unfolding strtok_r
  strtok_r-nul =
      rw (span 0, cspan 0 (inl refl), drop-start 0, drop-end 0) (ground (arith, inside.0.0))

  -- What stands at the token afterwards.
  pub text_at-start : text_at (whole 0) start ≡ t ∷ ts
  text_at-start =
      rw (drop-start 0) (c_string-append (t ∷ ts) rest (All-map (t ∷ ts) (λ b h. h.0) inside))

-- At the end of the text there is no token.
pub strtok_r-none :
    (delims pre rest : List ℕ)
    → is_delim delims 0 ≡ false
    → strtok_r delims (pre ++ 0 ∷ rest) (length pre)
      ≡ record { found = none; mem = pre ++ 0 ∷ rest; save = length pre }
unfolding strtok_r strspn
strtok_r-none delims pre rest h =
    let at_end = drop-append (length pre) pre (0 ∷ rest) refl in
    let same : length pre + 0 ≡ length pre = omega arith in rw (at_end, h, same, at_end) refl

-- The same for a buffer that is known to be made of parts.
module _ (delims mem mem' pre skipped : List ℕ) (t : ℕ) (ts : List ℕ) (d : ℕ) (rest : List ℕ)
    (n from to : ℕ) where
  pub token_delim :
      mem ≡ pre ++ (skipped ++ ((t ∷ ts) ++ d ∷ rest))
      → mem' ≡ pre ++ (skipped ++ ((t ∷ ts) ++ 0 ∷ rest))
      → n ≡ length pre
      → from ≡ n + length skipped
      → to ≡ suc (from + length (t ∷ ts))
      → All (λ b. is_delim delims b ≡ true) skipped
      → IsInside delims (t ∷ ts)
      → d ≢ 0
      → is_delim delims d ≡ true
      → strtok_r delims mem n ≡ record { found = some from; mem = mem'; save = to }
  token_delim e e' at start_at end_at skip inside nonzero ends =
      rw (e, e', end_at, start_at, at)
        (strtok_r-delim delims pre skipped t ts d rest skip inside nonzero ends)

  pub token_nul :
      mem ≡ pre ++ (skipped ++ ((t ∷ ts) ++ 0 ∷ rest))
      → n ≡ length pre
      → from ≡ n + length skipped
      → to ≡ from + length (t ∷ ts)
      → All (λ b. is_delim delims b ≡ true) skipped
      → IsInside delims (t ∷ ts)
      → strtok_r delims mem n ≡ record { found = some from; mem = mem; save = to }
  token_nul e at start_at end_at skip inside =
      rw (e, end_at, start_at, at) (strtok_r-nul delims pre skipped t ts 0 rest skip inside)

pub token_none :
    (delims mem pre rest : List ℕ) (n : ℕ)
    → mem ≡ pre ++ 0 ∷ rest
    → n ≡ length pre
    → is_delim delims 0 ≡ false
    → strtok_r delims mem n ≡ record { found = none; mem = mem; save = n }
token_none delims mem pre rest n e at h = rw (e, at) (strtok_r-none delims pre rest h)

pub text_at_part :
    (mem pre s rest : List ℕ) (n : ℕ)
    → mem ≡ pre ++ (s ++ 0 ∷ rest)
    → n ≡ length pre
    → All (λ b. b ≢ 0) s
    → text_at mem n ≡ s
text_at_part mem pre s rest n e at h =
    rw (e, drop-append n pre (s ++ 0 ∷ rest) at) (c_string-append s rest h)
