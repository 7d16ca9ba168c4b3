-- ===== src/Prelude/Text/Laws.antt =====
-- What the searches find.
use Prim.Native.Nat.{ℕ, zero, suc}
use mathlib.Core.Path.{◌≡◌, refl, ap, ◌∙◌}
use mathlib.Core.Logic.{◌≢◌, ◌⊎◌}
use mathlib.Core.Bool.{true, false}
use mathlib.Core.Option.{some}
use mathlib.Core.List.{List, [], ◌∷◌, ◌++◌}
use native.Mathlib.Omega.{arith}
use computer_network.Prelude.Tests.{if◌then◌else◌}
use computer_network.Prelude.Lists.{length, take, drop, All, length-append}
use computer_network.Prelude.Text.{
  c_string, starts_with, strchr, strstr, before, is_delim, strspn, strcspn,
}

pub c_string-append : (s rest : List ℕ) → All (λ b. b ≢ 0) s → c_string (s ++ 0 ∷ rest) ≡ s
c_string-append [] rest h = refl
c_string-append (b ∷ bs) rest h = ground (arith, c_string-append bs rest h.1)

pub c_string-All : (s : List ℕ) → All (λ b. b ≢ 0) s → c_string s ≡ s
c_string-All [] h = refl
c_string-All (b ∷ bs) h = ground (arith, c_string-All bs h.1)

pub drop-append : (n : ℕ) (s rest : List ℕ) → n ≡ length s → drop n (s ++ rest) ≡ rest
drop-append zero [] rest h = refl
drop-append zero (b ∷ bs) rest h = absurd (omega arith)
drop-append (suc n) [] rest h = absurd (omega arith)
drop-append (suc n) (b ∷ bs) rest h = drop-append n bs rest (omega arith)

pub take-append : (n : ℕ) (s rest : List ℕ) → n ≡ length s → take n (s ++ rest) ≡ s
take-append zero [] rest h = refl
take-append zero (b ∷ bs) rest h = absurd (omega arith)
take-append (suc n) [] rest h = absurd (omega arith)
take-append (suc n) (b ∷ bs) rest h = ap (◌∷◌ b) (take-append n bs rest (omega arith))

pub before-append : (s rest : List ℕ) → before (s ++ rest) rest ≡ s
before-append s rest = take-append _ s rest (omega (arith, length-append s rest))

pub strchr-append :
    (c : ℕ) (s rest : List ℕ) → All (λ b. b ≢ c) s → strchr c (s ++ c ∷ rest) ≡ some (c ∷ rest)
unfolding strchr
strchr-append c [] rest h = ground arith
strchr-append c (b ∷ bs) rest h = ground (arith, strchr-append c bs rest h.1)

pub starts_with-append : (n rest : List ℕ) → starts_with n (n ++ rest) ≡ true
unfolding starts_with
starts_with-append [] rest = refl
starts_with-append (b ∷ bs) rest = ground (arith, starts_with-append bs rest)

pub strstr_here : (n text : List ℕ) → starts_with n text ≡ true → strstr n text ≡ some text
unfolding strstr
strstr_here n [] h = ground arith
strstr_here n (c ∷ cs) h = ground arith

strstr_skip : (c b : ℕ) (n text : List ℕ) → b ≢ c → strstr (c ∷ n) (b ∷ text) ≡ strstr (c ∷ n) text
unfolding strstr starts_with
strstr_skip c b n text h = ground arith

strstr_cons :
    (n text found : List ℕ) (b : ℕ)
    → strstr n text ≡ some found
    → strstr n (b ∷ text) ≡ some (if starts_with n (b ∷ text) then b ∷ text else found)
unfolding strstr
strstr_cons n text found b h = ground arith

-- A needle is first found where its first byte first stands, if it stands there.
pub strstr-append :
    (c : ℕ) (n s rest : List ℕ)
    → All (λ b. b ≢ c) s
    → strstr (c ∷ n) (s ++ ((c ∷ n) ++ rest)) ≡ some ((c ∷ n) ++ rest)
strstr-append c n [] rest h =
    strstr_here (c ∷ n) ((c ∷ n) ++ rest) (starts_with-append (c ∷ n) rest)
strstr-append c n (b ∷ bs) rest h =
    strstr_skip c b n (bs ++ ((c ∷ n) ++ rest)) h.0 ∙ strstr-append c n bs rest h.1

-- A needle that stands somewhere is found.
pub strstr_found :
    (n s rest : List ℕ) → (found : List ℕ) × (strstr n (s ++ (n ++ rest)) ≡ some found)
strstr_found n [] rest = (n ++ rest, strstr_here n (n ++ rest) (starts_with-append n rest))
strstr_found n (b ∷ bs) rest =
    let later = strstr_found n bs rest in (_, strstr_cons n (bs ++ (n ++ rest)) later.0 b later.1)

-- Bytes of a token, and the byte that ends it.
abbrev pub IsInside : List ℕ → List ℕ → Type 0
IsInside delims = All (λ b. (b ≢ 0) × (is_delim delims b ≡ false))

pub strspn-append :
    (delims s rest : List ℕ)
    → All (λ b. is_delim delims b ≡ true) s
    → strspn delims rest ≡ 0
    → strspn delims (s ++ rest) ≡ length s
unfolding strspn
strspn-append delims [] rest h k = k
strspn-append delims (b ∷ bs) rest h k = ground (arith, strspn-append delims bs rest h.1 k)

pub strcspn-append :
    (delims s rest : List ℕ) (d : ℕ)
    → IsInside delims s
    → (d ≡ 0) ⊎ (is_delim delims d ≡ true)
    → strcspn delims (s ++ d ∷ rest) ≡ length s
unfolding strcspn
strcspn-append delims [] rest d h k = ground arith
strcspn-append delims (b ∷ bs) rest d h k = ground (arith, strcspn-append delims bs rest d h.1 k)
