-- ===== src/Prelude/Text.antt =====
-- The functions of string.h on bytes. A string of C is what stands before the first NUL; where a
-- function returns a pointer, the model returns what stands from that pointer on.
pub mod Laws
use Prim.Native.Nat.{ℕ, zero, suc, ◌-◌}
use mathlib.Core.Bool.{Bool, true, false, ◌&&◌, ◌||◌}
use mathlib.Core.Option.{Option, none, some}
use mathlib.Core.List.{List, [], ◌∷◌}
use computer_network.Prelude.Tests.{◌==◌, if◌then◌else◌}
use computer_network.Prelude.Lists.{length, take}

abbrev pub c_string : List ℕ → List ℕ
c_string [] = []
c_string (b ∷ bs) = if b == 0 then [] else b ∷ c_string bs

-- Whether a text begins with another: !strncmp(text, needle, strlen(needle)).
unfoldable pub starts_with : List ℕ → List ℕ → Bool
starts_with [] text = true
starts_with (n ∷ ns) [] = false
starts_with (n ∷ ns) (c ∷ cs) = n == c && starts_with ns cs

unfoldable pub strchr : ℕ → List ℕ → Option (List ℕ)
strchr c [] = none
strchr c (x ∷ xs) = if x == c then some (x ∷ xs) else strchr c xs

unfoldable pub strstr : List ℕ → List ℕ → Option (List ℕ)
strstr needle [] = if starts_with needle [] then some [] else none
strstr needle (x ∷ xs) = if starts_with needle (x ∷ xs) then some (x ∷ xs) else strstr needle xs

-- The bytes of a text before a pointer into it.
abbrev pub before : List ℕ → List ℕ → List ℕ
before text rest = take (length text - length rest) text

-- Whether a byte is one of the delimiters.
unfoldable pub is_delim : List ℕ → ℕ → Bool
is_delim [] c = false
is_delim (d ∷ ds) c = c == d || is_delim ds c

unfoldable pub strspn : List ℕ → List ℕ → ℕ
strspn delims [] = 0
strspn delims (c ∷ cs) = if is_delim delims c then suc (strspn delims cs) else 0

unfoldable pub strcspn : List ℕ → List ℕ → ℕ
strcspn delims [] = 0
strcspn delims (c ∷ cs) = if c == 0 || is_delim delims c then 0 else suc (strcspn delims cs)
