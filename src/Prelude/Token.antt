-- ===== src/Prelude/Token.antt =====
-- strtok_r of string.h, on the buffer that it writes to. Pointers are offsets, and every text in
-- the buffer ends with a NUL before its end.
pub mod Laws
use Prim.Native.Nat.{ℕ, suc, ◌+◌}
use mathlib.Core.Bool.{Bool}
use mathlib.Core.Option.{Option, none, some}
use mathlib.Core.List.{List, [], ◌∷◌, ◌++◌}
use computer_network.Prelude.Tests.{◌==◌, if◌then◌else◌}
use computer_network.Prelude.Lists.{length, take, drop}
use computer_network.Prelude.Buffer.{patch}
use computer_network.Prelude.Text.{c_string, strspn, strcspn}

-- The token, the buffer and the pointer that the next call goes on from.
pub record Token : Type 0 where
  pub found : Option ℕ
  pub mem : List ℕ
  pub save : ℕ

-- The byte at an offset.
abbrev pub first_byte : List ℕ → ℕ
first_byte [] = 0
first_byte (b ∷ bs) = b

abbrev pub text_at : List ℕ → ℕ → List ℕ
text_at mem p = c_string (drop p mem)

unfoldable pub strtok_r : List ℕ → List ℕ → ℕ → Token
strtok_r delims mem p =
    let start = p + strspn delims (drop p mem) in
    let end = start + strcspn delims (drop start mem) in
    if first_byte (drop start mem) == 0
    then record { found = none; mem = mem; save = start }
    else if first_byte (drop end mem) == 0
    then record { found = some start; mem = mem; save = end }
    else record { found = some start; mem = patch end (0 ∷ []) mem; save = suc end }
