-- ===== src/Http/Headers/Table.antt =====
-- One header for a key at most, and room for one more slot.
use computer_network.Prelude.{
  ◌<◌, ◌≡◌, ◌↔◌, refl, true, List, [], ◌∷◌, ◌++◌, Option, none, some, arith, length, bytes_eq,
  bytes_eq_refl, eq_of_bytes_eq, if◌then◌else◌,
}
use computer_network.Http.Request.{Bytes, Header, ParsedRequest}
use computer_network.Http.Headers.{find_header, clear_header}

-- No two slots hold one key.
abbrev pub Distinct : List (Option Header) → Type 0
Distinct [] = Unit {0}
Distinct (none ∷ hs) = Distinct hs
Distinct (some h ∷ hs) = (find_header h.key hs ≡ none) × Distinct hs

pub record IsTable (pr : ParsedRequest) : Type 0 where
  pub distinct : Distinct pr.headers
  pub room : length pr.headers < pr.headerslen

pub bytes_eq_iff : (a b : Bytes) → (bytes_eq a b ≡ true) ↔ (a ≡ b)
bytes_eq_iff a b = (eq_of_bytes_eq a b, λ e. rw e (bytes_eq_refl b))

pub find_header-clear_header :
    (k j : Bytes) (hs : List (Option Header))
    → Distinct hs
    → find_header j (clear_header k hs) ≡ (if bytes_eq k j then none else find_header j hs)
unfolding find_header clear_header
find_header-clear_header k j [] d = ground arith
find_header-clear_header k j (none ∷ hs) d = find_header-clear_header k j hs d
find_header-clear_header k j (some h ∷ hs) d = ground (
  arith,
  bytes_eq_iff h.key k,
  bytes_eq_iff h.key j,
  bytes_eq_iff k j,
  find_header-clear_header k j hs d.1,
)

pub find_header-append :
    (j : Bytes) (h : Header) (hs : List (Option Header))
    → find_header j (hs ++ some h ∷ []) ≡ elim (find_header j hs) [
      | none ↦ if bytes_eq h.key j then some h else none
      | some g ↦ some g
    ]
unfolding find_header
find_header-append j h [] = refl
find_header-append j h (none ∷ hs) = find_header-append j h hs
find_header-append j h (some g ∷ hs) = ground (arith, find_header-append j h hs)

pub Distinct-clear_header :
    (k : Bytes) (hs : List (Option Header)) → Distinct hs → Distinct (clear_header k hs)
unfolding clear_header
Distinct-clear_header k [] d = tt
Distinct-clear_header k (none ∷ hs) d = Distinct-clear_header k hs d
Distinct-clear_header k (some h ∷ hs) d =
    ground (arith, Distinct-clear_header k hs d.1, find_header-clear_header k h.key hs d.1)

pub Distinct-append :
    (h : Header) (hs : List (Option Header))
    → Distinct hs
    → find_header h.key hs ≡ none
    → Distinct (hs ++ some h ∷ [])
unfolding find_header
Distinct-append h [] d e = (refl, tt)
Distinct-append h (none ∷ hs) d e = Distinct-append h hs d e
Distinct-append h (some g ∷ hs) d e = ground (
  arith,
  Distinct-append h hs d.1,
  find_header-append g.key h hs,
  bytes_eq_iff g.key h.key,
  bytes_eq_iff h.key g.key,
)

pub length-clear_header :
    (k : Bytes) (hs : List (Option Header)) → length (clear_header k hs) ≡ length hs
unfolding clear_header
length-clear_header k [] = refl
length-clear_header k (none ∷ hs) = omega (arith, length-clear_header k hs)
length-clear_header k (some h ∷ hs) = ground (arith, length-clear_header k hs)
