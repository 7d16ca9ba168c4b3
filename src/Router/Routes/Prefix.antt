-- ===== src/Router/Routes/Prefix.antt =====
-- Masks that are prefixes: the longest is the largest.
use computer_network.Prelude.{
  ℕ, zero, suc, ◌+◌, ◌-◌, ◌*◌, ◌^◌, ◌≤◌, ◌<◌, ◌≡◌, refl, inl, inr, Bool, true, false, List, ◌∷◌,
  some, arith, All, ltb, leb, ◌||◌, if◌then◌else◌,
}
use native.Mathlib.Decide.{dec_lt}
use computer_network.Prelude.{subst, sym, All-map, All-append}
use computer_network.Router.Instance.{Route}
use computer_network.Router.Routes.{matches_route, longest_match}
use computer_network.Router.Routes.Longest.{IsLongest, longest_match-IsLongest}

-- The netmask of a prefix length in network byte order, as a little-endian machine reads it.
unfoldable pub mask_byte : ℕ → ℕ
mask_byte p = if leb 8 p then 255 else 256 - 2 ^ (8 - p)

unfoldable pub prefix_mask : ℕ → ℕ
unfolding mask_byte
prefix_mask p =
    mask_byte p
    + 2 ^ 8 * mask_byte (p - 8)
    + 2 ^ 16 * mask_byte (p - 16)
    + 2 ^ 24 * mask_byte (p - 24)

-- A test of every prefix length below a bound.
passes : (test : ℕ → Bool) (bound : ℕ) → Bool
passes test zero = true
passes test (suc len) = if test len then passes test len else false

passes_sound :
    (test : ℕ → Bool) (bound len : ℕ) → len < bound → passes test bound ≡ true → test len ≡ true
unfolding passes
passes_sound test zero len small run = absurd (omega arith)
passes_sound test (suc bound) len small run = elim (dec_lt len bound) [
  | yes below ↦ passes_sound test bound len below (ground arith)
  | no last ↦ let same : len ≡ bound = omega arith in rw same (ground arith)
]

abbrev mono_at : ℕ → ℕ → Bool
mono_at p q = leb q p || ltb (prefix_mask p) (prefix_mask q)

mono_table : passes (λ p. passes (mono_at p) 33) 33 ≡ true
unfolding passes prefix_mask
mono_table = refl

-- Longer prefixes have larger masks, also as read on a little-endian machine.
pub prefix_mask_mono : (p q : ℕ) → p < q → q ≤ 32 → prefix_mask p < prefix_mask q
prefix_mask_mono p q h k =
    let row = passes_sound (λ p. passes (mono_at p) 33) 33 p (omega arith) mono_table in
    let cell = passes_sound (mono_at p) 33 q (omega arith) row in ground arith

IsLongest-le :
    {d : ℕ} {rs : List Route} {r : Route}
    → IsLongest d rs r
    → All (λ q. matches_route d q ≡ true → q.mask ≤ r.mask) rs
IsLongest-le {d} {rs} {r} f =
    subst (All (λ q. matches_route d q ≡ true → q.mask ≤ r.mask)) (sym f.splits) (
      All-append _ f.before (r ∷ f.after)
        (All-map f.before (λ q lower hit. omega (arith, lower hit)) f.earlier)
        ((λ _. omega arith), f.later))

-- Where the mask of the route found is that of a prefix of at most 32 bits, no matching route
-- whose mask is that of such a prefix has a longer one.
pub longest_match-prefix :
    (d : ℕ) (rs : List Route) (r : Route) (p : ℕ)
    → longest_match d rs ≡ some r
    → r.mask ≡ prefix_mask p
    → p ≤ 32
    → All (λ q. matches_route d q ≡ true → (k : ℕ) → k ≤ 32 → q.mask ≡ prefix_mask k → k ≤ p) rs
longest_match-prefix d rs r p found e h = elim (longest_match-IsLongest d rs) [
  | inl (miss, _) ↦ cc
  | inr (q, hit, f) ↦
      let same : q.mask ≡ prefix_mask p = ground arith in
      All-map rs
        (λ x le m k k_le is_k. elim (dec_lt p k) [
          | yes lt ↦ absurd (omega (arith, le m, prefix_mask_mono p k lt k_le))
          | no ge ↦ omega arith
        ])
        (IsLongest-le f)
]
