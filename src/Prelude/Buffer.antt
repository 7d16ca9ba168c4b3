-- ===== src/Prelude/Buffer.antt =====
-- A byte buffer in memory: what a C struct laid over it reads and writes at an offset, on a
-- little-endian machine. Reads and writes out of the buffer are ruled out before they are made.
use Prim.Native.Nat.{ℕ, zero, suc, ◌+◌, ◌*◌, ◌/◌, ◌%◌, ◌^◌, ◌≤◌, ◌<◌}
use mathlib.Core.Path.{◌≡◌, refl, ap, ◌∙◌}
use mathlib.Core.Logic.{◌⊎◌}
use mathlib.Core.List.{List, [], ◌∷◌}
use native.Mathlib.Omega.{arith}
use native.Mathlib.Nat.{one-le-pow, pow-suc}
use computer_network.Prelude.Lists.{length, take, drop, All, length-take, length-drop}

abbrev pub IsByte : ℕ → Type 0
IsByte b = b < 256

-- `n` bytes from offset `off` on.
unfoldable pub slice : ℕ → ℕ → List ℕ → List ℕ
slice off n b = take n (drop off b)

-- memcpy(b + off, src, n)
unfoldable pub patch : ℕ → List ℕ → List ℕ → List ℕ
patch off src [] = []
patch zero [] (b ∷ bs) = b ∷ bs
patch zero (s ∷ ss) (b ∷ bs) = s ∷ patch zero ss bs
patch (suc off) src (b ∷ bs) = b ∷ patch off src bs

pub length-patch : (off : ℕ) (src b : List ℕ) → length (patch off src b) ≡ length b
unfolding patch
length-patch off src [] = refl
length-patch zero [] (b ∷ bs) = refl
length-patch zero (s ∷ ss) (b ∷ bs) = ap suc (length-patch zero ss bs)
length-patch (suc off) src (b ∷ bs) = ap suc (length-patch off src bs)

pub length-slice : (off n : ℕ) (b : List ℕ) → off + n ≤ length b → length (slice off n b) ≡ n
unfolding slice
length-slice off n b h = omega (arith, length-take n (drop off b), length-drop off b)

-- A uint8_t, a uint16_t and a uint32_t at an offset, the low byte first.
unfoldable pub le_value : List ℕ → ℕ
le_value [] = 0
le_value (b ∷ bs) = b + 256 * le_value bs

unfoldable pub le_bytes : ℕ → ℕ → List ℕ
le_bytes zero v = []
le_bytes (suc n) v = v % 256 ∷ le_bytes n (v / 256)

unfoldable pub load8 : ℕ → List ℕ → ℕ
load8 off b = le_value (slice off 1 b)

unfoldable pub load16 : ℕ → List ℕ → ℕ
load16 off b = le_value (slice off 2 b)

unfoldable pub load32 : ℕ → List ℕ → ℕ
load32 off b = le_value (slice off 4 b)

unfoldable pub store8 : ℕ → ℕ → List ℕ → List ℕ
store8 off v = patch off (le_bytes 1 v)

unfoldable pub store16 : ℕ → ℕ → List ℕ → List ℕ
store16 off v = patch off (le_bytes 2 v)

unfoldable pub store32 : ℕ → ℕ → List ℕ → List ℕ
store32 off v = patch off (le_bytes 4 v)

pub length-le_bytes : (n v : ℕ) → length (le_bytes n v) ≡ n
unfolding le_bytes
length-le_bytes zero v = refl
length-le_bytes (suc n) v = ap suc (length-le_bytes n (v / 256))

-- What was written is read back.
pub slice-patch_self :
    (off n : ℕ) (src b : List ℕ)
    → length src ≡ n
    → off + n ≤ length b
    → slice off n (patch off src b) ≡ src
unfolding slice patch
slice-patch_self zero zero [] b e h = refl
slice-patch_self zero (suc n) [] b e h = absurd (omega arith)
slice-patch_self zero zero (s ∷ ss) b e h = absurd (omega arith)
slice-patch_self zero (suc n) (s ∷ ss) [] e h = absurd (omega arith)
slice-patch_self zero (suc n) (s ∷ ss) (b ∷ bs) e h =
    ap (◌∷◌ s) (slice-patch_self zero n ss bs (omega arith) (omega arith))
slice-patch_self (suc off) zero [] [] e h = refl
slice-patch_self (suc off) (suc n) src [] e h = absurd (omega arith)
slice-patch_self (suc off) zero (s ∷ ss) [] e h = absurd (omega arith)
slice-patch_self (suc off) n src (b ∷ bs) e h = slice-patch_self off n src bs e (omega arith)

-- A field that lies apart from what was written is read as before.
pub slice-patch_ne :
    (o n off : ℕ) (src b : List ℕ)
    → (o + n ≤ off) ⊎ (off + length src ≤ o)
    → slice o n (patch off src b) ≡ slice o n b
unfolding slice patch
slice-patch_ne o n off src [] d = refl
slice-patch_ne o n zero [] (b ∷ bs) d = refl
slice-patch_ne zero zero zero (s ∷ ss) (b ∷ bs) d = refl
slice-patch_ne zero (suc n) zero (s ∷ ss) (b ∷ bs) d = absurd (omega arith)
slice-patch_ne (suc o) n zero (s ∷ ss) (b ∷ bs) d = slice-patch_ne o n zero ss bs (omega arith)
slice-patch_ne zero zero (suc off) src (b ∷ bs) d = refl
slice-patch_ne zero (suc n) (suc off) src (b ∷ bs) d =
    ap (◌∷◌ b) (slice-patch_ne zero n off src bs (omega arith))
slice-patch_ne (suc o) n (suc off) src (b ∷ bs) d = slice-patch_ne o n off src bs (omega arith)

pub All-patch :
    (off : ℕ) (src b : List ℕ) → All IsByte src → All IsByte b → All IsByte (patch off src b)
unfolding patch
All-patch off src [] hs hb = hb
All-patch zero [] (b ∷ bs) hs hb = hb
All-patch zero (s ∷ ss) (b ∷ bs) hs hb = (hs.0, All-patch zero ss bs hs.1 hb.1)
All-patch (suc off) src (b ∷ bs) hs hb = (hb.0, All-patch off src bs hs hb.1)

pub All-le_bytes : (n v : ℕ) → All IsByte (le_bytes n v)
unfolding le_bytes
All-le_bytes zero v = tt
All-le_bytes (suc n) v = (omega arith, All-le_bytes n (v / 256))

pub All-slice : (off n : ℕ) (b : List ℕ) → All IsByte b → All IsByte (slice off n b)
unfolding slice
All-slice zero zero b h = tt
All-slice zero (suc n) [] h = tt
All-slice zero (suc n) (x ∷ xs) h = (h.0, All-slice zero n xs h.1)
All-slice (suc off) zero [] h = tt
All-slice (suc off) (suc n) [] h = tt
All-slice (suc off) n (x ∷ xs) h = All-slice off n xs h.1

le_value-lt : (n : ℕ) (b : List ℕ) → All IsByte b → length b ≤ n → le_value b < 256 ^ n
unfolding le_value
le_value-lt n [] h l = one-le-pow n 256 (omega arith)
le_value-lt zero (x ∷ xs) h l = absurd (omega arith)
le_value-lt (suc n) (x ∷ xs) h l = omega (arith, pow-suc 256 n, le_value-lt n xs h.1 (omega arith))

length-slice-le : (off n : ℕ) (b : List ℕ) → length (slice off n b) ≤ n
unfolding slice
length-slice-le off n b = omega (arith, length-take n (drop off b))

-- Loads of bytes fit their widths.
pub load8-lt : (off : ℕ) (b : List ℕ) → All IsByte b → load8 off b < 2 ^ 8
unfolding load8
load8-lt off b h = le_value-lt 1 _ (All-slice off 1 b h) (length-slice-le off 1 b)

pub load16-lt : (off : ℕ) (b : List ℕ) → All IsByte b → load16 off b < 2 ^ 16
unfolding load16
load16-lt off b h = le_value-lt 2 _ (All-slice off 2 b h) (length-slice-le off 2 b)

pub load32-lt : (off : ℕ) (b : List ℕ) → All IsByte b → load32 off b < 2 ^ 32
unfolding load32
load32-lt off b h = le_value-lt 4 _ (All-slice off 4 b h) (length-slice-le off 4 b)

-- A write behind what is dropped is dropped with it.
pub drop-patch :
    (o off : ℕ) (src b : List ℕ) → off + length src ≤ o → drop o (patch off src b) ≡ drop o b
unfolding patch
drop-patch o off src [] h = refl
drop-patch o zero [] (b ∷ bs) h = refl
drop-patch zero zero (s ∷ ss) (b ∷ bs) h = absurd (omega arith)
drop-patch (suc o) zero (s ∷ ss) (b ∷ bs) h = drop-patch o zero ss bs (omega arith)
drop-patch zero (suc off) src (b ∷ bs) h = absurd (omega arith)
drop-patch (suc o) (suc off) src (b ∷ bs) h = drop-patch o off src bs (omega arith)

-- A second write to the same place.
pub patch-patch :
    (off : ℕ) (s t b : List ℕ) → length t ≡ length s → patch off s (patch off t b) ≡ patch off s b
unfolding patch
patch-patch off s t [] h = refl
patch-patch zero [] [] (b ∷ bs) h = refl
patch-patch zero [] (t ∷ ts) (b ∷ bs) h = absurd (omega arith)
patch-patch zero (s ∷ ss) [] (b ∷ bs) h = absurd (omega arith)
patch-patch zero (s ∷ ss) (t ∷ ts) (b ∷ bs) h = ap (◌∷◌ s) (patch-patch zero ss ts bs (omega arith))
patch-patch (suc off) s t (b ∷ bs) h = ap (◌∷◌ b) (patch-patch off s t bs h)

take-patch :
    (n k : ℕ) (src b : List ℕ)
    → k + length src ≤ n
    → take n (patch k src b) ≡ patch k src (take n b)
unfolding patch
take-patch zero k src [] h = refl
take-patch zero zero [] (b ∷ bs) h = refl
take-patch zero zero (s ∷ ss) (b ∷ bs) h = absurd (omega arith)
take-patch zero (suc k) src (b ∷ bs) h = absurd (omega arith)
take-patch (suc n) k src [] h = refl
take-patch (suc n) zero [] (b ∷ bs) h = refl
take-patch (suc n) zero (s ∷ ss) (b ∷ bs) h = ap (◌∷◌ s) (take-patch n zero ss bs (omega arith))
take-patch (suc n) (suc k) src (b ∷ bs) h = ap (◌∷◌ b) (take-patch n k src bs (omega arith))

-- A write inside a slice is a write to the slice.
pub slice-patch_inside :
    (o n k p : ℕ) (src b : List ℕ)
    → p ≡ o + k
    → k + length src ≤ n
    → slice o n (patch p src b) ≡ patch k src (slice o n b)
unfolding slice patch
slice-patch_inside zero n k p src b e h =
    let same : p ≡ k = omega arith in rw same (take-patch n k src b h)
slice-patch_inside (suc o) zero k p src [] e h = refl
slice-patch_inside (suc o) (suc n) k p src [] e h = refl
slice-patch_inside (suc o) n k zero src (b ∷ bs) e h = absurd (omega arith)
slice-patch_inside (suc o) n k (suc p) src (b ∷ bs) e h =
    slice-patch_inside o n k p src bs (omega arith) h

-- A byte that was stored is loaded again.
pub load8-store8 :
    (off v : ℕ) (b : List ℕ) → v < 256 → off < length b → load8 off (store8 off v b) ≡ v
unfolding load8 store8 le_value le_bytes
load8-store8 off v b h l =
    ap le_value (slice-patch_self off 1 (v % 256 ∷ []) b refl (omega arith)) ∙ omega arith

pub le_value-le_bytes : (n v : ℕ) → v < 256 ^ n → le_value (le_bytes n v) ≡ v
unfolding le_value le_bytes
le_value-le_bytes zero v h = omega arith
le_value-le_bytes (suc n) v h =
    omega (arith, pow-suc 256 n, le_value-le_bytes n (v / 256) (omega (arith, pow-suc 256 n)))
