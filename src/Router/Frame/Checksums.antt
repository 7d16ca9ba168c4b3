-- ===== src/Router/Frame/Checksums.antt =====
-- A checksum field inside a header that is set over that header makes it verify.
use computer_network.Prelude.{ℕ, ◌+◌, ◌%◌, ◌≤◌, ◌≡◌, refl, ap, sym, subst, ◌∙◌, arith, length, All}
use computer_network.Prelude.Buffer.{
  IsByte, slice, store8, store16, store32, le_bytes, slice-patch_inside, patch-patch, length-patch,
  length-slice, length-le_bytes, All-slice, All-patch, All-le_bytes,
}
use computer_network.Router.Cksum.{cksum}
use computer_network.Router.Cksum.Verify.{IsChecksummed, IsChecksummed-store16, max_len}
use computer_network.Router.Instance.{Bytes}
use computer_network.Router.Frame.{ip_header, set_ip_cksum}

-- The field lies at `p`, `k` bytes into the `n` bytes from `o` on that are summed.
pub slice-IsChecksummed :
    (o n k p : ℕ) (f : Bytes)
    → p ≡ o + k
    → k % 2 ≡ 0
    → k + 2 ≤ n
    → n ≤ max_len
    → o + n ≤ length f
    → All IsByte f
    → let z = store16 p 0 f in IsChecksummed (slice o n (store16 p (cksum (slice o n z)) z))
unfolding store16
slice-IsChecksummed o n k p f e even fits short long bytes =
    let h = slice o n f in
    let z = store16 k 0 h in
    let inside : (v : ℕ) (g : Bytes) → slice o n (store16 p v g) ≡ store16 k v (slice o n g) =
      λ v g. slice-patch_inside o n k p (le_bytes 2 v) g e (omega (arith, length-le_bytes 2 v)) in
    let again : store16 k 0 z ≡ z = patch-patch k (le_bytes 2 0) (le_bytes 2 0) h refl in
    let zb : All IsByte z =
      All-patch k (le_bytes 2 0) h (All-le_bytes 2 0) (All-slice o n f bytes) in
    let zl : length z ≡ n =
      omega (arith, length-patch k (le_bytes 2 0) h, length-slice o n f long) in
    subst IsChecksummed
      (ap (λ c. store16 k (cksum c) z) again
        ∙ sym (inside _ (store16 p 0 f) ∙ ap (λ c. store16 k (cksum c) c) (inside 0 f)))
      (IsChecksummed-store16 k z zb (omega arith) even (omega arith))

pub set_ip_cksum-IsChecksummed :
    (f : Bytes) → 34 ≤ length f → All IsByte f → IsChecksummed (ip_header (set_ip_cksum f))
unfolding set_ip_cksum
set_ip_cksum-IsChecksummed f long bytes =
    slice-IsChecksummed 14 20 10 24 f refl refl (omega arith) (omega arith) (omega arith) bytes

pub All-store8 : (o v : ℕ) (f : Bytes) → All IsByte f → All IsByte (store8 o v f)
unfolding store8
All-store8 o v f h = All-patch o _ f (All-le_bytes 1 v) h

pub All-store16 : (o v : ℕ) (f : Bytes) → All IsByte f → All IsByte (store16 o v f)
unfolding store16
All-store16 o v f h = All-patch o _ f (All-le_bytes 2 v) h

pub All-store32 : (o v : ℕ) (f : Bytes) → All IsByte f → All IsByte (store32 o v f)
unfolding store32
All-store32 o v f h = All-patch o _ f (All-le_bytes 4 v) h

pub All-set_ip_cksum : (f : Bytes) → All IsByte f → All IsByte (set_ip_cksum f)
unfolding set_ip_cksum
All-set_ip_cksum f h = All-store16 24 _ _ (All-store16 24 0 f h)

pub length-set_ip_cksum : (f : Bytes) → length (set_ip_cksum f) ≡ length f
unfolding set_ip_cksum store16
length-set_ip_cksum f = length-patch 24 _ _ ∙ length-patch 24 _ f
