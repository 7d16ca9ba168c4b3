-- ===== src/Router/Icmp/Echo.antt =====
-- The answer to an echo request.
use computer_network.Prelude.{
  ◌-◌, ◌^◌, ◌≤◌, ◌<◌, ◌≡◌, refl, ap, sym, subst, ◌∙◌, arith, take_all, drop, length, length-drop,
  All,
}
use computer_network.Prelude.Buffer.{
  IsByte, slice, load8, load32, store8, store16, store32, le_bytes, le_value, le_value-le_bytes,
  slice-patch_self, slice-patch_ne, length-patch, length-le_bytes, drop-patch, load32-lt,
}
use computer_network.Router.Cksum.{cksum}
use computer_network.Router.Cksum.Verify.{IsChecksummed, max_len}
use computer_network.Router.Instance.{Bytes, Interface}
use computer_network.Router.Frame.{
  ether_dhost, ether_shost, ip_header, ip_src, ip_dst, icmp_type, icmp_code, set_ip_cksum,
}
use computer_network.Router.Frame.Checksums.{
  slice-IsChecksummed, set_ip_cksum-IsChecksummed, All-store8, All-store16, All-store32,
}
use computer_network.Router.Icmp.{echo_frame}

-- The answer `g` to the echo request `f` that came in by the interface `i`.
pub record IsEcho (i : Interface) (source destination f g : Bytes) : Type 0 where
  pub same_length : length g ≡ length f
  pub to_sender : ether_dhost g ≡ source
  pub from_us : ether_shost g ≡ destination
  pub our_ip : ip_src g ≡ i.ip
  pub to_source : ip_dst g ≡ ip_src f
  pub is_answer : (icmp_type g ≡ 0) × (icmp_code g ≡ 0)
  pub header_verifies : IsChecksummed (ip_header g)
  pub message_verifies : IsChecksummed (slice 34 (length f - 34) g)
  pub same_payload : drop 38 g ≡ drop 38 f

ruleset written = (arith, length-le_bytes, slice-patch_ne, slice-patch_self, length-patch)

module _ (i : Interface) (source destination f : Bytes) (long : 38 ≤ length f)
    (short : length f ≤ max_len) (bytes : All IsByte f) (there : length source ≡ 6)
    (here : length destination ≡ 6) where
  abbrev echo : Bytes
  echo = echo_frame i source destination f

  echo-length : length echo ≡ length f
  unfolding echo_frame set_ip_cksum store8 store16 store32
  echo-length = grind (arith, length-patch)

  echo-dhost : ether_dhost echo ≡ source
  unfolding echo_frame set_ip_cksum store8 store16 store32
  echo-dhost = grind written

  echo-shost : ether_shost echo ≡ destination
  unfolding echo_frame set_ip_cksum store8 store16 store32
  echo-shost = grind written

  echo-src : slice 26 4 echo ≡ le_bytes 4 i.ip
  unfolding echo_frame set_ip_cksum store8 store16 store32
  echo-src = grind written

  echo-type : slice 34 1 echo ≡ le_bytes 1 0
  unfolding echo_frame set_ip_cksum store8 store16 store32
  echo-type = grind written

  echo-code : slice 35 1 echo ≡ le_bytes 1 0
  unfolding echo_frame set_ip_cksum store8 store16 store32
  echo-code = grind written

  -- The request as an answer, its checksum still to be set.
  answered : Bytes
  answered = store8 35 0 (store8 34 0 f)

  answered-length : length answered ≡ length f
  unfolding answered store8
  answered-length = grind (arith, length-patch)

  answered-bytes : All IsByte answered
  unfolding answered
  answered-bytes = All-store8 35 0 _ (All-store8 34 0 f bytes)

  summed : Bytes
  unfolding answered
  summed = store16 36 (cksum (drop 34 (store16 36 0 answered))) (store16 36 0 answered)

  summed-src : ip_src summed ≡ ip_src f
  unfolding summed load32 store8 store16
  summed-src = ap le_value (grind (arith, length-le_bytes, slice-patch_ne))

  echo-dst : slice 30 4 echo ≡ le_bytes 4 (ip_src f)
  unfolding echo_frame set_ip_cksum store8 store16 store32 summed
  echo-dst = grind (written, summed-src)

  before_ip : Bytes
  before_ip = store32 26 i.ip (store32 30 (ip_src summed) summed)

  before_ip-length : length before_ip ≡ length f
  unfolding before_ip summed answered store8 store16 store32
  before_ip-length = grind (arith, length-patch)

  before_ip-bytes : All IsByte before_ip
  unfolding before_ip summed
  before_ip-bytes =
      All-store32 26 _ _
        (All-store32 30 _ _ (All-store16 36 _ _ (All-store16 36 0 _ answered-bytes)))

  echo-header_verifies : IsChecksummed (ip_header echo)
  unfolding echo_frame before_ip summed answered
  echo-header_verifies =
      subst IsChecksummed
        (sym (
          slice-patch_ne 14 20 6 destination _ (omega arith)
          ∙ slice-patch_ne 14 20 0 source (set_ip_cksum before_ip) (omega arith)))
        (set_ip_cksum-IsChecksummed before_ip (omega (arith, before_ip-length)) before_ip-bytes)

  drop-eq-slice : (z : Bytes) → length z ≡ length f → drop 34 z ≡ slice 34 (length f - 34) z
  unfolding slice
  drop-eq-slice z e = sym (take_all (length f - 34) (drop 34 z) (omega (arith, length-drop 34 z)))

  summed-verifies : IsChecksummed (slice 34 (length f - 34) summed)
  unfolding summed store16
  summed-verifies =
      let z = store16 36 0 answered in
      let zl : length z ≡ length f = length-patch 36 (le_bytes 2 0) answered ∙ answered-length in
      subst (λ c. IsChecksummed (slice 34 (length f - 34) (store16 36 (cksum c) z)))
        (sym (drop-eq-slice z zl))
        (slice-IsChecksummed 34 (length f - 34) 2 36 answered refl refl (omega arith) (omega arith)
          (omega (arith, answered-length)) answered-bytes)

  echo-message_verifies : IsChecksummed (slice 34 (length f - 34) echo)
  unfolding echo_frame set_ip_cksum store16 store32 summed answered
  echo-message_verifies =
      let n = length f - 34 in
      subst IsChecksummed
        (sym (
          slice-patch_ne 34 n 6 destination _ (omega arith)
          ∙ slice-patch_ne 34 n 0 source _ (omega arith)
          ∙ slice-patch_ne 34 n 24 (le_bytes 2 _) _ (omega (arith, length-le_bytes 2))
          ∙ slice-patch_ne 34 n 24 (le_bytes 2 0) _ (omega (arith, length-le_bytes 2))
          ∙ slice-patch_ne 34 n 26 (le_bytes 4 i.ip) _ (omega (arith, length-le_bytes 4))
          ∙ slice-patch_ne 34 n 30 (le_bytes 4 _) _ (omega (arith, length-le_bytes 4))))
        summed-verifies

  echo-payload : drop 38 echo ≡ drop 38 f
  unfolding echo_frame set_ip_cksum store8 store16 store32
  echo-payload =
      drop-patch 38 6 destination _ (omega arith)
      ∙ drop-patch 38 0 source _ (omega arith)
      ∙ drop-patch 38 24 (le_bytes 2 _) _ (omega (arith, length-le_bytes 2))
      ∙ drop-patch 38 24 (le_bytes 2 0) _ (omega (arith, length-le_bytes 2))
      ∙ drop-patch 38 26 (le_bytes 4 i.ip) _ (omega (arith, length-le_bytes 4))
      ∙ drop-patch 38 30 (le_bytes 4 _) _ (omega (arith, length-le_bytes 4))
      ∙ drop-patch 38 36 (le_bytes 2 _) _ (omega (arith, length-le_bytes 2))
      ∙ drop-patch 38 36 (le_bytes 2 0) _ (omega (arith, length-le_bytes 2))
      ∙ drop-patch 38 35 (le_bytes 1 0) _ (omega (arith, length-le_bytes 1))
      ∙ drop-patch 38 34 (le_bytes 1 0) f (omega (arith, length-le_bytes 1))

  pub echo_frame-IsEcho : i.ip < 2 ^ 32 → IsEcho i source destination f echo
  unfolding load8 load32
  echo_frame-IsEcho word = record {
    same_length = echo-length;
    to_sender = echo-dhost;
    from_us = echo-shost;
    our_ip = ap le_value echo-src ∙ le_value-le_bytes 4 i.ip word;
    to_source = ap le_value echo-dst ∙ le_value-le_bytes 4 (ip_src f) (load32-lt 26 f bytes);
    is_answer = (
      ap le_value echo-type ∙ le_value-le_bytes 1 0 (omega arith),
      ap le_value echo-code ∙ le_value-le_bytes 1 0 (omega arith),
    );
    header_verifies = echo-header_verifies;
    message_verifies = echo-message_verifies;
    same_payload = echo-payload;
  }
