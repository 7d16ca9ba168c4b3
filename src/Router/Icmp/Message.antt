-- ===== src/Router/Icmp/Message.antt =====
-- The ICMP error messages that sr_send_icmp_packet makes.
use computer_network.Prelude.{
  ℕ, ◌^◌, ◌≤◌, ◌<◌, ◌≡◌, refl, ap, sym, subst, ◌∙◌, inr, arith, take, take_all, length, length-take,
  All,
}
use computer_network.Prelude.Buffer.{
  IsByte, slice, patch, load8, load16, load32, store8, store16, store32, le_bytes, le_value,
  le_value-le_bytes, slice-patch_self, slice-patch_ne, length-patch, length-le_bytes, All-slice,
  All-patch,
}
use computer_network.Router.Cksum.{htons}
use computer_network.Router.Cksum.Verify.{IsChecksummed}
use computer_network.Router.Frame.Checksums.{
  slice-IsChecksummed, set_ip_cksum-IsChecksummed, All-store8, All-store16, All-store32,
}
use computer_network.Router.Instance.{Bytes, Interface}
use computer_network.Router.Frame.{
  ether_shost, ether_type, ip_header, ip_ttl, ip_p, ip_src, ip_dst, icmp_type, icmp_code,
  set_ip_cksum, ethertype_ip, ip_protocol_icmp,
}
use computer_network.Router.Icmp.{icmp_frame, icmp_frame_from}

-- The error message of a type and code about `ip_packet`, from the interface to `dst`.
pub record IsError (i : Interface) (dst : ℕ) (ip_packet : Bytes) (type code : ℕ) (g : Bytes)
    : Type 0 where
  pub size : length g ≡ 70
  pub from_us : ether_shost g ≡ i.addr
  pub is_ip : htons (ether_type g) ≡ ethertype_ip
  pub lives : ip_ttl g ≡ 64
  pub is_icmp : ip_p g ≡ ip_protocol_icmp
  pub our_ip : ip_src g ≡ i.ip
  pub to_source : ip_dst g ≡ dst
  pub header_verifies : IsChecksummed (ip_header g)
  pub its_type : icmp_type g ≡ type
  pub its_code : icmp_code g ≡ code
  pub quotes : slice 42 28 g ≡ take 28 ip_packet
  pub message_verifies : IsChecksummed (slice 34 36 g)

ruleset written = (arith, length-le_bytes, slice-patch_ne, slice-patch_self, length-patch)

module _ (i : Interface) (junk ip_packet : Bytes) (dst type code : ℕ) (room : length junk ≡ 70)
    (mac : length i.addr ≡ 6) (enough : 28 ≤ length ip_packet) where
  abbrev message : Bytes
  message = icmp_frame_from i (icmp_frame junk dst ip_packet type code)

  data_length : length (take 28 ip_packet) ≡ 28
  data_length = omega (arith, length-take 28 ip_packet)

  own : take 6 i.addr ≡ i.addr
  own = take_all 6 i.addr (omega arith)

  message-size : length message ≡ 70
  unfolding icmp_frame_from icmp_frame set_ip_cksum store8 store16 store32
  message-size = grind (arith, length-patch)

  message-type : slice 12 2 message ≡ le_bytes 2 (htons ethertype_ip)
  unfolding icmp_frame_from icmp_frame set_ip_cksum store8 store16 store32
  message-type = grind written

  message-ttl : slice 22 1 message ≡ le_bytes 1 64
  unfolding icmp_frame_from icmp_frame set_ip_cksum store8 store16 store32
  message-ttl = grind written

  message-protocol : slice 23 1 message ≡ le_bytes 1 ip_protocol_icmp
  unfolding icmp_frame_from icmp_frame set_ip_cksum store8 store16 store32
  message-protocol = grind written

  message-src : slice 26 4 message ≡ le_bytes 4 i.ip
  unfolding icmp_frame_from icmp_frame set_ip_cksum store8 store16 store32
  message-src = grind written

  message-dst : slice 30 4 message ≡ le_bytes 4 dst
  unfolding icmp_frame_from icmp_frame set_ip_cksum store8 store16 store32
  message-dst = grind written

  message-icmp_type : slice 34 1 message ≡ le_bytes 1 type
  unfolding icmp_frame_from icmp_frame set_ip_cksum store8 store16 store32
  message-icmp_type = grind written

  message-icmp_code : slice 35 1 message ≡ le_bytes 1 code
  unfolding icmp_frame_from icmp_frame set_ip_cksum store8 store16 store32
  message-icmp_code = grind written

  message-shost : ether_shost message ≡ i.addr
  unfolding icmp_frame_from icmp_frame set_ip_cksum store8 store16 store32
  message-shost = grind (written, own)

  message-data : slice 42 28 message ≡ take 28 ip_packet
  unfolding icmp_frame_from icmp_frame set_ip_cksum store8 store16 store32
  message-data = grind (written, own, data_length)

  -- The frame before its checksums are set, byte by byte.
  module _ (junk_bytes : All IsByte junk) (packet_bytes : All IsByte ip_packet) where
    data_bytes : All IsByte (take 28 ip_packet)
    data_bytes = unfold slice in All-slice 0 28 ip_packet packet_bytes

    before_cksum : Bytes
    before_cksum = patch 42 (take 28 ip_packet) (
        store8 35 code (
          store8 34 type (
            store8 14 0x45 (
              store32 30 dst (
                store8 23 ip_protocol_icmp (
                  store8 22 64 (
                    store16 20 (htons 0x4000) (
                      store16 18 (htons 0) (
                        store16 16 (htons 56)
                          (store8 15 0 (store16 12 (htons ethertype_ip) junk)))))))))))

    before_cksum_bytes : All IsByte before_cksum
    unfolding before_cksum
    before_cksum_bytes =
        All-patch 42 _ _ data_bytes
          (search (All-store8, All-store16, All-store32, junk_bytes) depth 14)

    unsourced : Bytes
    unsourced = icmp_frame junk dst ip_packet type code

    unsourced-length : length unsourced ≡ 70
    unfolding unsourced icmp_frame store8 store16 store32
    unsourced-length = grind (arith, length-patch)

    before_cksum-length : length before_cksum ≡ 70
    unfolding before_cksum store8 store16 store32
    before_cksum-length = grind (arith, length-patch)

    unsourced_bytes : All IsByte unsourced
    unfolding unsourced icmp_frame before_cksum
    unsourced_bytes = All-store16 36 _ _ (All-store16 36 0 _ before_cksum_bytes)

    message-header_verifies : IsChecksummed (ip_header message)
    unfolding icmp_frame_from unsourced store32
    message-header_verifies =
        let sourced = store32 26 i.ip unsourced in
        subst IsChecksummed
          (sym (
            slice-patch_ne 14 20 6 (take 6 i.addr) (set_ip_cksum sourced)
              (inr (rw own (omega arith)))))
          (set_ip_cksum-IsChecksummed sourced
            (omega (arith, unsourced-length, length-patch 26 (le_bytes 4 i.ip) unsourced))
            (All-store32 26 i.ip unsourced unsourced_bytes))

    message-verifies : IsChecksummed (slice 34 36 message)
    unfolding icmp_frame_from icmp_frame set_ip_cksum store16 store32 before_cksum
    message-verifies =
        subst IsChecksummed
          (sym (
            slice-patch_ne 34 36 6 (take 6 i.addr) _ (inr (rw own (omega arith)))
            ∙ slice-patch_ne 34 36 24 (le_bytes 2 _) _ (omega (arith, length-le_bytes 2))
            ∙ slice-patch_ne 34 36 24 (le_bytes 2 0) _ (omega (arith, length-le_bytes 2))
            ∙ slice-patch_ne 34 36 26 (le_bytes 4 i.ip) _ (omega (arith, length-le_bytes 4))))
          (slice-IsChecksummed 34 36 2 36 before_cksum refl refl (omega arith) (omega arith)
            (omega (arith, before_cksum-length)) before_cksum_bytes)

    pub message-IsError :
        i.ip < 2 ^ 32
        → dst < 2 ^ 32
        → type < 256
        → code < 256
        → IsError i dst ip_packet type code message
    unfolding load8 load16 load32
    message-IsError a b c d = record {
      size = message-size;
      from_us = message-shost;
      is_ip = ap (λ s. htons (le_value s)) message-type ∙ unfold htons le_value le_bytes in refl;
      lives = ap le_value message-ttl ∙ le_value-le_bytes 1 64 (omega arith);
      is_icmp = ap le_value message-protocol ∙ le_value-le_bytes 1 1 (omega arith);
      our_ip = ap le_value message-src ∙ le_value-le_bytes 4 i.ip a;
      to_source = ap le_value message-dst ∙ le_value-le_bytes 4 dst b;
      header_verifies = message-header_verifies;
      its_type = ap le_value message-icmp_type ∙ le_value-le_bytes 1 type c;
      its_code = ap le_value message-icmp_code ∙ le_value-le_bytes 1 code d;
      quotes = message-data;
      message_verifies = message-verifies;
    }
