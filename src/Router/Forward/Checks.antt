-- ===== src/Router/Forward/Checks.antt =====
-- Which frames sr_handlepacket lets through.
use computer_network.Prelude.{ℕ, ◌≤◌, ◌<◌, ◌≡◌, ◌≢◌, ◌⊎◌, inl, inr, arith, length, All}
use computer_network.Prelude.Buffer.{IsByte, length-slice, All-slice}
use computer_network.Router.Cksum.{cksum, htons}
use computer_network.Router.Cksum.Verify.{IsChecksummed, cksum-eq-ffff_iff}
use computer_network.Prelude.Result.{ok, fault, out_of_bounds}
use computer_network.Router.Instance.{Bytes, Instance}
use computer_network.Router.Frame.{
  ether_type, ether_shost, ether_dhost, ip_header, ip_sum, ip_p, ethertype_arp, ethertype_ip,
  ip_protocol_icmp,
}
use native.Mathlib.Decide.{dec_lt}
use computer_network.Router.Arp.Reply.{short_arp_out_of_bounds}
use computer_network.Router.Forward.{handle_ip_frame, sr_handle_ip_packet, sr_handlepacket}

cksum-ip_header :
    (f : Bytes)
    → 34 ≤ length f
    → All IsByte f
    → IsChecksummed (ip_header f)
    → cksum (ip_header f) ≡ 0xffff
cksum-ip_header f long bytes good =
    (cksum-eq-ffff_iff (ip_header f) (All-slice 14 20 f bytes)
        (omega (arith, length-slice 14 20 f long))).1
      good

module _ (junk : Bytes) (now fuel : ℕ) (sr : Instance) (f interface : Bytes) where
  -- A frame of 34 bytes or more that holds an IP packet whose header checksum is right changes
  -- nothing, if the checksum field is not 0xffff: the packet is dropped.
  pub valid_header_dropped :
      34 ≤ length f
      → All IsByte f
      → htons (ether_type f) ≡ ethertype_ip
      → IsChecksummed (ip_header f)
      → ip_sum f ≢ 0xffff
      → sr_handlepacket junk now fuel sr f interface ≡ ok sr
  unfolding sr_handlepacket handle_ip_frame
  valid_header_dropped long bytes type good sum = ground (arith, cksum-ip_header f long bytes good)

  -- A frame of 34 bytes or more that holds an IP packet whose header checksum is right and equals
  -- 0xffff, and whose payload is not ICMP, goes on to sr_handle_ip_packet.
  pub valid_header_passed :
      34 ≤ length f
      → All IsByte f
      → htons (ether_type f) ≡ ethertype_ip
      → IsChecksummed (ip_header f)
      → ip_sum f ≡ 0xffff
      → ip_p f ≢ ip_protocol_icmp
      → sr_handlepacket junk now fuel sr f interface
        ≡ sr_handle_ip_packet junk now fuel sr f interface (ether_shost f) (ether_dhost f)
  unfolding sr_handlepacket handle_ip_frame
  valid_header_passed long bytes type good sum proto =
      ground (arith, cksum-ip_header f long bytes good)

  -- A frame with an Ethernet header that holds IP and is shorter than 34 bytes, or holds ICMP and
  -- is shorter than 70, changes nothing.
  pub truncated_ignored :
      14 ≤ length f
      → htons (ether_type f) ≡ ethertype_ip
      → (length f < 34) ⊎ ((length f < 70) × (ip_p f ≡ ip_protocol_icmp))
      → sr_handlepacket junk now fuel sr f interface ≡ ok sr
  unfolding sr_handlepacket handle_ip_frame
  truncated_ignored h t s = ground arith

  -- A frame that holds neither IP nor ARP changes nothing.
  pub other_type_ignored :
      14 ≤ length f
      → htons (ether_type f) ≢ ethertype_ip
      → htons (ether_type f) ≢ ethertype_arp
      → sr_handlepacket junk now fuel sr f interface ≡ ok sr
  unfolding sr_handlepacket
  other_type_ignored h t u = ground arith

  -- A frame too short for the header of Ethernet, or of the ARP packet that it claims to hold, is
  -- read past its end.
  pub truncated_out_of_bounds :
      (length f < 14) ⊎ ((length f < 42) × (htons (ether_type f) ≡ ethertype_arp))
      → sr_handlepacket junk now fuel sr f interface ≡ fault out_of_bounds
  unfolding sr_handlepacket
  truncated_out_of_bounds h = elim h [
    | inl short ↦ ground arith
    | inr (short, arp) ↦ elim (dec_lt (length f) 14) [
      | yes few ↦ ground arith
      | no many ↦ ground (arith, short_arp_out_of_bounds now sr f short)
    ]
  ]
