-- ===== src/Router/Forward/Relay.antt =====
-- Packets for other hosts.
use computer_network.Prelude.{
  ℕ, ◌+◌, ◌%◌, ◌≤◌, ◌≡◌, ap, sym, subst, ◌∙◌, ◌⊎◌, inr, ◌∷◌, none, some, arith, take, drop,
  take_all, length, All,
}
use computer_network.Prelude.Buffer.{
  IsByte, slice, patch, load8, load16, load32, store8, store16, le_bytes, le_value,
  slice-patch_self, slice-patch_ne, length-patch, All-patch, All-le_bytes, load8-lt, load8-store8,
  drop-patch, length-le_bytes,
}
use computer_network.Router.Cksum.Verify.{IsChecksummed}
use computer_network.Router.Frame.Checksums.{set_ip_cksum-IsChecksummed}
use computer_network.Prelude.Result.{ok}
use computer_network.Router.Instance.{Bytes, Interface, Route, ArpEntry, Instance}
use computer_network.Router.Interfaces.{get_interface_from_ip, sr_get_interface}
use computer_network.Router.Routes.{longest_match}
use computer_network.Router.ArpCache.{sr_arpcache_lookup}
use computer_network.Router.Frame.{
  ether_dhost, ether_shost, ether_type, ip_header, ip_ttl, ip_p, ip_src, ip_dst, set_ip_cksum,
}
use computer_network.Router.Send.Wire.{sr_send_packet_ok}
use computer_network.Router.Forward.{
  decrement_ttl, relay_frame, relay, ip_forwarding, sr_handle_ip_packet,
}

-- What becomes of a frame that is sent on: one less TTL, a right header checksum, the addresses
-- of the next hop, and all else as it came.
pub record IsRelayed (i : Interface) (entry : ArpEntry) (f g : Bytes) : Type 0 where
  pub same_length : length g ≡ length f
  pub to_next_hop : ether_dhost g ≡ entry.mac
  pub from_us : ether_shost g ≡ i.addr
  pub same_type : ether_type g ≡ ether_type f
  pub aged : ip_ttl g + 1 ≡ ip_ttl f
  pub verifies : IsChecksummed (ip_header g)
  pub same_start : slice 14 8 g ≡ slice 14 8 f
  pub same_protocol : ip_p g ≡ ip_p f
  pub same_source : ip_src g ≡ ip_src f
  pub same_destination : ip_dst g ≡ ip_dst f
  pub same_payload : drop 34 g ≡ drop 34 f

module _ (i : Interface) (entry : ArpEntry) (f : Bytes) (long : 34 ≤ length f)
    (bytes : All IsByte f) (mac : length i.addr ≡ 6) (next : length entry.mac ≡ 6)
    (alive : 2 ≤ ip_ttl f) where
  aged_bytes : All IsByte (decrement_ttl f)
  unfolding decrement_ttl store8
  aged_bytes = All-patch 22 _ f (All-le_bytes 1 _) bytes

  aged_length : length (decrement_ttl f) ≡ length f
  unfolding decrement_ttl store8
  aged_length = length-patch 22 _ f

  relay_frame-verifies :
      IsChecksummed (ip_header (relay_frame i entry (set_ip_cksum (decrement_ttl f))))
  unfolding relay_frame
  relay_frame-verifies =
      let pre = set_ip_cksum (decrement_ttl f) in
      let own : take 6 i.addr ≡ i.addr = take_all 6 i.addr (omega arith) in
      subst IsChecksummed
        (sym (
          slice-patch_ne 14 20 0 entry.mac (patch 6 (take 6 i.addr) pre) (omega arith)
          ∙ slice-patch_ne 14 20 6 (take 6 i.addr) pre (inr (rw own (omega arith)))))
        (set_ip_cksum-IsChecksummed (decrement_ttl f) (omega (arith, aged_length)) aged_bytes)

  -- Setting the checksum and the MAC addresses leaves alone what lies apart from them.
  readdressed :
      (o n : ℕ)
      → 12 ≤ o
      → (o + n ≤ 24) ⊎ (26 ≤ o)
      → slice o n (relay_frame i entry (set_ip_cksum (decrement_ttl f)))
        ≡ slice o n (decrement_ttl f)
  unfolding relay_frame set_ip_cksum store16
  readdressed o n h k =
      let own : take 6 i.addr ≡ i.addr = take_all 6 i.addr (omega arith) in
      let two = length-le_bytes 2 in grind (arith, slice-patch_ne, length-le_bytes)

  untouched :
      (o n : ℕ)
      → 12 ≤ o
      → (o + n ≤ 22) ⊎ ((23 ≤ o) × (o + n ≤ 24)) ⊎ (26 ≤ o)
      → slice o n (relay_frame i entry (set_ip_cksum (decrement_ttl f))) ≡ slice o n f
  unfolding decrement_ttl store8
  untouched o n h k =
      readdressed o n h (omega arith)
      ∙ slice-patch_ne o n 22 _ f (omega (arith, length-le_bytes 1 ((ip_ttl f + 255) % 256)))

  ip_ttl-decrement_ttl : ip_ttl (decrement_ttl f) + 1 ≡ ip_ttl f
  unfolding decrement_ttl
  ip_ttl-decrement_ttl = omega (
    arith,
    load8-lt 22 f bytes,
    load8-store8 22 ((ip_ttl f + 255) % 256) f (omega arith) (omega arith),
  )

  abbrev sent_on : Bytes
  sent_on = relay_frame i entry (set_ip_cksum (decrement_ttl f))

  relay_frame-length : length sent_on ≡ length f
  unfolding relay_frame set_ip_cksum decrement_ttl store8 store16
  relay_frame-length = grind (arith, length-patch)

  relay_frame-dhost : ether_dhost sent_on ≡ entry.mac
  unfolding relay_frame
  relay_frame-dhost = slice-patch_self 0 6 entry.mac _ next (
      omega (
        arith,
        relay_frame-length,
        length-patch 0 entry.mac (patch 6 (take 6 i.addr) (set_ip_cksum (decrement_ttl f))),
      ))

  relay_frame-shost : ether_shost sent_on ≡ i.addr
  unfolding relay_frame set_ip_cksum decrement_ttl store8 store16
  relay_frame-shost =
      let own : take 6 i.addr ≡ i.addr = take_all 6 i.addr (omega arith) in
      grind (arith, slice-patch_ne, slice-patch_self, length-patch)

  relay_frame-payload : drop 34 sent_on ≡ drop 34 f
  unfolding relay_frame set_ip_cksum decrement_ttl store8 store16
  relay_frame-payload =
      let own : take 6 i.addr ≡ i.addr = take_all 6 i.addr (omega arith) in
      drop-patch 34 0 entry.mac _ (omega arith)
      ∙ drop-patch 34 6 (take 6 i.addr) _ (rw own (omega arith))
      ∙ drop-patch 34 24 (le_bytes 2 _) _ (omega (arith, length-le_bytes 2))
      ∙ drop-patch 34 24 (le_bytes 2 0) _ (omega (arith, length-le_bytes 2))
      ∙ drop-patch 34 22 (le_bytes 1 _) _ (omega (arith, length-le_bytes 1))

  relay_frame-IsRelayed : IsRelayed i entry f (relay_frame i entry (set_ip_cksum (decrement_ttl f)))
  unfolding load8 load16 load32
  relay_frame-IsRelayed =
      let ttl = readdressed 22 1 (omega arith) (omega arith) in
      record {
        same_length = relay_frame-length;
        to_next_hop = relay_frame-dhost;
        from_us = relay_frame-shost;
        same_type = ap le_value (untouched 12 2 (omega arith) (omega arith));
        aged = ap (λ s. le_value s + 1) ttl ∙ ip_ttl-decrement_ttl;
        verifies = relay_frame-verifies;
        same_start = untouched 14 8 (omega arith) (omega arith);
        same_protocol = ap le_value (untouched 23 1 (omega arith) (omega arith));
        same_source = ap le_value (untouched 26 4 (omega arith) (omega arith));
        same_destination = ap le_value (untouched 30 4 (omega arith) (omega arith));
        same_payload = relay_frame-payload;
      }

-- A packet of 34 bytes or more for another host that has a route, a resolved next hop and a TTL of
-- two or more leaves as one frame by the route's interface, relayed as IP demands, and nothing
-- else changes; the interface is found by its own name, and both MAC addresses have six bytes.
pub sr_handle_ip_packet-IsRelayed :
    (junk : Bytes) (now fuel : ℕ) (sr : Instance) (f interface source destination : Bytes)
    (route : Route) (entry : ArpEntry) (i : Interface)
    → 34 ≤ length f
    → All IsByte f
    → get_interface_from_ip sr (ip_dst f) ≡ none
    → longest_match (ip_dst f) sr.routing_table ≡ some route
    → 2 ≤ ip_ttl f
    → sr_arpcache_lookup sr.cache route.gw ≡ some entry
    → sr_get_interface sr route.interface ≡ some i
    → sr_get_interface sr i.name ≡ some i
    → length i.addr ≡ 6
    → length entry.mac ≡ 6
    → (g : Bytes) × (sr_handle_ip_packet junk now fuel sr f interface source destination
        ≡ ok (record sr { wire = (g, take 16 i.name) ∷ sr.wire }))
      × IsRelayed i entry f g
unfolding sr_handle_ip_packet ip_forwarding relay
sr_handle_ip_packet-IsRelayed junk now fuel sr f interface source destination route entry i long
      bytes theirs routed alive resolved out named mac next =
    let relayed = relay_frame-IsRelayed i entry f long bytes mac next alive in
    let ttl = ip_ttl-decrement_ttl i entry f long bytes mac next alive in
    let g = relay_frame i entry (set_ip_cksum (decrement_ttl f)) in
    let sent =
      sr_send_packet_ok sr i g named (omega (arith, relayed.same_length)) relayed.from_us in
    (g, ground (arith, sent), relayed)
