-- ===== src/Router/Icmp/Sending.antt =====
-- When an ICMP error leaves the router, and when it brings the router down.
use computer_network.Prelude.{ℕ, ◌^◌, ◌≤◌, ◌<◌, ◌≡◌, ◌∙◌, ◌∷◌, none, some, arith, take, length, All}
use computer_network.Prelude.Buffer.{IsByte, length-patch, slice-patch_ne}
use computer_network.Prelude.Result.{Result, ok, fault, null_deref}
use computer_network.Router.Instance.{Bytes, Interface, Route, ArpEntry, Instance}
use computer_network.Router.Interfaces.{get_interface_from_ip, sr_get_interface}
use computer_network.Router.Routes.{longest_match}
use computer_network.Router.ArpCache.{sr_arpcache_lookup}
use computer_network.Router.Frame.{set_ether_dhost}
use computer_network.Router.Send.Wire.{sr_send_packet_ok}
use computer_network.Router.Icmp.{icmp_frame, icmp_frame_from, sr_send_icmp_packet}
use computer_network.Router.Icmp.Message.{IsError, message-IsError}

module _ (handle : Instance → ℕ → Result Instance) (junk : Bytes) (sr : Instance) (dst : ℕ)
    (ip_packet : Bytes) (type code : ℕ) (enough : 28 ≤ length ip_packet) where
  -- With no route back nothing is sent and nothing changes; with a route back through a gateway
  -- that is not an interface of the router itself, a NULL pointer is followed.
  pub error_without_route :
      (longest_match dst sr.routing_table ≡ none
        → sr_send_icmp_packet handle junk sr dst ip_packet type code ≡ ok sr)
      × ((route : Route)
          → longest_match dst sr.routing_table ≡ some route
          → get_interface_from_ip sr route.gw ≡ none
          → sr_send_icmp_packet handle junk sr dst ip_packet type code ≡ fault null_deref)
  unfolding sr_send_icmp_packet
  error_without_route = (λ h. ground arith, λ route h k. ground arith)

  -- For a packet of 28 bytes or more and a route back whose gateway is the address of an interface
  -- of the router and is in the cache, the error message goes out by that interface, addressed to
  -- the cached MAC address, and nothing else changes; the buffer has 70 bytes, MAC addresses six,
  -- and numbers fit their fields.
  pub sr_send_icmp_packet-IsError :
      (route : Route) (i : Interface) (entry : ArpEntry)
      → longest_match dst sr.routing_table ≡ some route
      → get_interface_from_ip sr route.gw ≡ some i
      → sr_arpcache_lookup sr.cache route.gw ≡ some entry
      → sr_get_interface sr i.name ≡ some i
      → length junk ≡ 70
      → All IsByte junk
      → All IsByte ip_packet
      → length i.addr ≡ 6
      → length entry.mac ≡ 6
      → i.ip < 2 ^ 32
      → dst < 2 ^ 32
      → type < 256
      → code < 256
      → (g : Bytes) × IsError i dst ip_packet type code g
        × (sr_send_icmp_packet handle junk sr dst ip_packet type code
            ≡ ok (record sr { wire = (set_ether_dhost entry.mac g, take 16 i.name) ∷ sr.wire }))
  unfolding sr_send_icmp_packet
  sr_send_icmp_packet-IsError route i entry routed gateway resolved named room jb pb mac next a b c
        d =
      let g = icmp_frame_from i (icmp_frame junk dst ip_packet type code) in
      let good = message-IsError i junk ip_packet dst type code room mac enough jb pb a b c d in
      let sent =
        sr_send_packet_ok sr i (set_ether_dhost entry.mac g) named
          (omega (arith, good.size, length-patch 0 entry.mac g))
          (slice-patch_ne 6 6 0 entry.mac g (omega arith) ∙ good.from_us) in
      (g, good, ground (arith, sent))
