-- ===== src/Router/Forward/Local.antt =====
-- Packets for the router itself.
use computer_network.Prelude.{
  ℕ, ◌^◌, ◌≤◌, ◌<◌, ◌≡◌, ap, ◌∙◌, ◌≢◌, ◌⊎◌, ◌∷◌, none, some, arith, take, length, All,
}
use computer_network.Prelude.Buffer.{IsByte}
use computer_network.Router.Cksum.Verify.{max_len}
use computer_network.Prelude.Result.{ok, fault, null_deref}
use computer_network.Router.Instance.{Bytes, Interface, Route, Instance}
use computer_network.Router.Interfaces.{get_interface_from_ip, sr_get_interface}
use computer_network.Router.Routes.{longest_match}
use computer_network.Router.Frame.{ip_p, ip_src, ip_dst, icmp_type, icmp_code, ip_protocol_icmp}
use computer_network.Router.Send.Wire.{sr_send_packet_by}
use computer_network.Router.Icmp.{echo_frame, sr_echo_icmp_packet}
use computer_network.Router.Icmp.Echo.{IsEcho, echo_frame-IsEcho}
use computer_network.Router.Icmp.Sending.{error_without_route}
use computer_network.Router.Requests.{handle_arpreq}
use computer_network.Router.Forward.{ip_forwarding, sr_handle_ip_packet}

module _ (junk : Bytes) (now fuel : ℕ) (sr : Instance) (f interface source destination : Bytes)
    (own : Interface) (ours : get_interface_from_ip sr (ip_dst f) ≡ some own) where
  -- An echo request of 38 to 131069 bytes to one of the router's addresses, in a frame to the MAC
  -- address of the interface that it came in by, is answered by that interface with a valid reply
  -- to its sender, and nothing else changes.
  pub sr_handle_ip_packet-IsEcho :
      (i : Interface)
      → 38 ≤ length f
      → length f ≤ max_len
      → All IsByte f
      → ip_p f ≡ ip_protocol_icmp
      → icmp_type f ≡ 8
      → icmp_code f ≡ 0
      → sr_get_interface sr interface ≡ some i
      → destination ≡ i.addr
      → length source ≡ 6
      → length i.addr ≡ 6
      → i.ip < 2 ^ 32
      → (g : Bytes) × (sr_handle_ip_packet junk now fuel sr f interface source destination
          ≡ ok (record sr { wire = (g, take 16 interface) ∷ sr.wire }))
        × IsEcho i source destination f g
  unfolding sr_handle_ip_packet ip_forwarding sr_echo_icmp_packet
  sr_handle_ip_packet-IsEcho i long short bytes icmp echo_type echo_code came mac there here word =
      let g = echo_frame i source destination f in
      let good =
        echo_frame-IsEcho i source destination f long short bytes there (ap length mac ∙ here)
          word in
      let sent =
        sr_send_packet_by sr i interface g came (omega (arith, good.same_length))
          (good.from_us ∙ mac) in
      (g, ground (arith, sent), good)

  -- An ICMP packet of 36 bytes or more to one of the router's addresses that is no echo request
  -- changes nothing.
  pub other_icmp_ignored :
      36 ≤ length f
      → ip_p f ≡ ip_protocol_icmp
      → (icmp_type f ≢ 8) ⊎ (icmp_code f ≢ 0)
      → sr_handle_ip_packet junk now fuel sr f interface source destination ≡ ok sr
  unfolding sr_handle_ip_packet ip_forwarding
  other_icmp_ignored long icmp other = ground arith

  -- A packet of another protocol, of 28 bytes or more, to one of the router's addresses follows a
  -- NULL pointer, if the route back to the source goes through a gateway that is not one of its own
  -- interfaces.
  pub local_packet_crashes :
      (back : Route)
      → 28 ≤ length f
      → ip_p f ≢ ip_protocol_icmp
      → longest_match (ip_src f) sr.routing_table ≡ some back
      → get_interface_from_ip sr back.gw ≡ none
      → sr_handle_ip_packet junk now fuel sr f interface source destination ≡ fault null_deref
  unfolding sr_handle_ip_packet ip_forwarding
  local_packet_crashes back long other returned foreign =
      let crash =
        (error_without_route (handle_arpreq junk now fuel) junk sr (ip_src f) f 3 3
          (omega arith)).1 in
      ground (arith, crash back returned foreign)

  -- A packet of another protocol to the router is ignored if there is no route back.
  pub local_packet_ignored :
      28 ≤ length f
      → ip_p f ≢ ip_protocol_icmp
      → longest_match (ip_src f) sr.routing_table ≡ none
      → sr_handle_ip_packet junk now fuel sr f interface source destination ≡ ok sr
  unfolding sr_handle_ip_packet ip_forwarding
  local_packet_ignored long other lost =
      let quiet =
        (error_without_route (handle_arpreq junk now fuel) junk sr (ip_src f) f 3 3
          (omega arith)).0 in
      ground (arith, quiet lost)
