-- ===== src/Router/Forward.antt =====
-- sr_handle_ip_packet, ip_forwarding and sr_handlepacket of sr_router.c.
pub mod Checks
pub mod Relay
pub mod Trouble
pub mod Local
use computer_network.Prelude.{
  ℕ, ◌+◌, ◌-◌, ◌%◌, Bool, true, false, List, [], ◌∷◌, Option, none, some, take, drop, length, ltb,
  leb, not, ◌==◌, ◌&&◌, if◌then◌else◌,
}
use computer_network.Prelude.Buffer.{slice, store8}
use computer_network.Router.Cksum.{cksum, htons}
use computer_network.Prelude.Result.{
  Result, ok, fault, guard, ◌>>=◌, ◌>>◌, out_of_bounds, null_deref,
}
use computer_network.Router.Instance.{Bytes, Interface, Route, ArpEntry, Instance, ether_addr_len}
use computer_network.Router.Interfaces.{get_interface_from_ip, sr_get_interface}
use computer_network.Router.Routes.{longest_match}
use computer_network.Router.ArpCache.{sr_arpcache_lookup, sr_arpcache_queuereq}
use computer_network.Router.Frame.{
  ether_dhost, ether_shost, ether_type, set_ether_dhost, set_ether_shost, set_ip_cksum, ip_header,
  ip_ttl, ip_p, ip_sum, ip_src, ip_dst, icmp_type, icmp_code, icmp_sum, ethertype_arp, ethertype_ip,
  ip_protocol_icmp, ethernet_hdr_size, ip_hdr_size, icmp_hdr_size,
}
use computer_network.Router.Send.{sr_send_packet}
use computer_network.Router.Arp.{sr_handle_arp_packet}
use computer_network.Router.Icmp.{sr_send_icmp_packet, sr_echo_icmp_packet}
use computer_network.Router.Requests.{handle_arpreq}

-- `ip_header->ip_ttl--` on a uint8_t.
unfoldable pub decrement_ttl : Bytes → Bytes
decrement_ttl packet = store8 22 ((ip_ttl packet + 255) % 256) packet

-- The frame that is sent on, with the addresses of the next hop.
unfoldable pub relay_frame : Interface → ArpEntry → Bytes → Bytes
relay_frame i entry packet =
    set_ether_dhost entry.mac (set_ether_shost (take ether_addr_len i.addr) packet)

module _ (junk : Bytes) (now fuel : ℕ) where
  -- A packet for another host, its TTL already above zero. While the next hop is unresolved it is
  -- handed to the queue with `now_interface->name`, where `now_interface` is NULL: `name` is the
  -- first field, so that pointer is NULL.
  unfoldable pub relay : Instance → Bytes → Option Route → Result Instance
  relay sr packet none = fault null_deref
  relay sr packet (some route) = elim (sr_arpcache_lookup sr.cache route.gw) [
    | some entry ↦ elim (sr_get_interface sr route.interface) [
      | none ↦ fault null_deref
      | some i ↦ ok (sr_send_packet sr (relay_frame i entry packet) i.name)
    ]
    | none ↦
        let (cache, req) = sr_arpcache_queuereq sr.cache route.gw packet none in
        handle_arpreq junk now fuel (record sr { cache = cache }) req
  ]

  unfoldable pub ip_forwarding :
      Instance → Bytes → Bytes → Bytes → Bytes → Option Route → Result Instance
  ip_forwarding sr packet interface source destination route_match =
      elim (get_interface_from_ip sr (ip_dst packet)) [
        | none ↦
            let aged = decrement_ttl packet in
            if ip_ttl aged == 0
            then sr_send_icmp_packet (handle_arpreq junk now fuel) junk sr (ip_src packet) aged 11 0
            else relay sr (set_ip_cksum aged) route_match
        | some now_interface ↦
            if ip_p packet == ip_protocol_icmp
            then (do
              guard (leb 36 (length packet)) out_of_bounds
              if icmp_type packet == 8 && icmp_code packet == 0
                  then sr_echo_icmp_packet sr packet source destination interface
                  else ok sr)
            else sr_send_icmp_packet (handle_arpreq junk now fuel) junk sr (ip_src packet) packet 3
                3
      ]

  unfoldable pub sr_handle_ip_packet : Instance → Bytes → Bytes → Bytes → Bytes → Result Instance
  sr_handle_ip_packet sr packet interface source destination =
      let route_match = longest_match (ip_dst packet) sr.routing_table in
      elim (get_interface_from_ip sr (ip_dst packet)) [
        | none ↦ elim route_match [
          | none ↦
              sr_send_icmp_packet (handle_arpreq junk now fuel) junk sr (ip_src packet) packet 3 0
          | some r ↦ ip_forwarding sr packet interface source destination (some r)
        ]
        | some i ↦ ip_forwarding sr packet interface source destination route_match
      ]

  -- The checks on an IP packet, and what they let through.
  unfoldable pub handle_ip_frame : Instance → Bytes → Bytes → Result Instance
  handle_ip_frame sr packet interface =
      let process =
        sr_handle_ip_packet sr packet interface (ether_shost packet) (ether_dhost packet) in
      if ltb (length packet) (ethernet_hdr_size + ip_hdr_size)
      then ok sr
      else if not (cksum (ip_header packet) == ip_sum packet)
      then ok sr
      else if ip_p packet == ip_protocol_icmp
      then (if ltb (length packet) (ethernet_hdr_size + ip_hdr_size + icmp_hdr_size)
          then ok sr
          else if not (cksum (slice 34 36 packet) == icmp_sum packet)
          then ok sr
          else process)
      else process

  -- The Ethernet header is read before any length is checked.
  unfoldable pub sr_handlepacket : Instance → Bytes → Bytes → Result Instance
  sr_handlepacket sr packet interface = do
    guard (leb ethernet_hdr_size (length packet)) out_of_bounds
    let type = htons (ether_type packet)
    if type == ethertype_arp
        then sr_handle_arp_packet now sr packet
        else if type == ethertype_ip
        then handle_ip_frame sr packet interface
        else ok sr
