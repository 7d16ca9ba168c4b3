-- ===== src/Router/Icmp.antt =====
-- sr_send_icmp_packet and sr_echo_icmp_packet of sr_router.c. What the router does with a request
-- that it has just queued, handle_arpreq, sends ICMP packets in turn; here it is an argument.
pub mod Message
pub mod Echo
pub mod Sending
use computer_network.Prelude.{
  ℕ, ◌+◌, ◌-◌, Bool, true, false, List, [], ◌∷◌, Option, none, some, take, drop, length, leb,
  if◌then◌else◌,
}
use computer_network.Prelude.Buffer.{slice, patch, load32, store8, store16, store32}
use computer_network.Router.Cksum.{cksum, htons}
use computer_network.Prelude.Result.{
  Result, ok, fault, guard, ◌>>=◌, ◌>>◌, out_of_bounds, null_deref,
}
use computer_network.Router.Instance.{Bytes, Interface, Route, Instance, ether_addr_len}
use computer_network.Router.Interfaces.{get_interface_from_ip, sr_get_interface}
use computer_network.Router.Routes.{longest_match}
use computer_network.Router.ArpCache.{sr_arpcache_lookup, sr_arpcache_queuereq}
use computer_network.Router.Frame.{
  set_ether_dhost, set_ether_shost, set_ip_cksum, ip_src, ethertype_ip, ip_protocol_icmp, ip_df,
  icmp_data_size, ip_hdr_size,
}
use computer_network.Router.Send.{sr_send_packet}

-- sizeof(sr_ethernet_hdr_t) + sizeof(sr_ip_hdr_t) + sizeof(sr_icmp_t3_hdr_t)
abbrev pub icmp_packet_len : ℕ
icmp_packet_len = 70

-- The headers before a route is known. `junk` is what malloc left in the buffer; `ip_packet` is
-- memory from the pointer on.
unfoldable pub icmp_frame : Bytes → ℕ → Bytes → ℕ → ℕ → Bytes
icmp_frame junk destination_ip ip_packet type code =
    let f1 = store16 12 (htons ethertype_ip) junk in
    let f2 = store8 15 0 f1 in
    let f3 = store16 16 (htons (icmp_packet_len - 14)) f2 in
    let f4 = store16 18 (htons 0) f3 in
    let f5 = store16 20 (htons ip_df) f4 in
    let f6 = store8 22 64 f5 in
    let f7 = store8 23 ip_protocol_icmp f6 in
    let f8 = store32 30 destination_ip f7 in
    let f9 = store8 14 0x45 f8 in
    let g1 = store8 34 type f9 in
    let g2 = store8 35 code g1 in
    let g3 = patch 42 (take icmp_data_size ip_packet) g2 in
    let g4 = store16 36 0 g3 in store16 36 (cksum (slice 34 36 g4)) g4

-- The part that depends on the route's interface.
unfoldable pub icmp_frame_from : Interface → Bytes → Bytes
icmp_frame_from i f =
    set_ether_shost (take ether_addr_len i.addr) (set_ip_cksum (store32 26 i.ip f))

module _ (handle : Instance → ℕ → Result Instance) (junk : Bytes) where
  unfoldable pub sr_send_icmp_packet : Instance → ℕ → Bytes → ℕ → ℕ → Result Instance
  sr_send_icmp_packet sr destination_ip ip_packet type code = do
    guard (leb icmp_data_size (length ip_packet)) out_of_bounds
    let packet = icmp_frame junk destination_ip ip_packet type code
    elim (longest_match destination_ip sr.routing_table) [
      | none ↦ ok sr
      | some route ↦ elim (get_interface_from_ip sr route.gw) [
        | none ↦ fault null_deref
        | some i ↦
            let frame = icmp_frame_from i packet in
            elim (sr_arpcache_lookup sr.cache route.gw) [
              | some entry ↦ ok (sr_send_packet sr (set_ether_dhost entry.mac frame) i.name)
              | none ↦
                  let (cache, req) = sr_arpcache_queuereq sr.cache route.gw frame (some i.name) in
                  handle (record sr { cache = cache }) req
            ]
      ]
    ]

-- The echo reply, made in place from the request.
unfoldable pub echo_frame : Interface → Bytes → Bytes → Bytes → Bytes
echo_frame i source destination packet =
    let p1 = store8 34 0 packet in
    let p2 = store8 35 0 p1 in
    let p3 = store16 36 0 p2 in
    let p4 = store16 36 (cksum (drop 34 p3)) p3 in
    let p5 = store32 30 (ip_src p4) p4 in
    let p6 = set_ip_cksum (store32 26 i.ip p5) in
    set_ether_shost destination (set_ether_dhost source p6)

unfoldable pub sr_echo_icmp_packet : Instance → Bytes → Bytes → Bytes → Bytes → Result Instance
sr_echo_icmp_packet sr packet source destination interface = elim (sr_get_interface sr interface) [
  | none ↦ fault null_deref
  | some i ↦ ok (sr_send_packet sr (echo_frame i source destination packet) interface)
]
