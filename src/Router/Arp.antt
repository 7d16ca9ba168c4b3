-- ===== src/Router/Arp.antt =====
-- sr_send_arp_request and sr_handle_arp_packet of sr_router.c.
pub mod Reply
pub mod Broadcast
use computer_network.Prelude.{
  ℕ, ◌+◌, Bool, true, false, List, [], ◌∷◌, ◌++◌, Option, none, some, take, replicate, length, leb,
  ◌==◌, if◌then◌else◌,
}
use computer_network.Prelude.Buffer.{slice, patch, store16, store32, le_bytes}
use computer_network.Router.Cksum.{htons}
use computer_network.Prelude.Result.{Result, ok, guard, ◌>>=◌, ◌>>◌, out_of_bounds}
use computer_network.Router.Instance.{Bytes, Interface, Instance, ether_addr_len}
use computer_network.Router.Interfaces.{get_interface_from_ip}
use computer_network.Router.ArpCache.{sr_arpcache_insert}
use computer_network.Router.Frame.{
  ether_dhost, ether_shost, ar_op, ar_sha, ar_sip, ar_tha, ar_tip, set_ether_dhost, set_ether_shost,
  ethertype_arp, arp_hrd_ethernet, arp_op_request, arp_op_reply,
}
use computer_network.Router.Send.{sr_send_packet}

-- The frame of one round of the loop, field after field: Ethernet header, then ARP header.
unfoldable pub arp_request_frame : Interface → ℕ → Bytes
arp_request_frame i ip =
    replicate 6 0xff
    ++ (take ether_addr_len i.addr
        ++ (le_bytes 2 (htons ethertype_arp)
            ++ (le_bytes 2 (htons arp_hrd_ethernet)
                ++ (le_bytes 2 (htons 0x0800)
                    ++ (6 ∷ 4 ∷ []
                        ++ (le_bytes 2 (htons arp_op_request)
                            ++ (take ether_addr_len i.addr
                                ++ (le_bytes 4 i.ip ++ (replicate 6 0 ++ le_bytes 4 ip)))))))))

-- The loop over the interfaces.
unfoldable pub broadcast : ℕ → List Interface → Instance → Instance
broadcast ip [] sr = sr
broadcast ip (i ∷ is) sr = broadcast ip is (sr_send_packet sr (arp_request_frame i ip) i.name)

unfoldable pub sr_send_arp_request : Instance → ℕ → Instance
sr_send_arp_request sr ip = broadcast ip sr.if_list sr

-- The packet is rewritten in place into the reply.
unfoldable pub arp_reply_frame : Interface → Bytes → Bytes
arp_reply_frame i packet =
    let send_mac = ar_sha packet in
    let send_ip = ar_sip packet in
    let tar_ip = ar_tip packet in
    let p1 = set_ether_shost (take ether_addr_len i.addr) packet in
    let p2 = set_ether_dhost send_mac p1 in
    let p3 = patch 22 (take ether_addr_len i.addr) p2 in
    let p4 = patch 32 send_mac p3 in
    let p5 = store32 28 tar_ip p4 in
    let p6 = store32 38 send_ip p5 in store16 20 (htons arp_op_reply) p6

-- No length is checked before the ARP header is read. The request that the insertion hands back
-- is dropped.
unfoldable pub sr_handle_arp_packet : ℕ → Instance → Bytes → Result Instance
sr_handle_arp_packet now sr packet = do
  guard (leb 42 (length packet)) out_of_bounds
  let send_mac = ar_sha packet
  let send_ip = ar_sip packet
  let op = htons (ar_op packet)
  let router_interface = get_interface_from_ip sr (ar_tip packet)
  let learned = record sr { cache = (sr_arpcache_insert now sr.cache send_mac send_ip).0 }
  if op == arp_op_request
      then elim router_interface [
        | none ↦ ok sr
        | some i ↦ ok (sr_send_packet learned (arp_reply_frame i packet) i.name)
      ]
      else if op == arp_op_reply
      then elim router_interface [ none ↦ ok sr | some i ↦ ok learned ]
      else ok sr
