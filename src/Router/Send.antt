-- ===== src/Router/Send.antt =====
-- The end of sr_vns_comm.c that the router calls: sending a frame, and the filter on ARP requests
-- for other routers. The write to the socket is taken to succeed; what it writes goes on `wire`.
pub mod Wire
use computer_network.Prelude.{
  ℕ, ◌+◌, Bool, true, false, List, [], ◌∷◌, Option, none, some, take, length, ltb, not, bytes_eq,
  ◌==◌, ◌&&◌, if◌then◌else◌,
}
use computer_network.Router.Cksum.{htons}
use computer_network.Prelude.Result.{Result, ok, fault, null_deref, assertion}
use computer_network.Router.Instance.{Bytes, Interface, Instance}
use computer_network.Router.Interfaces.{sr_get_interface}
use computer_network.Router.Frame.{
  ether_shost, ether_type, ar_op, ar_tip, ethertype_arp, arp_op_request, ethernet_hdr_size,
  arp_hdr_size,
}

unfoldable pub sr_ether_addrs_match_interface : Instance → Bytes → Bytes → Bool
sr_ether_addrs_match_interface sr buf name = elim (sr_get_interface sr name) [
  | none ↦ false
  | some iface ↦ bytes_eq (ether_shost buf) iface.addr
]

-- Every caller drops the status that sr_send_packet returns. The name on the wire has 16 bytes.
unfoldable pub sr_send_packet : Instance → Bytes → Bytes → Instance
sr_send_packet sr buf iface =
    if ltb (length buf) ethernet_hdr_size
    then sr
    else if not (sr_ether_addrs_match_interface sr buf iface)
    then sr
    else record sr { wire = (buf, take 16 iface) ∷ sr.wire }

-- True for an ARP request that asks for another address than the interface's.
unfoldable pub sr_arp_req_not_for_us : Instance → Bytes → Bytes → Result Bool
sr_arp_req_not_for_us sr packet interface =
    if ltb (length packet) (ethernet_hdr_size + arp_hdr_size)
    then ok false
    else elim (sr_get_interface sr interface) [
      | none ↦ fault assertion
      | some iface ↦ ok (
          ether_type packet == htons ethertype_arp
          && ar_op packet == htons arp_op_request
          && not (ar_tip packet == iface.ip))
    ]
