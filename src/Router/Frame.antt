-- ===== src/Router/Frame.antt =====
-- The headers of sr_protocol.h laid over an Ethernet frame: where each field lies, and how it is
-- read and written. All structs are packed. IP addresses are kept as the machine loads them from
-- network byte order.
pub mod Checksums
use computer_network.Prelude.{ℕ, ◌+◌, List, [], ◌∷◌, ◌++◌, replicate, take, drop}
use computer_network.Prelude.Buffer.{
  slice, patch, load8, load16, load32, store8, store16, store32, le_bytes,
}
use computer_network.Router.Cksum.{cksum, htons}
use computer_network.Router.Instance.{Bytes}

-- sizeof of sr_ethernet_hdr_t, sr_ip_hdr_t, sr_arp_hdr_t, sr_icmp_hdr_t and sr_icmp_t3_hdr_t.
abbrev pub ethernet_hdr_size : ℕ
ethernet_hdr_size = 14

abbrev pub ip_hdr_size : ℕ
ip_hdr_size = 20

abbrev pub arp_hdr_size : ℕ
arp_hdr_size = 28

abbrev pub icmp_hdr_size : ℕ
icmp_hdr_size = 36

abbrev pub icmp_data_size : ℕ
icmp_data_size = 28

-- enum sr_ethertype, sr_ip_protocol, sr_arp_opcode and sr_arp_hrd_fmt
abbrev pub ethertype_arp : ℕ
ethertype_arp = 0x0806

abbrev pub ethertype_ip : ℕ
ethertype_ip = 0x0800

abbrev pub ip_protocol_icmp : ℕ
ip_protocol_icmp = 0x0001

abbrev pub arp_op_request : ℕ
arp_op_request = 0x0001

abbrev pub arp_op_reply : ℕ
arp_op_reply = 0x0002

abbrev pub arp_hrd_ethernet : ℕ
arp_hrd_ethernet = 0x0001

abbrev pub ip_df : ℕ
ip_df = 0x4000

-- struct sr_ethernet_hdr, from byte 0
abbrev pub ether_dhost : Bytes → Bytes
ether_dhost f = slice 0 6 f

abbrev pub ether_shost : Bytes → Bytes
ether_shost f = slice 6 6 f

abbrev pub ether_type : Bytes → ℕ
ether_type f = load16 12 f

abbrev pub set_ether_dhost : Bytes → Bytes → Bytes
set_ether_dhost a f = patch 0 a f

abbrev pub set_ether_shost : Bytes → Bytes → Bytes
set_ether_shost a f = patch 6 a f

-- struct sr_ip_hdr, from byte 14
abbrev pub ip_ttl : Bytes → ℕ
ip_ttl f = load8 22 f

abbrev pub ip_p : Bytes → ℕ
ip_p f = load8 23 f

abbrev pub ip_sum : Bytes → ℕ
ip_sum f = load16 24 f

abbrev pub ip_src : Bytes → ℕ
ip_src f = load32 26 f

abbrev pub ip_dst : Bytes → ℕ
ip_dst f = load32 30 f

abbrev pub ip_header : Bytes → Bytes
ip_header f = slice 14 20 f

-- `ip_sum = 0; ip_sum = cksum(ip_header, sizeof(sr_ip_hdr_t));`
unfoldable pub set_ip_cksum : Bytes → Bytes
set_ip_cksum f = let zeroed = store16 24 0 f in store16 24 (cksum (ip_header zeroed)) zeroed

-- struct sr_arp_hdr, from byte 14
abbrev pub ar_op : Bytes → ℕ
ar_op f = load16 20 f

abbrev pub ar_sha : Bytes → Bytes
ar_sha f = slice 22 6 f

abbrev pub ar_sip : Bytes → ℕ
ar_sip f = load32 28 f

abbrev pub ar_tha : Bytes → Bytes
ar_tha f = slice 32 6 f

abbrev pub ar_tip : Bytes → ℕ
ar_tip f = load32 38 f

-- struct sr_icmp_hdr, from byte 34; the checksum of the echo reply covers the rest of the frame.
abbrev pub icmp_type : Bytes → ℕ
icmp_type f = load8 34 f

abbrev pub icmp_code : Bytes → ℕ
icmp_code f = load8 35 f

abbrev pub icmp_sum : Bytes → ℕ
icmp_sum f = load16 36 f
