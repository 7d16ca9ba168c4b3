-- ===== src/Router/Arp/Reply.antt =====
-- What the router answers to ARP packets.
use computer_network.Prelude.{
  ℕ, ◌≤◌, ◌<◌, ◌≡◌, refl, ◌∷◌, none, some, arith, take, take_all, length, All,
}
use computer_network.Prelude.Buffer.{
  load16, load32, store16, store32, le_bytes, le_value, IsByte, slice-patch_self, slice-patch_ne,
  length-patch, length-slice, load32-lt,
}
use computer_network.Router.Cksum.{htons}
use computer_network.Prelude.Result.{ok, fault, out_of_bounds}
use computer_network.Router.Instance.{Bytes, Interface, Instance}
use computer_network.Router.Interfaces.{get_interface_from_ip, sr_get_interface}
use computer_network.Router.ArpCache.{sr_arpcache_insert, find_request}
use computer_network.Router.ArpCache.Queue.{IsQueue}
use computer_network.Router.ArpCache.Promises.{find_request-insert}
use computer_network.Router.Frame.{
  ether_dhost, ether_shost, ether_type, ar_op, ar_sha, ar_sip, ar_tha, ar_tip, arp_op_request,
  arp_op_reply,
}
use computer_network.Router.Send.Wire.{sr_send_packet_ok}
use computer_network.Router.Arp.{arp_reply_frame, sr_handle_arp_packet}

-- The reply to a request that came in as `f`, by the interface `i`.
pub record IsReply (i : Interface) (f r : Bytes) : Type 0 where
  pub same_length : length r ≡ length f
  pub to_sender : ether_dhost r ≡ ar_sha f
  pub from_us : ether_shost r ≡ i.addr
  pub same_type : ether_type r ≡ ether_type f
  pub is_reply : htons (ar_op r) ≡ arp_op_reply
  pub our_mac : ar_sha r ≡ i.addr
  pub our_ip : ar_sip r ≡ ar_tip f
  pub their_mac : ar_tha r ≡ ar_sha f
  pub their_ip : ar_tip r ≡ ar_sip f

module _ (i : Interface) (f : Bytes) (mac : length i.addr ≡ 6) (long : 42 ≤ length f)
    (bytes : All IsByte f) where
  arp_reply_frame-IsReply : IsReply i f (arp_reply_frame i f)
  unfolding arp_reply_frame load16 load32 store16 store32 le_value le_bytes htons
  arp_reply_frame-IsReply =
      let own : take 6 i.addr ≡ i.addr = take_all 6 i.addr (omega arith) in
      let sender = length-slice 22 6 f (omega arith) in
      let sip = load32-lt 28 f bytes in
      let tip = load32-lt 38 f bytes in
      grind (arith, slice-patch_ne, slice-patch_self, length-patch)

-- An ARP request of 42 bytes or more for the address of an interface, which is found by its name
-- and has a MAC address of six bytes, is answered by one reply, sent by that interface; the
-- sender's mapping is handed to the cache, and nothing else changes.
pub request_answered :
    (now : ℕ) (sr : Instance) (f : Bytes) (i : Interface)
    → 42 ≤ length f
    → All IsByte f
    → htons (ar_op f) ≡ arp_op_request
    → get_interface_from_ip sr (ar_tip f) ≡ some i
    → sr_get_interface sr i.name ≡ some i
    → length i.addr ≡ 6
    → (r : Bytes) × (sr_handle_arp_packet now sr f
        ≡ ok (record sr {
          cache = (sr_arpcache_insert now sr.cache (ar_sha f) (ar_sip f)).0;
          wire = (r, take 16 i.name) ∷ sr.wire;
        }))
      × IsReply i f r
unfolding sr_handle_arp_packet
request_answered now sr f i long bytes op ours named mac =
    let reply = arp_reply_frame-IsReply i f mac long bytes in
    let learned : Instance = record sr {
      cache = (sr_arpcache_insert now sr.cache (ar_sha f) (ar_sip f)).0;
    } in
    let sent =
      sr_send_packet_ok learned i (arp_reply_frame i f) named (omega (arith, reply.same_length))
        reply.from_us in
    (arp_reply_frame i f, ground (arith, sent), reply)

-- An ARP packet whose target is none of the router's addresses changes nothing.
pub not_ours_ignored :
    (now : ℕ) (sr : Instance) (f : Bytes)
    → 42 ≤ length f
    → get_interface_from_ip sr (ar_tip f) ≡ none
    → sr_handle_arp_packet now sr f ≡ ok sr
unfolding sr_handle_arp_packet
not_ours_ignored now sr f long theirs = ground arith

-- An ARP reply of 42 bytes or more to an address of the router takes the request for the sender's
-- address off a well-formed queue, and sends nothing: the packets of that request are lost.
pub reply_loses_packets :
    (now : ℕ) (sr : Instance) (f : Bytes) (i : Interface)
    → 42 ≤ length f
    → IsQueue sr.cache
    → htons (ar_op f) ≡ arp_op_reply
    → get_interface_from_ip sr (ar_tip f) ≡ some i
    → (sr' : Instance) × (sr_handle_arp_packet now sr f ≡ ok sr')
      × (sr'.wire ≡ sr.wire)
      × (find_request (ar_sip f) sr'.cache.requests ≡ none)
unfolding sr_handle_arp_packet
reply_loses_packets now sr f i long queue op ours =
    let insert = find_request-insert now sr.cache (ar_sha f) (ar_sip f) (ar_sip f) queue in
    (
      record sr { cache = (sr_arpcache_insert now sr.cache (ar_sha f) (ar_sip f)).0 },
      ground arith,
      refl,
      ground (arith, insert.1),
    )

-- A frame that claims to hold ARP but ends before the ARP header does is read past its end.
pub short_arp_out_of_bounds :
    (now : ℕ) (sr : Instance) (f : Bytes)
    → length f < 42
    → sr_handle_arp_packet now sr f ≡ fault out_of_bounds
unfolding sr_handle_arp_packet
short_arp_out_of_bounds now sr f short = ground arith
