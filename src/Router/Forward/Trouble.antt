-- ===== src/Router/Forward/Trouble.antt =====
-- Packets for other hosts that cannot be sent on at once.
use computer_network.Prelude.{
  ℕ, suc, ◌+◌, ◌%◌, ◌^◌, ◌≤◌, ◌<◌, ◌≡◌, refl, ap, List, [], ◌∷◌, ◌++◌, none, some, arith, length,
  All,
}
use mathlib.Core.List.{reverse}
use computer_network.Prelude.Buffer.{IsByte, load8-store8, load8-lt, store8, length-patch}
use computer_network.Prelude.Result.{ok, fault, null_deref}
use computer_network.Router.Instance.{Bytes, Route, ArpRequest, ArpCache, Instance}
use computer_network.Router.Interfaces.{get_interface_from_ip}
use computer_network.Router.Routes.{longest_match}
use computer_network.Router.ArpCache.{sr_arpcache_lookup, find_request, new_request, update_request}
use computer_network.Router.ArpCache.Promises.{queuereq_new}
use computer_network.Router.Frame.{ip_ttl, ip_src, ip_dst, set_ip_cksum}
use computer_network.Router.Arp.{sr_send_arp_request}
use computer_network.Router.Arp.Broadcast.{IsUsable, requests_for, sr_send_arp_request_lem}
use computer_network.Router.Icmp.Sending.{error_without_route}
use computer_network.Router.Requests.{at_address, stamp, set_stamp, handle_arpreq}
use computer_network.Router.Requests.Retry.{handle_arpreq_retry, cache-sr_send_arp_request}
use computer_network.Router.Forward.{decrement_ttl, relay, ip_forwarding, sr_handle_ip_packet}

decrement_ttl-zero : (f : Bytes) → 34 ≤ length f → ip_ttl f ≡ 1 → ip_ttl (decrement_ttl f) ≡ 0
unfolding decrement_ttl
decrement_ttl-zero f long one =
    omega (arith, load8-store8 22 ((ip_ttl f + 255) % 256) f (omega arith) (omega arith))

decrement_ttl-pos :
    (f : Bytes) → 34 ≤ length f → All IsByte f → 2 ≤ ip_ttl f → 1 ≤ ip_ttl (decrement_ttl f)
unfolding decrement_ttl
decrement_ttl-pos f long bytes alive = omega (
  arith,
  load8-lt 22 f bytes,
  load8-store8 22 ((ip_ttl f + 255) % 256) f (omega arith) (omega arith),
)

length-decrement_ttl : (f : Bytes) → length (decrement_ttl f) ≡ length f
unfolding decrement_ttl store8
length-decrement_ttl f = length-patch 22 _ f

-- A packet of 34 bytes or more for another host whose TTL runs out here follows a NULL pointer, if
-- it has a route and the route back to its source goes through a gateway that is not an address of
-- the router.
pub expired_ttl_crashes :
    (junk : Bytes) (now fuel : ℕ) (sr : Instance) (f interface source destination : Bytes)
    (route back : Route)
    → 34 ≤ length f
    → get_interface_from_ip sr (ip_dst f) ≡ none
    → longest_match (ip_dst f) sr.routing_table ≡ some route
    → ip_ttl f ≡ 1
    → longest_match (ip_src f) sr.routing_table ≡ some back
    → get_interface_from_ip sr back.gw ≡ none
    → sr_handle_ip_packet junk now fuel sr f interface source destination ≡ fault null_deref
unfolding sr_handle_ip_packet ip_forwarding
expired_ttl_crashes junk now fuel sr f interface source destination route back long theirs routed
      one returned foreign =
    let aged = decrement_ttl f in
    let crash =
      (error_without_route (handle_arpreq junk now fuel) junk sr (ip_src f) aged 11 0
          (omega (arith, length-decrement_ttl f))).1
        back returned foreign in
    ground (arith, decrement_ttl-zero f long one, crash)

-- What is left of a packet whose next hop is not resolved: a new request that holds no packet.
pub record IsForgotten (now : ℕ) (sr : Instance) (gw : ℕ) (sr' : Instance) : Type 0 where
  pub asked : sr'.wire ≡ reverse (requests_for gw sr.if_list) ++ sr.wire
  pub request : ArpRequest
  pub pending : find_request gw sr'.cache.requests ≡ some request
  pub once : request.times_sent ≡ 1
  pub stamped : request.sent ≡ now
  pub nothing_waits : request.packets ≡ []

-- A request that stands in front of the queue, new from calloc, is broadcast and stamped.
module _ (junk : Bytes) (now fuel : ℕ) (sr : Instance) (a gw : ℕ) (rs : List ArpRequest)
    (front : sr.cache.requests ≡ new_request a gw ∷ rs) (late : 1 < now) (word : gw < 2 ^ 32)
    (usable : All (IsUsable sr.if_list) sr.if_list) where
  there : at_address a sr.cache.requests ≡ some (new_request a gw)
  unfolding at_address
  there = rw front (ground arith)

  asked_once :
      handle_arpreq junk now (suc fuel) sr a ≡ ok (set_stamp now a (sr_send_arp_request sr gw))
  asked_once =
      handle_arpreq_retry junk now fuel sr a (new_request a gw) there (omega arith) (omega arith)

  asked_wire :
      (set_stamp now a (sr_send_arp_request sr gw)).wire
      ≡ reverse (requests_for gw sr.if_list) ++ sr.wire
  unfolding set_stamp
  asked_wire = ap (λ s. s.wire) (sr_send_arp_request_lem sr gw word usable).0

  asked_request :
      find_request gw (set_stamp now a (sr_send_arp_request sr gw)).cache.requests
      ≡ some (stamp now (new_request a gw))
  unfolding set_stamp find_request update_request
  asked_request = rw (cache-sr_send_arp_request sr gw, front) (ground arith)

  forgotten : IsForgotten now sr gw (set_stamp now a (sr_send_arp_request sr gw))
  forgotten = record {
    asked = asked_wire;
    request = stamp now (new_request a gw);
    pending = asked_request;
    once = refl;
    stamped = refl;
    nothing_waits = refl;
  }

-- A packet of 34 bytes or more for another host with a route and a TTL of two or more, whose next
-- hop is not in the cache nor asked for yet, is not kept: the router, its interfaces all usable,
-- broadcasts an ARP request for the 32-bit address, and the request that it queues, stamped and
-- sent once, holds no packet; the clock is past 1.
pub sr_handle_ip_packet-IsForgotten :
    (junk : Bytes) (now fuel : ℕ) (sr : Instance) (f interface source destination : Bytes)
    (route : Route)
    → 34 ≤ length f
    → All IsByte f
    → get_interface_from_ip sr (ip_dst f) ≡ none
    → longest_match (ip_dst f) sr.routing_table ≡ some route
    → 2 ≤ ip_ttl f
    → sr_arpcache_lookup sr.cache route.gw ≡ none
    → find_request route.gw sr.cache.requests ≡ none
    → 1 < now
    → route.gw < 2 ^ 32
    → All (IsUsable sr.if_list) sr.if_list
    → (sr' : Instance) × (sr_handle_ip_packet junk now (suc fuel) sr f interface source destination
        ≡ ok sr')
      × IsForgotten now sr route.gw sr'
unfolding sr_handle_ip_packet ip_forwarding relay
sr_handle_ip_packet-IsForgotten junk now fuel sr f interface source destination route long bytes
      theirs routed alive unknown unasked late word usable =
    let c : ArpCache = record (sr.cache) {
      requests = new_request sr.cache.fresh route.gw ∷ sr.cache.requests;
      fresh = suc sr.cache.fresh;
    } in
    let queued : Instance = record sr { cache = c } in
    let a = sr.cache.fresh in
    let after = set_stamp now a (sr_send_arp_request queued route.gw) in
    let new = queuereq_new sr.cache route.gw (set_ip_cksum (decrement_ttl f)) none unasked in
    let done = asked_once junk now fuel queued a route.gw sr.cache.requests refl late word usable in
    let kept = forgotten junk now fuel queued a route.gw sr.cache.requests refl late word usable in
    (
      after,
      ground (arith, new, done, decrement_ttl-pos f long bytes alive),
      record {
        asked = kept.asked;
        request = kept.request;
        pending = kept.pending;
        once = kept.once;
        stamped = kept.stamped;
        nothing_waits = kept.nothing_waits;
      },
    )
