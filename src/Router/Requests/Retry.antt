-- ===== src/Router/Requests/Retry.antt =====
-- The life of an ARP request under handle_arpreq.
use computer_network.Prelude.{ℕ, suc, ◌+◌, ◌≤◌, ◌<◌, ◌≡◌, refl, ◌∙◌, List, [], ◌∷◌, some, arith}
use computer_network.Prelude.Result.{ok}
use computer_network.Router.Instance.{Bytes, Interface, ArpRequest, Instance}
use computer_network.Router.ArpCache.{update_request, sr_arpreq_destroy}
use computer_network.Router.Send.{sr_send_packet}
use computer_network.Router.Arp.{arp_request_frame, broadcast, sr_send_arp_request}
use computer_network.Router.Requests.{
  at_address, stamp, set_stamp, retry_or_give_up, handle_arpreq, unreachable_loop,
}

at_address-update_request :
    (a : ℕ) (f : ArpRequest → ArpRequest) (rs : List ArpRequest) (r : ArpRequest)
    → ((q : ArpRequest) → (f q).address ≡ q.address)
    → at_address a rs ≡ some r
    → at_address a (update_request a f rs) ≡ some (f r)
unfolding at_address update_request
at_address-update_request a f [] r keep h = cc
at_address-update_request a f (q ∷ rs) r keep h =
    ground (arith, keep q, at_address-update_request a f rs r keep)

if_list-sr_send_packet :
    (sr : Instance) (f name : Bytes) → (sr_send_packet sr f name).if_list ≡ sr.if_list
unfolding sr_send_packet
if_list-sr_send_packet sr f name = ground arith

cache-sr_send_packet :
    (sr : Instance) (f name : Bytes) → (sr_send_packet sr f name).cache ≡ sr.cache
unfolding sr_send_packet
cache-sr_send_packet sr f name = ground arith

cache-broadcast :
    (ip : ℕ) (is : List Interface) (sr : Instance) → (broadcast ip is sr).cache ≡ sr.cache
unfolding broadcast
cache-broadcast ip [] sr = refl
cache-broadcast ip (i ∷ is) sr =
    cache-broadcast ip is (sr_send_packet sr (arp_request_frame i ip) i.name)
    ∙ cache-sr_send_packet sr (arp_request_frame i ip) i.name

pub cache-sr_send_arp_request :
    (sr : Instance) (ip : ℕ) → (sr_send_arp_request sr ip).cache ≡ sr.cache
unfolding sr_send_arp_request
cache-sr_send_arp_request sr ip = cache-broadcast ip sr.if_list sr

module _ (junk : Bytes) (now fuel : ℕ) (sr : Instance) (a : ℕ) (r : ArpRequest)
    (there : at_address a sr.cache.requests ≡ some r) where
  -- Nothing happens within a second of the last request.
  pub handle_arpreq_early : now ≤ r.sent + 1 → handle_arpreq junk now (suc fuel) sr a ≡ ok sr
  unfolding handle_arpreq
  handle_arpreq_early h = ground arith

  -- Later, up to five requests are broadcast, each stamped on the request.
  pub handle_arpreq_retry :
      r.sent + 1 < now
      → r.times_sent < 5
      → handle_arpreq junk now (suc fuel) sr a ≡ ok (set_stamp now a (sr_send_arp_request sr r.ip))
  unfolding handle_arpreq retry_or_give_up
  handle_arpreq_retry h k = ground arith

  -- After five requests the request is destroyed; with no packet waiting that is all.
  pub handle_arpreq_give_up :
      r.sent + 1 < now
      → 5 ≤ r.times_sent
      → r.packets ≡ []
      → handle_arpreq junk now (suc fuel) sr a
        ≡ ok (record sr { cache = sr_arpreq_destroy sr.cache a })
  unfolding handle_arpreq retry_or_give_up unreachable_loop
  handle_arpreq_give_up h k none_waits = ground arith

  -- A retry leaves the request with the new time and one more on its count.
  pub at_address_retry :
      at_address a (set_stamp now a (sr_send_arp_request sr r.ip)).cache.requests
      ≡ some (stamp now r)
  unfolding set_stamp
  at_address_retry =
      rw (cache-sr_send_arp_request sr r.ip)
        (at_address-update_request a (stamp now) sr.cache.requests r (λ q. refl) there)
