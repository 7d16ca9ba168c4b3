-- ===== src/Router/Requests.antt =====
-- handle_arpreq, sr_arpcache_sweepreqs and one round of sr_arpcache_timeout of sr_arpcache.c.
-- handle_arpreq and sr_send_icmp_packet call one another: fuel stands for the C stack. The clock
-- is read once in a call.
pub mod Retry
pub mod Life
use computer_network.Prelude.{
  ℕ, zero, suc, ◌+◌, Bool, true, false, List, [], ◌∷◌, Option, none, some, drop, length, ltb, leb,
  ◌==◌, if◌then◌else◌,
}
use computer_network.Prelude.Result.{
  Result, ok, fault, guard, ◌>>=◌, ◌>>◌, out_of_bounds, dangling, no_stack, no_rounds,
}
use computer_network.Router.Instance.{Bytes, Packet, ArpRequest, Instance}
use computer_network.Router.ArpCache.{update_request, sr_arpreq_destroy, expire}
use computer_network.Router.Frame.{ip_src}
use computer_network.Router.Arp.{sr_send_arp_request}
use computer_network.Router.Icmp.{sr_send_icmp_packet}

-- What a pointer to a request points to; none once it is freed.
unfoldable pub at_address : ℕ → List ArpRequest → Option ArpRequest
at_address address [] = none
at_address address (r ∷ rs) = if r.address == address then some r else at_address address rs

abbrev pub deref : Instance → ℕ → Result ArpRequest
deref sr address = elim (at_address address sr.cache.requests) [
  | none ↦ fault dangling
  | some r ↦ ok r
]

-- Host unreachable to the source of each waiting packet. A packet lives as long as its request.
unfoldable pub unreachable_loop :
    (Instance → ℕ → Bytes → ℕ → ℕ → Result Instance) → ℕ → List Packet → Instance → Result Instance
unreachable_loop send address [] sr = ok sr
unreachable_loop send address (p ∷ ps) sr = do
  live ← deref sr address
  guard (leb 30 (length p.buf)) out_of_bounds
  sr' ← send sr (ip_src p.buf) (drop 14 p.buf) 3 1
  unreachable_loop send address ps sr'

-- `request->sent = current_time; request->times_sent++`
abbrev pub stamp : ℕ → ArpRequest → ArpRequest
stamp now r = record r { sent = now; times_sent = r.times_sent + 1 }

unfoldable pub set_stamp : ℕ → ℕ → Instance → Instance
set_stamp now address sr =
    let requests = update_request address (stamp now) sr.cache.requests in
    record sr { cache = record (sr.cache) { requests = requests } }

-- The two things done when a second has passed.
unfoldable pub retry_or_give_up :
    (Instance → ℕ → Bytes → ℕ → ℕ → Result Instance)
    → ℕ
    → Instance
    → ℕ
    → ArpRequest
    → Result Instance
retry_or_give_up send now sr address request =
    if leb 5 request.times_sent
    then (do
      sr' ← unreachable_loop send address request.packets sr
      live ← deref sr' address
      ok (record sr' { cache = sr_arpreq_destroy sr'.cache address }))
    else ok (set_stamp now address (sr_send_arp_request sr request.ip))

unfoldable pub handle_arpreq : Bytes → ℕ → ℕ → Instance → ℕ → Result Instance
handle_arpreq junk now zero sr address = fault no_stack
handle_arpreq junk now (suc fuel) sr address = do
  request ← deref sr address
  if ltb (request.sent + 1) now
      then retry_or_give_up (sr_send_icmp_packet (handle_arpreq junk now fuel) junk) now sr address
          request
      else ok sr

-- `req->next`, read before the request is handled.
unfoldable pub next_address : ℕ → List ArpRequest → Option ℕ
next_address address [] = none
next_address address (r ∷ []) = none
next_address address (r ∷ q ∷ rs) =
    if r.address == address then some q.address else next_address address (q ∷ rs)

-- The walk along the queue, at most `rounds` requests far.
unfoldable pub sweep_loop :
    (Instance → ℕ → Result Instance) → ℕ → Option ℕ → Instance → Result Instance
sweep_loop handle rounds none sr = ok sr
sweep_loop handle zero (some address) sr = fault no_rounds
sweep_loop handle (suc rounds) (some address) sr = do
  live ← deref sr address
  let next = next_address address sr.cache.requests
  sr' ← handle sr address
  sweep_loop handle rounds next sr'

abbrev pub first_address : List ArpRequest → Option ℕ
first_address [] = none
first_address (r ∷ rs) = some r.address

-- The walk goes forward only, and new requests come in front of it: the length of the queue at
-- the start bounds the rounds.
unfoldable pub sr_arpcache_sweepreqs : Bytes → ℕ → ℕ → Instance → Result Instance
sr_arpcache_sweepreqs junk now fuel sr =
    sweep_loop (handle_arpreq junk now fuel) (length sr.cache.requests)
      (first_address sr.cache.requests) sr

-- One round of the endless loop of the thread.
unfoldable pub sr_arpcache_timeout : Bytes → ℕ → ℕ → Instance → Result Instance
sr_arpcache_timeout junk curtime fuel sr =
    let cache = record (sr.cache) { entries = expire curtime sr.cache.entries } in
    sr_arpcache_sweepreqs junk curtime fuel (record sr { cache = cache })
