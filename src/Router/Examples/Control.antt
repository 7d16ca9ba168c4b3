-- ===== src/Router/Examples/Control.antt =====
-- ARP, the cache and the queue of requests.
use computer_network.Prelude.{◌≡◌, refl, [], ◌∷◌, none, arith, bytes_eq}
use computer_network.Prelude.Buffer.{load16, load32, slice, le_value}
use computer_network.Router.Cksum.{htons}
use computer_network.Prelude.Result.{ok}
use computer_network.Router.Instance.{Bytes, Instance}
use computer_network.Router.Frame.{ar_sha, ar_sip}
use computer_network.Router.Interfaces.{find_ip, find_name}
use computer_network.Router.ArpCache.{sr_arpcache_insert, sr_arpcache_init}
use computer_network.Router.ArpCache.Queue.{IsQueue}
use computer_network.Router.ArpCache.Promises.{queuereq, insert, timeout, run, IsCache, run-IsCache}
use computer_network.Router.Arp.{sr_handle_arp_packet}
use computer_network.Router.Arp.Reply.{IsReply, request_answered}
use computer_network.Router.Examples.World.{
  eth3, host_mac, host_ip, waiting_cache, resolved, udp, who_has_router,
}

waiting_cache-IsQueue : IsQueue waiting_cache
waiting_cache-IsQueue = record { distinct = (tt, tt, tt); allocated = (omega arith, tt) }

request_answered_example :
    (r : Bytes) × (sr_handle_arp_packet 9 resolved who_has_router
      ≡ ok (record resolved {
        cache =
            (sr_arpcache_insert 9 resolved.cache (ar_sha who_has_router) (ar_sip who_has_router)).0;
        wire = (r, eth3.name) ∷ [];
      }))
    × IsReply eth3 who_has_router r
unfolding find_ip find_name load16 load32 slice le_value htons bytes_eq
request_answered_example =
    request_answered 9 resolved who_has_router eth3 (omega arith) (omega arith) refl refl refl refl

run-IsCache_example : IsCache (
    run
      (sr_arpcache_init 1)
      (queuereq host_ip udp none ∷ insert 9 host_mac host_ip ∷ timeout 30 ∷ []))
run-IsCache_example =
    run-IsCache 1 (queuereq host_ip udp none ∷ insert 9 host_mac host_ip ∷ timeout 30 ∷ [])
