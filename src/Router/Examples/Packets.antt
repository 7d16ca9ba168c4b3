-- ===== src/Router/Examples/Packets.antt =====
-- Packets that the router receives.
use computer_network.Prelude.{◌≡◌, refl, [], ◌∷◌, arith, bytes_eq}
use computer_network.Prelude.Buffer.{load8, load16, load32, slice, le_value}
use computer_network.Router.Cksum.{htons}
use computer_network.Router.Cksum.Verify.{word_sum}
use computer_network.Prelude.Result.{ok}
use computer_network.Router.Instance.{Bytes, Instance}
use computer_network.Router.Frame.{set_ether_dhost}
use computer_network.Router.Interfaces.{find_ip, find_name}
use computer_network.Router.Routes.{match_loop, longest_match}
use computer_network.Router.ArpCache.{lookup_loop, sr_arpcache_lookup, find_request}
use computer_network.Router.Icmp.{sr_send_icmp_packet}
use computer_network.Router.Icmp.Message.{IsError}
use computer_network.Router.Icmp.Sending.{sr_send_icmp_packet-IsError}
use computer_network.Router.Icmp.Echo.{IsEcho}
use computer_network.Router.Forward.{sr_handle_ip_packet, sr_handlepacket}
use computer_network.Router.Forward.Relay.{IsRelayed, sr_handle_ip_packet-IsRelayed}
use computer_network.Router.Forward.Checks.{valid_header_dropped}
use computer_network.Router.Forward.Local.{sr_handle_ip_packet-IsEcho}
use computer_network.Router.Forward.Trouble.{IsForgotten, sr_handle_ip_packet-IsForgotten}
use computer_network.Router.Examples.World.{
  eth3, eth3_name, own_mac, host_mac, host_ip, far_ip, to_host, to_own, host_entry, own_entry,
  resolved, unresolved, own_gateway, junk, udp, ping,
}

sr_handle_ip_packet-IsRelayed_example :
    (g : Bytes) × (sr_handle_ip_packet junk 9 4 resolved udp eth3_name host_mac own_mac
      ≡ ok (record resolved { wire = (g, eth3_name) ∷ [] }))
    × IsRelayed eth3 host_entry udp g
unfolding find_ip find_name bytes_eq match_loop longest_match lookup_loop sr_arpcache_lookup load8
    load32 slice le_value
sr_handle_ip_packet-IsRelayed_example =
    sr_handle_ip_packet-IsRelayed junk 9 4 resolved udp eth3_name host_mac own_mac to_host
      host_entry eth3 (omega arith) (omega arith) refl refl (omega arith) refl refl refl refl refl

valid_header_dropped_example : sr_handlepacket junk 9 4 resolved udp eth3_name ≡ ok resolved
unfolding load16 slice le_value htons word_sum
valid_header_dropped_example =
    valid_header_dropped junk 9 4 resolved udp eth3_name (omega arith) (omega arith) refl refl
      (omega arith)

sr_handle_ip_packet-IsEcho_example :
    (g : Bytes) × (sr_handle_ip_packet junk 9 4 resolved ping eth3_name host_mac own_mac
      ≡ ok (record resolved { wire = (g, eth3_name) ∷ [] }))
    × IsEcho eth3 host_mac own_mac ping g
unfolding find_ip find_name bytes_eq load8 load32 slice le_value
sr_handle_ip_packet-IsEcho_example =
    sr_handle_ip_packet-IsEcho junk 9 4 resolved ping eth3_name host_mac own_mac eth3 refl eth3
      (omega arith) (omega arith) (omega arith) refl refl refl refl refl refl refl (omega arith)

sr_handle_ip_packet-IsForgotten_example :
    (sr' : Instance) × (sr_handle_ip_packet junk 9 4 unresolved udp eth3_name host_mac own_mac
      ≡ ok sr')
    × IsForgotten 9 unresolved host_ip sr'
unfolding find_ip find_name bytes_eq match_loop longest_match lookup_loop sr_arpcache_lookup
    find_request load8 load32 slice le_value
sr_handle_ip_packet-IsForgotten_example =
    sr_handle_ip_packet-IsForgotten junk 9 3 unresolved udp eth3_name host_mac own_mac to_host
      (omega arith) (omega arith) refl refl (omega arith) refl refl (omega arith) (omega arith)
      (record { mac = refl; word = omega arith; named = refl }, tt)

sr_send_icmp_packet-IsError_example :
    (g : Bytes) × IsError eth3 far_ip udp 3 1 g
    × (sr_send_icmp_packet (λ sr a. ok sr) junk own_gateway far_ip udp 3 1
        ≡ ok (record own_gateway { wire = (set_ether_dhost own_mac g, eth3_name) ∷ [] }))
unfolding find_ip find_name bytes_eq match_loop longest_match lookup_loop sr_arpcache_lookup
sr_send_icmp_packet-IsError_example =
    sr_send_icmp_packet-IsError (λ sr a. ok sr) junk own_gateway far_ip udp 3 1 (omega arith) to_own
      eth3 own_entry refl refl refl refl refl (omega arith) (omega arith) refl refl (omega arith)
      (omega arith) (omega arith) (omega arith)
