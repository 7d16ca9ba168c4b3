-- ===== src/Router/Send/Wire.antt =====
-- When a frame that the router sends reaches the wire.
use computer_network.Prelude.{
  ◌≤◌, ◌≡◌, true, ◌∷◌, some, arith, take, length, bytes_eq, bytes_eq_refl, eq_of_bytes_eq, ◌≢◌,
  Bool-cases, inl, inr,
}
use computer_network.Router.Instance.{Bytes, Interface, Instance}
use computer_network.Router.Interfaces.{sr_get_interface}
use computer_network.Router.Frame.{ether_shost}
use computer_network.Router.Send.{sr_send_packet, sr_ether_addrs_match_interface}

-- A frame whose source address is that of the named interface goes out, and nothing else changes.
pub sr_send_packet_by :
    (sr : Instance) (i : Interface) (name f : Bytes)
    → sr_get_interface sr name ≡ some i
    → 14 ≤ length f
    → ether_shost f ≡ i.addr
    → sr_send_packet sr f name ≡ record sr { wire = (f, take 16 name) ∷ sr.wire }
unfolding sr_send_packet sr_ether_addrs_match_interface
sr_send_packet_by sr i name f found long mac =
    let same : bytes_eq (ether_shost f) i.addr ≡ true = rw mac (bytes_eq_refl i.addr) in
    ground (arith, same)

pub sr_send_packet_ok :
    (sr : Instance) (i : Interface) (f : Bytes)
    → sr_get_interface sr i.name ≡ some i
    → 14 ≤ length f
    → ether_shost f ≡ i.addr
    → sr_send_packet sr f i.name ≡ record sr { wire = (f, take 16 i.name) ∷ sr.wire }
sr_send_packet_ok sr i = sr_send_packet_by sr i i.name

-- A frame whose source address is not that of the interface it is to leave by changes nothing.
pub sr_send_packet_spoofed :
    (sr : Instance) (i : Interface) (name f : Bytes)
    → sr_get_interface sr name ≡ some i
    → ether_shost f ≢ i.addr
    → sr_send_packet sr f name ≡ sr
unfolding sr_send_packet sr_ether_addrs_match_interface
sr_send_packet_spoofed sr i name f found other =
    elim (Bool-cases (bytes_eq (ether_shost f) i.addr)) [
      | inl e ↦ absurd (other (eq_of_bytes_eq (ether_shost f) i.addr e))
      | inr e ↦ ground arith
    ]
