-- ===== src/Router/Arp/Broadcast.antt =====
-- What sr_send_arp_request puts on the wire.
use computer_network.Prelude.{
  ℕ, ◌^◌, ◌<◌, ◌≡◌, refl, ap, ◌∙◌, List, [], ◌∷◌, ◌++◌, some, arith, take, length, replicate, All,
  All-map, map,
}
use mathlib.Core.List.{reverse, reverse-cons, append_assoc}
use computer_network.Prelude.Buffer.{slice, load16, load32, le_bytes, le_value}
use computer_network.Router.Cksum.{htons}
use computer_network.Router.Instance.{Bytes, Interface, Instance}
use computer_network.Router.Interfaces.{find_name}
use computer_network.Router.Frame.{
  ether_dhost, ether_shost, ether_type, ar_op, ar_sha, ar_sip, ar_tip, ethertype_arp,
  arp_op_request,
}
use computer_network.Router.Send.Wire.{sr_send_packet_ok}
use computer_network.Router.Arp.{arp_request_frame, broadcast, sr_send_arp_request}

-- A who-has for `ip`, to everybody, from the interface.
pub record IsWhoHas (i : Interface) (ip : ℕ) (f : Bytes) : Type 0 where
  pub size : length f ≡ 42
  pub to_all : ether_dhost f ≡ replicate 6 0xff
  pub from_us : ether_shost f ≡ i.addr
  pub type : htons (ether_type f) ≡ ethertype_arp
  pub is_request : htons (ar_op f) ≡ arp_op_request
  pub our_mac : ar_sha f ≡ i.addr
  pub our_ip : ar_sip f ≡ i.ip
  pub target : ar_tip f ≡ ip

-- The fields, for an address given byte by byte.
who_has :
    (name addr : Bytes) (own ip : ℕ)
    → length addr ≡ 6
    → own < 2 ^ 32
    → ip < 2 ^ 32
    → let i : Interface = record { name = name; addr = addr; ip = own } in
      IsWhoHas i ip (arp_request_frame i ip)
unfolding arp_request_frame slice load16 load32 le_value le_bytes htons
who_has name (b0 ∷ b1 ∷ b2 ∷ b3 ∷ b4 ∷ b5 ∷ []) own ip e h k = record {
  size = refl;
  to_all = refl;
  from_us = refl;
  type = refl;
  is_request = refl;
  our_mac = refl;
  our_ip = omega arith;
  target = omega arith;
}
who_has name _ own ip e h k = absurd (omega arith)

-- An interface with an address of six bytes and an IP of 32 bits that is found by its name.
pub record IsUsable (is : List Interface) (i : Interface) : Type 0 where
  pub mac : length i.addr ≡ 6
  pub word : i.ip < 2 ^ 32
  pub named : find_name i.name is ≡ some i

-- What goes on the wire for each interface, in the order of the list.
abbrev pub requests_for : ℕ → List Interface → List (Bytes × Bytes)
requests_for ip = map (λ i. (arp_request_frame i ip, take 16 i.name))

broadcast_lem :
    (ip : ℕ) (is : List Interface) (sr : Instance)
    → ip < 2 ^ 32
    → All (IsUsable sr.if_list) is
    → broadcast ip is sr ≡ record sr { wire = reverse (requests_for ip is) ++ sr.wire }
unfolding broadcast
broadcast_lem ip [] sr k h = refl
broadcast_lem ip (i ∷ is) sr k h =
    let frame = who_has i.name i.addr i.ip ip h.0.mac h.0.word k in
    let sent =
      sr_send_packet_ok sr i (arp_request_frame i ip) h.0.named (omega (arith, frame.size))
        frame.from_us in
    let sr' : Instance = record sr { wire = (arp_request_frame i ip, take 16 i.name) ∷ sr.wire } in
    rw sent (
      broadcast_lem ip is sr' k h.1
      ∙ ap (λ w. record sr { wire = w }) (rw (reverse-cons, append_assoc)))

-- With all interfaces usable, the broadcast for a 32-bit address sends one frame by each interface,
-- in the order of the list, and changes nothing but the wire; each frame is a who-has for the
-- address from that interface.
pub sr_send_arp_request_lem :
    (sr : Instance) (ip : ℕ)
    → ip < 2 ^ 32
    → All (IsUsable sr.if_list) sr.if_list
    → (sr_send_arp_request sr ip
        ≡ record sr { wire = reverse (requests_for ip sr.if_list) ++ sr.wire })
      × All (λ i. IsWhoHas i ip (arp_request_frame i ip)) sr.if_list
unfolding sr_send_arp_request
sr_send_arp_request_lem sr ip k h = (
  broadcast_lem ip sr.if_list sr k h,
  All-map sr.if_list (λ i u. who_has i.name i.addr i.ip ip u.mac u.word k) h,
)
