-- ===== src/Tcp/Network/Sealed.antt =====
-- What stcp_network_send makes of its buffers.
use mathlib.Core.List.{append_assoc, append-nil}
use computer_network.Prelude.{
  ℕ, ◌+◌, ◌≤◌, ◌<◌, ◌≡◌, refl, sym, ap, subst, ◌∙◌, ◌⊎◌, inl, inr, Option-cases, true, List, [],
  ◌∷◌, ◌++◌, some, arith, length, length-append, drop, leb,
}
use computer_network.Prelude.Buffer.{
  slice, store16, length-patch, length-le_bytes, le_bytes, slice-patch_ne, drop-patch,
}
use computer_network.Prelude.Result.{ok}
use computer_network.Tcp.Segment.{Bytes}
use computer_network.Tcp.Checksum.{mysock_set_checksum, mysock_verify_checksum, mysock_tcp_checksum}
use computer_network.Tcp.Checksum.Verify.{mysock_verify_checksum-mysock_set_checksum}
use computer_network.Tcp.Queue.Stream.{bytes_of}
use computer_network.Tcp.Wire.{Sockets, NetworkContext, network_send_packet}
use computer_network.Tcp.Network.{gather, fill_header, stcp_network_send}

-- Buffers that fit are put together.
gather_lem :
    (packet : Bytes) (more : List Bytes)
    → length packet + length (bytes_of more) ≤ 1500
    → gather packet more ≡ ok (packet ++ bytes_of more)
unfolding gather
gather_lem packet [] h = ap ok (sym (append-nil packet))
gather_lem packet (b ∷ more) h =
    let size = length-append b (bytes_of more) in
    let fits : leb (length packet + length b) 1500 ≡ true = ground (arith, size) in
    rw (gather, fits)
      (gather_lem (packet ++ b) more (omega (arith, size, length-append packet b))
        ∙ ap ok (append_assoc packet b (bytes_of more)))

pub length-store16 : (off v : ℕ) (b : Bytes) → length (store16 off v b) ≡ length b
unfolding store16
length-store16 off v b = length-patch off (le_bytes 2 v) b

slice-store16_ne :
    (o n off v : ℕ) (b : Bytes)
    → (o + n ≤ off) ⊎ (off + 2 ≤ o)
    → slice o n (store16 off v b) ≡ slice o n b
unfolding store16
slice-store16_ne o n off v b d =
    slice-patch_ne o n off (le_bytes 2 v) b (omega (arith, length-le_bytes 2 v, d))

drop-store16 : (o off v : ℕ) (b : Bytes) → off + 2 ≤ o → drop o (store16 off v b) ≡ drop o b
unfolding store16
drop-store16 o off v b h = drop-patch o off (le_bytes 2 v) b (omega (arith, length-le_bytes 2 v))

-- Two packets that agree but for the ports, the checksum and the urgent pointer.
pub record IsSameSegment (a b : Bytes) : Type 0 where
  pub size : length a ≡ length b
  pub fields : slice 4 12 a ≡ slice 4 12 b
  pub payload : drop 20 a ≡ drop 20 b

IsSameSegment-store16 :
    (off v : ℕ) (a b : Bytes)
    → (off + 2 ≤ 4) ⊎ (16 ≤ off)
    → off + 2 ≤ 20
    → IsSameSegment a b
    → IsSameSegment (store16 off v a) b
IsSameSegment-store16 off v a b d h same = record {
  size = length-store16 off v a ∙ same.size;
  fields = slice-store16_ne 4 12 off v a (elim d [ inl l ↦ inr l | inr r ↦ inl r ]) ∙ same.fields;
  payload = drop-store16 20 off v a h ∙ same.payload;
}

mysock_set_checksum-IsSameSegment :
    (from to : ℕ) (a d : Bytes) → mysock_set_checksum from to a ≡ some d → IsSameSegment d a
unfolding mysock_set_checksum
mysock_set_checksum-IsSameSegment from to a d e =
    elim (Option-cases (mysock_tcp_checksum from to a)) [
      | inl failed ↦ absurd (ground (arith, e, failed))
      | inr (sum, done) ↦
          let same : store16 16 sum a ≡ d = ground (arith, e, done) in
          subst (λ t. IsSameSegment t a) same
            (IsSameSegment-store16 16 sum a a (omega arith) (omega arith)
              (record { size = refl; fields = refl; payload = refl }))
    ]

fill_header-IsSameSegment :
    (sport dport : ℕ) (a : Bytes) → IsSameSegment (fill_header sport dport a) a
unfolding fill_header
fill_header-IsSameSegment sport dport a =
    let from =
      IsSameSegment-store16 0 sport a a (omega arith) (omega arith)
        (record { size = refl; fields = refl; payload = refl }) in
    let to = IsSameSegment-store16 2 dport _ a (omega arith) (omega arith) from in
    let sum = IsSameSegment-store16 16 0 _ a (omega arith) (omega arith) to in
    IsSameSegment-store16 18 0 _ a (omega arith) (omega arith) sum

IsSameSegment-trans : (a b c : Bytes) → IsSameSegment a b → IsSameSegment b c → IsSameSegment a c
IsSameSegment-trans a b c first second = record {
  size = first.size ∙ second.size;
  fields = first.fields ∙ second.fields;
  payload = first.payload ∙ second.payload;
}

-- A context that knows its peer, an IPv4 address other than 0.0.0.0 and a port.
pub record IsAddressed (ctx : NetworkContext) : Type 0 where
  pub family : ctx.peer_addr.sa_family ≡ 2
  pub port : 0 < ctx.peer_addr.sin_port
  pub address : 0 < ctx.peer_addr.sin_addr

stcp_network_send_run :
    {W : Type 0} (s : Sockets W) (local_addr port : ℕ) (ctx : NetworkContext) (w : W) (src : Bytes)
    (more : List Bytes) (packet sealed : Bytes)
    → length src ≤ 1500
    → gather src more ≡ ok packet
    → 20 ≤ length packet
    → IsAddressed ctx
    → mysock_set_checksum local_addr ctx.peer_addr.sin_addr
        (fill_header port ctx.peer_addr.sin_port packet)
      ≡ some sealed
    → stcp_network_send s local_addr port ctx w src more ≡ network_send_packet s ctx w sealed
unfolding stcp_network_send
stcp_network_send_run s local_addr port ctx w src more packet sealed h1 e1 h2 a e2 =
    ground (arith, e1, e2, a.family, a.port)

-- Buffers of 20 to 1500 bytes together go out as one segment, which is what they hold but for the
-- ports, the checksum and the urgent pointer, and which the peer's check accepts.
pub stcp_network_send-IsSameSegment :
    {W : Type 0} (s : Sockets W) (local_addr port : ℕ) (ctx : NetworkContext) (w : W) (src : Bytes)
    (more : List Bytes)
    → 20 ≤ length (src ++ bytes_of more)
    → length (src ++ bytes_of more) ≤ 1500
    → 0 < local_addr
    → IsAddressed ctx
    → (sealed : Bytes) × IsSameSegment sealed (src ++ bytes_of more)
      × (mysock_verify_checksum ctx.peer_addr.sin_addr local_addr sealed ≡ some true)
      × (stcp_network_send s local_addr port ctx w src more ≡ network_send_packet s ctx w sealed)
stcp_network_send-IsSameSegment s local_addr port ctx w src more long short from a =
    let p = src ++ bytes_of more in
    let size = length-append src (bytes_of more) in
    let filled = fill_header port ctx.peer_addr.sin_port p in
    let same = fill_header-IsSameSegment port ctx.peer_addr.sin_port p in
    let (sealed, set, good) =
      mysock_verify_checksum-mysock_set_checksum local_addr ctx.peer_addr.sin_addr filled
        (omega (arith, same.size)) from a.address in
    (
      sealed,
      IsSameSegment-trans sealed filled p
          (mysock_set_checksum-IsSameSegment local_addr ctx.peer_addr.sin_addr filled sealed set)
          same,
      good,
      stcp_network_send_run s local_addr port ctx w src more p sealed (omega (arith, size))
          (gather_lem src more (omega (arith, size))) long a set,
    )
