-- ===== src/Tcp/Wire/Cut.antt =====
-- A connection that ends in the middle of a packet.
use computer_network.Prelude.{
  ℕ, ◌/◌, ◌%◌, ◌≤◌, ◌<◌, ◌≡◌, refl, ap, ◌∙◌, inl, inr, Bool-cases, [], ◌∷◌, ◌++◌, some, arith,
  length, take, drop, replicate, min, length-append, length-take, ltb,
}
use computer_network.Prelude.Result.{ok}
use computer_network.Tcp.Segment.{Bytes}
use computer_network.Tcp.Wire.{
  Sockets, NetworkContext, NetDone, read_io, tcp_io, recv_body, recv_on, network_recv_packet,
}
use computer_network.Tcp.Wire.Stream.{IsReader, IsEnding, append_split, tcp_io_loop-read_end}
use computer_network.Tcp.Wire.Packets.{framed, tcp_io-read, recv_on_run}
use computer_network.Tcp.Wire.RoundTrip.{IsConnected, network_recv_packet_run}

module _ {W : Type 0} (s : Sockets W) (sd : ℕ) (incoming : W → Bytes)
    (reader : IsReader s sd incoming) (ending : IsEnding s sd incoming) where
  tcp_io-read_end :
      (w : W) (buf : Bytes)
      → length (incoming w) < length buf
      → (buf' : Bytes) × (w' : W) × (tcp_io (read_io s sd) w buf
          ≡ ok (record { rc = some 0; buf = buf'; world = w' }))
        × (incoming w' ≡ [])
  unfolding tcp_io
  tcp_io-read_end w buf short =
      tcp_io_loop-read_end s sd incoming reader ending (length buf) (length buf) w buf short
        (omega arith)

  recv_on_end :
      (ctx : NetworkContext) (w : W) (dst : Bytes)
      → length (incoming w) < 2
      → (done : NetDone W) × (recv_on s sd ctx w dst ≡ ok done) × (done.status ≡ some 0)
  unfolding recv_on
  recv_on_end ctx w dst short =
      let (buf, w', head, over) = tcp_io-read_end w (replicate 2 0) short in
      (
        record { status = some 0; ctx = ctx; data_bytes = dst; after = w' },
        rw (recv_on, head) refl,
        refl,
      )

  recv_body_end :
      (ctx : NetworkContext) (w : W) (dst : Bytes) (n : ℕ)
      → length (incoming w) < n
      → n ≤ length dst
      → (done : NetDone W) × (recv_body s sd ctx w dst n ≡ ok done) × (done.status ≡ some 0)
  unfolding recv_body
  recv_body_end ctx w dst n short fits =
      let (buf, w', body, over) =
        tcp_io-read_end w (take (min n (length dst)) dst)
          (omega (arith, length-take (min n (length dst)) dst)) in
      (
        record {
          status = some 0;
          ctx = ctx;
          data_bytes = buf ++ drop (min n (length dst)) dst;
          after = w';
        },
        rw (recv_body, body) refl,
        refl,
      )

-- A connected context whose stream ends before the end of a packet that the buffer would hold gets
-- 0 from its call, as at the end of a connection: a part of a packet is never received, however
-- many bytes each call of read moves.
pub network_recv_packet-cut :
    {W : Type 0} (s : Sockets W) (sd : ℕ) (incoming : W → Bytes)
    → IsReader s sd incoming
    → IsEnding s sd incoming
    → (ctx : NetworkContext) (w : W) (p more dst : Bytes) → IsConnected ctx sd
    → framed p ≡ incoming w ++ more
    → 0 < length more
    → length p < 65536
    → length p ≤ length dst
    → (done : NetDone W) × (network_recv_packet s ctx w dst ≡ ok done) × (done.status ≡ some 0)
network_recv_packet-cut s sd incoming reader ending ctx w p more dst c e some_more short fits =
    let call = network_recv_packet_run s sd ctx w dst c in
    elim (Bool-cases (ltb (length (incoming w)) 2)) [
      | inl early ↦
          let (done, run, zero_read) =
            recv_on_end s sd incoming reader ending ctx w dst (ground arith) in
          (done, call ∙ run, zero_read)
      | inr late ↦
          let head = length p / 256 ∷ length p % 256 ∷ [] in
          let (mid, e1, e2) = append_split head p (incoming w) more e (ground arith) in
          let (w1, got, flow) =
            tcp_io-read s sd incoming reader w (replicate 2 0) head mid e1 refl in
          let (done, run, zero_read) =
            recv_body_end s sd incoming reader ending ctx w1 dst (length p)
              (omega (arith, ap length e2, ap length flow, length-append mid more, some_more))
              fits in
          (done, call ∙ recv_on_run s sd ctx w w1 dst (length p) got short ∙ run, zero_read)
    ]
