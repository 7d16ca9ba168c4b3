-- ===== src/Tcp/Wire/RoundTrip.antt =====
-- _network_send_packet and _network_recv_packet at the two ends of a stream.
use mathlib.Core.List.{append_assoc, append-nil}
use computer_network.Prelude.{
  ℕ, zero, suc, ◌≤◌, ◌<◌, ◌≡◌, refl, sym, ap, ◌∙◌, true, false, inl, inr, Bool-cases, List, [], ◌∷◌,
  ◌++◌, none, some, arith, length, take, drop, replicate, take_all, length-replicate, All,
}
use computer_network.Prelude.Text.Laws.{take-append}
use computer_network.Prelude.Result.{Result, ok, ◌>>=◌}
use computer_network.Tcp.Segment.{Bytes}
use computer_network.Tcp.Wire.{
  Sockets, NetworkContext, tcp_connect, send_on, recv_on, network_send_packet, network_recv_packet,
}
use computer_network.Tcp.Wire.Stream.{IsReader, IsWriter}
use computer_network.Tcp.Wire.Packets.{framed, send_on-framed, recv_on-framed}

-- A context that is connected, and its socket.
pub record IsConnected (ctx : NetworkContext) (sd : ℕ) : Type 0 where
  pub here : ctx.socket ≡ some sd
  pub joined : ctx.connected ≡ true
  pub single : ctx.listening ≡ false
  pub peer : 0 < ctx.peer_addr_len

-- A packet that fits a buffer of this size.
abbrev pub IsSmall : ℕ → Bytes → Type 0
IsSmall max_len p = (0 < length p) × (length p < 65536) × (length p ≤ max_len)

abbrev pub frames : List Bytes → Bytes
frames [] = []
frames (p ∷ ps) = framed p ++ frames ps

-- What a packet leaves in a buffer that holds it.
pub take_received :
    (p dst : Bytes)
    → length p ≤ length dst
    → take (length p) (take (length dst) p ++ drop (length p) dst) ≡ p
take_received p dst fits =
    ap (λ t. take (length p) (t ++ drop (length p) dst)) (take_all (length dst) p fits)
    ∙ take-append (length p) p (drop (length p) dst) refl

module _ {W : Type 0} (s : Sockets W) where
  network_send_packet_run :
      (sd : ℕ) (ctx : NetworkContext) (w : W) (p : Bytes)
      → IsConnected ctx sd
      → network_send_packet s ctx w p ≡ send_on s sd ctx w p
  unfolding network_send_packet tcp_connect
  network_send_packet_run sd ctx w p c = ground (arith, c.here, c.joined, c.peer)

  pub network_recv_packet_run :
      (sd : ℕ) (ctx : NetworkContext) (w : W) (dst : Bytes)
      → IsConnected ctx sd
      → network_recv_packet s ctx w dst ≡ recv_on s sd ctx w dst
  unfolding network_recv_packet tcp_connect
  network_recv_packet_run sd ctx w dst c = elim (Bool-cases ctx.is_active) [
    | inl active ↦ ground (arith, c.here, c.joined, c.single, active)
    | inr passive ↦ ground (arith, c.here, c.joined, c.single, passive)
  ]

  -- Calls of _network_send_packet, one after another.
  unfoldable pub send_packets : NetworkContext → W → List Bytes → Result (NetworkContext × W)
  send_packets ctx w [] = ok (ctx, w)
  send_packets ctx w (p ∷ ps) = do
    done ← network_send_packet s ctx w p
    send_packets done.ctx done.after ps

  -- Calls of _network_recv_packet into a buffer of `max_len` bytes, and what each one puts there.
  unfoldable pub recv_packets : ℕ → NetworkContext → W → ℕ → Result (List Bytes × W)
  recv_packets max_len ctx w zero = ok ([], w)
  recv_packets max_len ctx w (suc n) = do
    done ← network_recv_packet s ctx w (replicate max_len 0)
    elim done.status [
      | none ↦ ok ([], done.after)
      | some len ↦ do
        rest ← recv_packets max_len done.ctx done.after n
        ok (take len done.data_bytes ∷ rest.0, rest.1)
    ]

  pub network_send_packet-framed :
      (sd : ℕ) (outgoing : W → Bytes)
      → IsWriter s sd outgoing
      → (ctx : NetworkContext) (w : W) (p : Bytes) → IsConnected ctx sd
      → length p < 65536
      → (w' : W) × (network_send_packet s ctx w p
          ≡ ok (record { status = some (length p); ctx = ctx; data_bytes = p; after = w' }))
        × (outgoing w' ≡ outgoing w ++ framed p)
  network_send_packet-framed sd outgoing writer ctx w p c short =
      let (w', run, flow) = send_on-framed s sd outgoing writer ctx w p short in
      (w', network_send_packet_run sd ctx w p c ∙ run, flow)

  -- With a packet of at least one byte next on the stream, a connected context receives as much of
  -- it as the buffer holds and returns the length of the whole packet, and the stream is left at the
  -- packet that follows, however many bytes each call of read moves.
  pub network_recv_packet-framed :
      (sd : ℕ) (incoming : W → Bytes)
      → IsReader s sd incoming
      → (ctx : NetworkContext) (w : W) (p rest dst : Bytes) → IsConnected ctx sd
      → incoming w ≡ framed p ++ rest
      → 0 < length p
      → length p < 65536
      → 0 < length dst
      → (w' : W) × (network_recv_packet s ctx w dst
          ≡ ok (record {
            status = some (length p);
            ctx = ctx;
            data_bytes = take (length dst) p ++ drop (length p) dst;
            after = w';
          }))
        × (incoming w' ≡ rest)
  network_recv_packet-framed sd incoming reader ctx w p rest dst c e some_byte short room =
      let (w', run, flow) =
        recv_on-framed s sd incoming reader ctx w p rest dst e some_byte short room in
      (w', network_recv_packet_run sd ctx w dst c ∙ run, flow)

  send_packets-frames :
      (sd : ℕ) (outgoing : W → Bytes)
      → IsWriter s sd outgoing
      → (ctx : NetworkContext) (w : W) (max_len : ℕ) (ps : List Bytes) → IsConnected ctx sd
      → All (IsSmall max_len) ps
      → (w' : W) × (send_packets ctx w ps ≡ ok (ctx, w')) × (outgoing w' ≡ outgoing w ++ frames ps)
  unfolding send_packets
  send_packets-frames sd outgoing writer ctx w max_len [] c small =
      (w, refl, sym (append-nil (outgoing w)))
  send_packets-frames sd outgoing writer ctx w max_len (p ∷ ps) c small =
      let (w1, sent, e1) = network_send_packet-framed sd outgoing writer ctx w p c small.0.1 in
      let (w2, run, e2) = send_packets-frames sd outgoing writer ctx w1 max_len ps c small.1 in
      (
        w2,
        rw (sent, run) refl,
        e2 ∙ ap (λ t. t ++ frames ps) e1 ∙ append_assoc (outgoing w) (framed p) (frames ps),
      )

  recv_packets_run :
      (max_len n len : ℕ) (ctx : NetworkContext) (w w1 w2 : W) (data' p : Bytes) (ps : List Bytes)
      → network_recv_packet s ctx w (replicate max_len 0)
        ≡ ok (record { status = some len; ctx = ctx; data_bytes = data'; after = w1 })
      → take len data' ≡ p
      → recv_packets max_len ctx w1 n ≡ ok (ps, w2)
      → recv_packets max_len ctx w (suc n) ≡ ok (p ∷ ps, w2)
  unfolding recv_packets
  recv_packets_run max_len n len ctx w w1 w2 data' p ps got same run =
      ground (arith, got, same, run)

  recv_packets-frames :
      (sd : ℕ) (incoming : W → Bytes)
      → IsReader s sd incoming
      → (ctx : NetworkContext) (w : W) (max_len : ℕ) (ps : List Bytes) (rest : Bytes)
      → IsConnected ctx sd
      → All (IsSmall max_len) ps
      → incoming w ≡ frames ps ++ rest
      → (w' : W) × (recv_packets max_len ctx w (length ps) ≡ ok (ps, w')) × (incoming w' ≡ rest)
  unfolding recv_packets
  recv_packets-frames sd incoming reader ctx w max_len [] rest c small e = (w, refl, e)
  recv_packets-frames sd incoming reader ctx w max_len (p ∷ ps) rest c small e =
      let buffer : Bytes = replicate max_len 0 in
      let size : length buffer ≡ max_len = length-replicate max_len 0 in
      let (some_byte, short, fits) = small.0 in
      let (w1, got, e1) =
        network_recv_packet-framed sd incoming reader ctx w p (frames ps ++ rest) buffer c
          (e ∙ append_assoc (framed p) (frames ps) rest) some_byte short (omega (arith, size)) in
      let (w2, run, e2) =
        recv_packets-frames sd incoming reader ctx w1 max_len ps rest c small.1 e1 in
      let same = take_received p buffer (omega (arith, size)) in
      (w2, recv_packets_run max_len (length ps) (length p) ctx w w1 w2 _ p ps got same run, e2)

  -- Whatever packets of 1 to 65535 bytes one connected context sends on a stream, as many calls at
  -- the other end into buffers that hold them receive the same packets in the same order, and leave
  -- the stream empty, however write and read cut it.
  pub recv_packets-send_packets :
      (from to : ℕ) (stream : W → Bytes)
      → IsWriter s from stream
      → IsReader s to stream
      → (sender receiver : NetworkContext) (w : W) (max_len : ℕ) (ps : List Bytes)
      → IsConnected sender from
      → IsConnected receiver to
      → All (IsSmall max_len) ps
      → stream w ≡ []
      → (w1 : W) × (w2 : W) × (send_packets sender w ps ≡ ok (sender, w1))
        × (recv_packets max_len receiver w1 (length ps) ≡ ok (ps, w2))
        × (stream w2 ≡ [])
  recv_packets-send_packets from to stream writer reader sender receiver w max_len ps c1 c2 small
        e =
      let (w1, sent, flow) = send_packets-frames from stream writer sender w max_len ps c1 small in
      let (w2, got, left) =
        recv_packets-frames to stream reader receiver w1 max_len ps [] c2 small
          (flow ∙ ap (λ t. t ++ frames ps) e ∙ sym (append-nil (frames ps))) in
      (w1, w2, sent, got, left)
