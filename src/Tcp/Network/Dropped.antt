-- ===== src/Tcp/Network/Dropped.antt =====
-- Packets that stop the receive thread in an assertion.
use computer_network.Prelude.{
  ℕ, ◌≤◌, ◌<◌, ◌≡◌, refl, ◌∙◌, true, false, ◌++◌, none, some, arith, length, length-replicate, take,
  replicate,
}
use computer_network.Prelude.Result.{ok, fault, assertion}
use computer_network.Tcp.Segment.{Bytes}
use computer_network.Tcp.Listen.{ListenQueue, mysock_enqueue_connection}
use computer_network.Tcp.Wire.{Sockaddr, Sockets, NetworkContext, recv_on, network_recv_packet}
use computer_network.Tcp.Wire.Stream.{IsReader}
use computer_network.Tcp.Wire.Packets.{framed, recv_on-framed}
use computer_network.Tcp.Wire.RoundTrip.{
  IsConnected, IsSmall, network_recv_packet-framed, take_received,
}
use computer_network.Tcp.Network.{
  Given, Receiver, sockaddr_bytes, enqueue_connection, dispatch_packet, recv_round,
}

module _ {W : Type 0} (s : Sockets W) where
  recv_round_long :
      (given : Given) (r : Receiver W) (n : ℕ) (net : NetworkContext) (data' : Bytes) (w : W)
      → network_recv_packet s r.net r.world (replicate 1500 0)
        ≡ ok (record { status = some n; ctx = net; data_bytes = data'; after = w })
      → 1500 < n
      → recv_round s given r ≡ fault assertion
  unfolding recv_round
  recv_round_long given r n net data' w got long = ground (arith, got)

  -- A packet of 1501 to 65535 bytes on the stream of a connected socket stops the receive thread in
  -- an assertion.
  pub recv_round-long_packet :
      (sd : ℕ) (incoming : W → Bytes)
      → IsReader s sd incoming
      → (given : Given) (r : Receiver W) (p rest : Bytes) → IsConnected r.net sd
      → 1500 < length p
      → length p < 65536
      → incoming r.world ≡ framed p ++ rest
      → recv_round s given r ≡ fault assertion
  recv_round-long_packet sd incoming reader given r p rest c long short e =
      let (w, got, flow) =
        network_recv_packet-framed s sd incoming reader r.net r.world p rest (replicate 1500 0) c e
          (omega arith) short (omega (arith, length-replicate {A = ℕ} 1500 0)) in
      recv_round_long given r (length p) r.net _ w got long

  -- A context that listens.
  pub record IsAccepting (ctx : NetworkContext) (sd : ℕ) : Type 0 where
    pub here : ctx.socket ≡ some sd
    pub passive : ctx.is_active ≡ false
    pub listens : ctx.listening ≡ true

  abbrev accepting : NetworkContext → ℕ → Sockaddr → NetworkContext
  accepting ctx new_sd addr = record ctx {
    peer_addr = addr;
    peer_addr_len = 16;
    new_socket = some new_sd;
  }

  network_recv_packet_accepts :
      (ctx : NetworkContext) (sd new_sd : ℕ) (addr : Sockaddr) (w w1 : W) (dst : Bytes)
      → IsAccepting ctx sd
      → ctx.new_socket ≡ none
      → s.accept w sd ≡ (some (new_sd, addr), w1)
      → network_recv_packet s ctx w dst ≡ recv_on s new_sd (accepting ctx new_sd addr) w1 dst
  unfolding network_recv_packet
  network_recv_packet_accepts ctx sd new_sd addr w w1 dst a free taken =
      ground (arith, a.here, a.passive, a.listens, free, taken)

  network_recv_packet_fails :
      (ctx : NetworkContext) (sd new_sd old : ℕ) (addr : Sockaddr) (w w1 : W) (dst : Bytes)
      → IsAccepting ctx sd
      → ctx.new_socket ≡ some old
      → s.accept w sd ≡ (some (new_sd, addr), w1)
      → network_recv_packet s ctx w dst ≡ fault assertion
  unfolding network_recv_packet
  network_recv_packet_fails ctx sd new_sd old addr w w1 dst a held taken =
      ground (arith, a.here, a.passive, a.listens, held, taken)

  recv_round_drops :
      (given : Given) (r : Receiver W) (n : ℕ) (net : NetworkContext) (data' packet : Bytes) (w : W)
      (q : ListenQueue)
      → network_recv_packet s r.net r.world (replicate 1500 0)
        ≡ ok (record { status = some n; ctx = net; data_bytes = data'; after = w })
      → 0 < n
      → n ≤ 1500
      → net.listening ≡ true
      → take n data' ≡ packet
      → mysock_enqueue_connection packet (sockaddr_bytes net.peer_addr) 0 given.new_sd r.queue
        ≡ ok (false, q)
      → recv_round s given r ≡ ok (record r { net = net; world = w; queue = q })
  unfolding recv_round dispatch_packet enqueue_connection
  recv_round_drops given r n net data' packet w q got some_byte fits listens same dropped =
      ground (arith, got, listens, same, dropped)

  recv_round_fails :
      (given : Given) (r : Receiver W)
      → network_recv_packet s r.net r.world (replicate 1500 0) ≡ fault assertion
      → recv_round s given r ≡ fault assertion
  unfolding recv_round
  recv_round_fails given r failed = rw (recv_round, failed) refl

  -- A listening socket holds no accepted one and accepts a connection whose first packet, of 1 to
  -- 1500 bytes, _mysock_enqueue_connection does not queue. The receive thread goes on, but keeps the
  -- accepted socket, and when it accepts another connection, at any later time, an assertion fails.
  pub recv_round-dropped :
      (sd new_sd next_sd : ℕ) (addr next_addr : Sockaddr) (incoming : W → Bytes)
      → IsReader s new_sd incoming
      → (given next : Given) (r : Receiver W) (p rest : Bytes) (w1 : W) (q : ListenQueue)
      → IsAccepting r.net sd
      → r.net.new_socket ≡ none
      → s.accept r.world sd ≡ (some (new_sd, addr), w1)
      → incoming w1 ≡ framed p ++ rest
      → IsSmall 1500 p
      → mysock_enqueue_connection p (sockaddr_bytes addr) 0 given.new_sd r.queue ≡ ok (false, q)
      → (w2 w3 : W) → s.accept w2 sd ≡ (some (next_sd, next_addr), w3)
      → (r' : Receiver W) × (recv_round s given r ≡ ok r')
        × (r'.net.new_socket ≡ some new_sd)
        × (recv_round s next (record r' { world = w2 }) ≡ fault assertion)
  recv_round-dropped sd new_sd next_sd addr next_addr incoming reader given next r p rest w1 q a
        free taken e small dropped w2 w3 more =
      let buffer : Bytes = replicate 1500 0 in
      let size : length buffer ≡ 1500 = length-replicate {A = ℕ} 1500 0 in
      let (some_byte, short, fits) = small in
      let net = accepting r.net new_sd addr in
      let (w, run, flow) =
        recv_on-framed s new_sd incoming reader net w1 p rest buffer e some_byte short
          (omega (arith, size)) in
      let got =
        network_recv_packet_accepts r.net sd new_sd addr r.world w1 buffer a free taken ∙ run in
      let same = take_received p buffer (omega (arith, size)) in
      (
        record r { net = net; world = w; queue = q },
        recv_round_drops given r (length p) net _ p w q got some_byte fits a.listens same dropped,
        refl,
        recv_round_fails next (record r { net = net; world = w2; queue = q })
            (network_recv_packet_fails net sd next_sd new_sd next_addr w2 w3 buffer
              (record { here = a.here; passive = a.passive; listens = a.listens }) refl more),
      )
