-- ===== src/Tcp/Wire.antt =====
-- network_io_tcp.c: the packets of the transport layer on a TCP stream, each behind its length in
-- two bytes. The calls of the operating system are a record of functions on a state `W` of the
-- world; locks are left out, and memory that is not written yet holds zeros.
pub mod Stream
pub mod Packets
pub mod RoundTrip
pub mod Cut
pub mod Bytewise
mod Examples
use computer_network.Prelude.{
  ℕ, zero, suc, ◌-◌, Bool, true, false, not, ◌&&◌, ◌||◌, List, [], ◌∷◌, ◌++◌, Option, none, some,
  length, take, drop, replicate, min, ltb, leb, ◌==◌, if◌then◌else◌,
}
use computer_network.Prelude.Buffer.{patch, le_bytes, load16}
use computer_network.Prelude.Result.{Result, ok, fault, guard, ◌>>=◌, ◌>>◌, assertion, no_rounds}
use computer_network.Router.Cksum.{htons}
use computer_network.Tcp.Segment.{Bytes}
use computer_network.Tcp.Queue.{is_none}

-- struct sockaddr_in
pub record Sockaddr : Type 0 where
  pub sa_family : ℕ
  pub sin_port : ℕ
  pub sin_addr : ℕ

-- read, write, connect, accept and close; none and false where a call returns -1. `read` gives the
-- bytes that it puts into the buffer.
pub record Sockets (W : Type 0) : Type 0 where
  pub read : W → ℕ → ℕ → Option Bytes × W
  pub write : W → ℕ → Bytes → Option ℕ × W
  pub connect : W → ℕ → Sockaddr → Bool × W
  pub accept : W → ℕ → Option (ℕ × Sockaddr) × W
  pub close : W → ℕ → W

-- network_context_t and network_context_socket_tcp_t, with the two fields of the mysocket's context
-- that they read; none is the descriptor -1.
pub record NetworkContext : Type 0 where
  pub peer_addr : Sockaddr
  pub peer_addr_len : ℕ
  pub peer_addr_valid : Bool
  pub socket : Option ℕ
  pub new_socket : Option ℕ
  pub connected : Bool
  pub is_active : Bool
  pub listening : Bool

-- What an io_func_t returns and leaves in the buffer.
pub record IoDone (W : Type 0) : Type 0 where
  pub rc : Option ℕ
  pub buf : Bytes
  pub world : W

-- What a call on a context returns and leaves.
pub record NetDone (W : Type 0) : Type 0 where
  pub status : Option ℕ
  pub ctx : NetworkContext
  pub data_bytes : Bytes
  pub after : W

-- `rc > 0`
abbrev pub is_positive : Option ℕ → Bool
is_positive none = false
is_positive (some n) = ltb 0 n

-- VERIFY_SOCKET and GET_SOCKET
abbrev pub verify_socket : Option ℕ → Result ℕ
verify_socket none = fault assertion
verify_socket (some sd) = ok sd

module _ {W : Type 0} where
  -- A round of _tcp_io, after the call of io_func, with the rounds that follow.
  unfoldable pub io_round :
      (W → Bytes → Result (IoDone W)) → ℕ → Option ℕ → Bytes → W → Result (IoDone W)
  io_round more bytes_remaining none buf w = ok (record { rc = none; buf = buf; world = w })
  io_round more bytes_remaining (some zero) buf w =
      ok (record { rc = some 0; buf = buf; world = w })
  io_round more bytes_remaining (some (suc n)) buf w = do
    guard (leb (suc n) bytes_remaining) assertion
    rest ← more w (drop (suc n) buf)
    ok (record rest { buf = take (suc n) buf ++ rest.buf })

  -- The loop of _tcp_io on the part of the buffer that is left.
  unfoldable pub tcp_io_loop : (W → Bytes → IoDone W) → ℕ → ℕ → W → Bytes → Result (IoDone W)
  tcp_io_loop io_func count fuel w [] = ok (record { rc = some count; buf = []; world = w })
  tcp_io_loop io_func count zero w (b ∷ bs) = fault no_rounds
  tcp_io_loop io_func count (suc fuel) w (b ∷ bs) =
      let step = io_func w (b ∷ bs) in
      io_round (λ w1 rest. tcp_io_loop io_func count fuel w1 rest) (length (b ∷ bs)) step.rc
        step.buf step.world

  -- _tcp_io; each round but the last moves a byte.
  unfoldable pub tcp_io : (W → Bytes → IoDone W) → W → Bytes → Result (IoDone W)
  tcp_io io_func w buf = tcp_io_loop io_func (length buf) (length buf) w buf

  abbrev pub filled : Bytes → Option Bytes × W → IoDone W
  filled buf (none, w) = record { rc = none; buf = buf; world = w }
  filled buf (some bytes, w) = record {
    rc = some (length bytes);
    buf = patch 0 bytes buf;
    world = w;
  }

  abbrev pub emptied : Bytes → Option ℕ × W → IoDone W
  emptied buf (sent, w) = record { rc = sent; buf = buf; world = w }

  module _ (s : Sockets W) where
    -- `read` and `write` as an io_func_t.
    abbrev pub read_io : ℕ → W → Bytes → IoDone W
    read_io sd w buf = filled buf (s.read w sd (length buf))

    abbrev pub write_io : ℕ → W → Bytes → IoDone W
    write_io sd w buf = emptied buf (s.write w sd buf)

    -- _tcp_connect; AF_INET is 2.
    unfoldable pub tcp_connect : NetworkContext → W → Result (Bool × NetworkContext × W)
    tcp_connect ctx w = elim ctx.connected [
      | true ↦ ok (true, ctx, w)
      | false ↦ do
        guard ctx.peer_addr_valid assertion
        guard (ctx.peer_addr.sa_family == 2) assertion
        guard (ltb 0 ctx.peer_addr.sin_port) assertion
        sd ← verify_socket ctx.socket
        let (good, w') = s.connect w sd ctx.peer_addr in
            if good then ok (true, record ctx { connected = true }, w') else ok (false, ctx, w')
    ]

    -- _network_send_packet, once it is connected.
    unfoldable pub send_on : ℕ → NetworkContext → W → Bytes → Result (NetDone W)
    send_on sd ctx w src = do
      head ← tcp_io (write_io sd) w (le_bytes 2 (htons (length src)))
      elim (is_none head.rc) [
        | true ↦ ok (record { status = none; ctx = ctx; data_bytes = src; after = head.world })
        | false ↦ do
          body ← tcp_io (write_io sd) head.world src
          ok (record {
            status = if is_none body.rc then none else some (length src);
            ctx = ctx;
            data_bytes = src;
            after = body.world;
          })
      ]

    -- _network_send_packet
    unfoldable pub network_send_packet : NetworkContext → W → Bytes → Result (NetDone W)
    network_send_packet ctx w src = do
      guard (ltb 0 ctx.peer_addr_len) assertion
      sd ← verify_socket ctx.socket
      made ← tcp_connect ctx w
      elim made.0 [
        | false ↦ ok (record { status = none; ctx = made.1; data_bytes = src; after = made.2 })
        | true ↦ send_on sd made.1 made.2 src
      ]

    -- The rest of a packet that is longer than the buffer.
    unfoldable pub discard : ℕ → W → ℕ → Result W
    discard sd w count = do dummy ← tcp_io (read_io sd) w (replicate count 0); ok dummy.world

    -- The second half of _network_recv_packet: the packet, whose length is known.
    unfoldable pub recv_body : ℕ → NetworkContext → W → Bytes → ℕ → Result (NetDone W)
    recv_body sd ctx w dst packet_len =
        let room = min packet_len (length dst) in
        do
          body ← tcp_io (read_io sd) w (take room dst)
          let dst' = body.buf ++ drop room dst in
              elim (is_positive body.rc) [
                | false ↦
                    ok (record {
                      status = body.rc;
                      ctx = ctx;
                      data_bytes = dst';
                      after = body.world;
                    })
                | true ↦ do
                  w' ←
                      if ltb (length dst) packet_len
                      then discard sd body.world (packet_len - length dst)
                      else ok body.world
                  ok (record { status = some packet_len; ctx = ctx; data_bytes = dst'; after = w' })
              ]

    -- _network_recv_packet, once the socket to read from is known.
    unfoldable pub recv_on : ℕ → NetworkContext → W → Bytes → Result (NetDone W)
    recv_on sd ctx w dst = do
      head ← tcp_io (read_io sd) w (replicate 2 0)
      elim (is_positive head.rc) [
        | false ↦ ok (record { status = head.rc; ctx = ctx; data_bytes = dst; after = head.world })
        | true ↦ recv_body sd ctx head.world dst (htons (load16 0 head.buf))
      ]

    -- _network_recv_packet
    unfoldable pub network_recv_packet : NetworkContext → W → Bytes → Result (NetDone W)
    network_recv_packet ctx w dst = do
      sd ← verify_socket ctx.socket
      made ← if ctx.is_active then tcp_connect ctx w else ok (true, ctx, w)
      elim made.0 [
        | false ↦ ok (record { status = none; ctx = made.1; data_bytes = dst; after = made.2 })
        | true ↦ elim made.1.listening [
          | false ↦ recv_on sd made.1 made.2 dst
          | true ↦
              let (taken, w') = s.accept made.2 sd in
              let waiting : NetworkContext = record made.1 { peer_addr_len = 16 } in
              elim taken [
                | none ↦ ok (record { status = none; ctx = waiting; data_bytes = dst; after = w' })
                | some (new_sd, addr) ↦ do
                  guard (is_none ctx.new_socket) assertion
                  recv_on new_sd (record waiting { peer_addr = addr; new_socket = some new_sd }) w'
                      dst
              ]
        ]
      ]

    -- _network_update_passive_state: the new context, the listening one and the world.
    unfoldable pub network_update_passive_state :
        NetworkContext → NetworkContext → W → Result (NetworkContext × NetworkContext × W)
    network_update_passive_state new accept w = do
      guard (not new.listening) assertion
      guard (not new.is_active) assertion
      let w' : W = elim new.socket [ none ↦ w | some sd ↦ s.close w sd ] in
          ok (
            record new { socket = accept.new_socket; connected = true },
            record accept { new_socket = none },
            w',
          )

    -- _network_close and _network_close_socket, the exit pipe left out.
    unfoldable pub network_close : NetworkContext → W → W
    network_close ctx w =
        let w' : W = elim ctx.new_socket [ none ↦ w | some sd ↦ s.close w sd ] in
        elim ctx.socket [ none ↦ w' | some sd ↦ s.close w' sd ]
