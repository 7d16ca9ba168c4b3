-- ===== src/Tcp/Network.antt =====
-- The network side of stcp_api.c, and the receive thread of network_io_socket.c, which fills the
-- queue that stcp_network_recv empties. The addresses and the port of a socket, which the operating
-- system tells, are arguments.
pub mod Sealed
pub mod Arrival
pub mod Passed
pub mod Dropped
mod Examples
use computer_network.Prelude.{
  ℕ, ◌+◌, Bool, true, false, not, List, [], ◌∷◌, ◌++◌, Option, none, some, length, take, replicate,
  ltb, leb, ◌==◌, if◌then◌else◌,
}
use computer_network.Prelude.Buffer.{le_bytes, store16}
use computer_network.Prelude.Result.{
  Result, ok, fault, guard, ◌>>=◌, ◌>>◌, assertion, out_of_bounds,
}
use computer_network.Tcp.Segment.{Bytes}
use computer_network.Tcp.Checksum.{mysock_set_checksum, mysock_verify_checksum}
use computer_network.Tcp.Queue.{
  PacketQueue, Heap, undefined, Dequeued, blocked, dequeued, mysock_enqueue_buffer,
  mysock_dequeue_buffer,
}
use computer_network.Tcp.Listen.{ListenQueue, mysock_enqueue_connection}
use computer_network.Tcp.Wire.{
  Sockaddr, Sockets, NetworkContext, NetDone, is_positive, network_send_packet, network_recv_packet,
  network_update_passive_state,
}

-- MAX_IP_PAYLOAD_LEN
abbrev pub max_ip_payload_len : ℕ
max_ip_payload_len = 1500

-- The loop of stcp_network_send over its buffers.
unfoldable pub gather : Bytes → List Bytes → Result Bytes
gather packet [] = ok packet
gather packet (next_buf ∷ more) = do
  guard (leb (length packet + length next_buf) max_ip_payload_len) assertion
  gather (packet ++ next_buf) more

-- th_sport, th_dport, th_sum and th_urp.
unfoldable pub fill_header : ℕ → ℕ → Bytes → Bytes
fill_header sport dport packet =
    store16 18 0 (store16 16 0 (store16 2 dport (store16 0 sport packet)))

-- stcp_network_send
unfoldable pub stcp_network_send :
    {W : Type 0} → Sockets W → ℕ → ℕ → NetworkContext → W → Bytes → List Bytes → Result (NetDone W)
stcp_network_send s local_addr port ctx w src more = do
  guard (leb (length src) max_ip_payload_len) assertion
  packet ← gather src more
  guard (leb 20 (length packet)) assertion
  guard (ctx.peer_addr.sa_family == 2) assertion
  guard (ltb 0 ctx.peer_addr.sin_port) assertion
  elim (mysock_set_checksum local_addr ctx.peer_addr.sin_addr
      (fill_header port ctx.peer_addr.sin_port packet)) [
        | none ↦ fault assertion
        | some sealed ↦ network_send_packet s ctx w sealed
      ]

-- stcp_network_recv; it takes packets whole, so no rest is copied. The checksum is computed over as many bytes as the packet has.
unfoldable pub stcp_network_recv : ℕ → ℕ → Heap → PacketQueue → ℕ → Result Dequeued
stcp_network_recv local_addr peer_addr heap pq max_len = do
  got ← mysock_dequeue_buffer undefined heap pq max_len false
  elim got [
    | blocked ↦ ok blocked
    | dequeued bytes len heap' pq' ↦ do
      guard (leb len max_len) out_of_bounds
      elim (ltb 0 len) [
        | false ↦ ok (dequeued bytes len heap' pq')
        | true ↦ elim (mysock_verify_checksum local_addr peer_addr bytes) [
          | none ↦ fault assertion
          | some good ↦ do guard good assertion; ok (dequeued bytes len heap' pq')
        ]
      ]
  ]

-- What poll returns: whether it was interrupted, or timed out, or the events on the exit pipe and
-- on the socket, and whether one of them is an error.
pub data Polled : Type 0 where
  interrupted timed_out : Polled
  events : (exit_asked packet_ready failed : Bool) → Polled

-- A context that a SYN has made: its descriptor, its network state and the packet in its queue.
pub record Started : Type 0 where
  pub sd : ℕ
  pub net : NetworkContext
  pub syn_packet : Bytes

-- What the receive thread works on; `running` until it ends. `started` is what a listening socket
-- has made.
pub record Receiver (W : Type 0) : Type 0 where
  pub net : NetworkContext
  pub started : List Started
  pub heap : Heap
  pub network_recv_queue : PacketQueue
  pub queue : ListenQueue
  pub world : W
  pub running : Bool

abbrev pub sockaddr_bytes : Sockaddr → Bytes
sockaddr_bytes a =
    le_bytes 2 a.sa_family ++ le_bytes 2 a.sin_port ++ le_bytes 4 a.sin_addr ++ replicate 8 0

-- What calloc, _mysock_new_mysocket and socket return in a round: an address, a descriptor, and
-- the socket of its context.
pub record Given : Type 0 where
  pub node : ℕ
  pub new_sd : Option ℕ
  pub new_socket : ℕ

-- The network state of a new context whose peer is known.
abbrev pub passive_context : ℕ → Sockaddr → NetworkContext
passive_context sd addr = record {
  peer_addr = addr;
  peer_addr_len = 16;
  peer_addr_valid = true;
  socket = some sd;
  new_socket = none;
  connected = false;
  is_active = false;
  listening = false;
}

module _ {W : Type 0} (s : Sockets W) where
  -- The call of _mysock_enqueue_buffer.
  unfoldable pub enqueue_here : ℕ → Receiver W → Bytes → Result (Receiver W)
  enqueue_here node r packet = do
    put ← mysock_enqueue_buffer node r.heap r.network_recv_queue packet
    ok (record r { heap = put.0; network_recv_queue = put.1 })

  -- The call of _mysock_enqueue_connection, with the part of it that passes the accepted socket
  -- and the packet to the new context.
  unfoldable pub enqueue_connection : Given → Receiver W → Bytes → Result (Receiver W)
  enqueue_connection given r packet = do
    put ← mysock_enqueue_connection packet (sockaddr_bytes r.net.peer_addr) 0 given.new_sd r.queue
    elim put.0 [
      | false ↦ ok (record r { queue = put.1 })
      | true ↦ elim given.new_sd [
        | none ↦ fault assertion
        | some sd ↦ do
          updated ←
              network_update_passive_state s (passive_context given.new_socket r.net.peer_addr)
                r.net r.world
          let new : Started = record { sd = sd; net = updated.0; syn_packet = packet } in
              ok (record r {
                net = updated.1;
                started = new ∷ r.started;
                queue = put.1;
                world = updated.2;
              })
      ]
    ]

  -- A packet that has arrived.
  unfoldable pub dispatch_packet : Given → Receiver W → Bytes → Result (Receiver W)
  dispatch_packet given r packet =
      if r.net.listening
      then enqueue_connection given r packet
      else enqueue_here given.node r packet

  -- A round of the receive thread after poll has found the socket ready.
  unfoldable pub recv_round : Given → Receiver W → Result (Receiver W)
  recv_round given r = do
    done ← network_recv_packet s r.net r.world (replicate max_ip_payload_len 0)
    let r1 : Receiver W = record r { net = done.ctx; world = done.after } in
        elim done.status [
          | none ↦ enqueue_here given.node (record r1 { running = false }) []
          | some bytes_read ↦
              if bytes_read == 0
              then enqueue_here given.node (record r1 { running = false }) []
              else (do
                guard (leb bytes_read max_ip_payload_len) assertion
                dispatch_packet given r1 (take bytes_read done.data_bytes))
        ]

  -- network_recv_thread_func, as far as these results of poll take it.
  unfoldable pub network_recv_thread_func : List (Polled × Given) → Receiver W → Result (Receiver W)
  network_recv_thread_func [] r = ok r
  network_recv_thread_func ((interrupted, given) ∷ more) r = network_recv_thread_func more r
  network_recv_thread_func ((timed_out, given) ∷ more) r = fault assertion
  network_recv_thread_func ((events exit_asked packet_ready failed, given) ∷ more) r = do
    guard (not failed) assertion
    elim exit_asked [
      | true ↦ ok (record r { running = false })
      | false ↦ elim packet_ready [
        | false ↦ network_recv_thread_func more r
        | true ↦ do
          r1 ← recv_round given r
          elim r1.running [ true ↦ network_recv_thread_func more r1 | false ↦ ok r1 ]
      ]
    ]
