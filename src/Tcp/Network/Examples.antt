-- ===== src/Tcp/Network/Examples.antt =====
-- Segments on a stream on which each call moves one byte.
use computer_network.Prelude.{
  ℕ, ◌≡◌, refl, true, false, [], ◌∷◌, ◌++◌, none, some, arith, length, replicate,
}
use computer_network.Prelude.Result.{ok, fault, assertion}
use computer_network.Tcp.Segment.{Bytes}
use computer_network.Tcp.Queue.{Heap, PacketQueue, dequeued}
use computer_network.Tcp.Queue.Refine.{IsQueue}
use computer_network.Tcp.Queue.Stream.{bytes_of}
use computer_network.Tcp.Listen.{no_queue, mysock_enqueue_connection}
use computer_network.Tcp.Wire.{Sockaddr, Sockets, NetDone}
use computer_network.Tcp.Wire.Stream.{IsReader}
use computer_network.Tcp.Wire.Bytewise.{
  byte_sockets, whole, byte_sockets-IsReader, byte_sockets-IsWriter, connected_context,
  connected_context-IsConnected,
}
use computer_network.Tcp.Network.{
  Given, Receiver, recv_round, network_recv_thread_func, stcp_network_send, stcp_network_recv,
}
use computer_network.Tcp.Network.Sealed.{IsAddressed, IsSameSegment}
use computer_network.Tcp.Network.Arrival.{all_ready, network_recv_thread_func-frames}
use computer_network.Tcp.Network.Passed.{stcp_network_recv-stcp_network_send}
use computer_network.Tcp.Network.Dropped.{IsAccepting, recv_round-dropped}

abbrev given_node : ℕ → Given
given_node node = record { node = node; new_sd = none; new_socket = 9 }

abbrev empty_heap : Heap
empty_heap node = none

abbrev receiver : Bytes → Receiver Bytes
receiver world = record {
  net = connected_context 3;
  started = [];
  heap = empty_heap;
  network_recv_queue = record { head = none; tail = none };
  queue = no_queue;
  world = world;
  running = true;
}

empty_heap-IsQueue : IsQueue empty_heap (record { head = none; tail = none }) []
empty_heap-IsQueue = record { nodes = []; chain = refl; end = refl; same = refl }

network_recv_thread_func-frames_example :
    (r' : Receiver Bytes) × (network_recv_thread_func byte_sockets
        (all_ready (given_node 1 ∷ given_node 2 ∷ []))
        (receiver (0 ∷ 1 ∷ 7 ∷ 0 ∷ 2 ∷ 8 ∷ 9 ∷ 0 ∷ []))
      ≡ ok r')
    × IsQueue r'.heap r'.network_recv_queue ((7 ∷ []) ∷ (8 ∷ 9 ∷ []) ∷ [])
    × (r'.running ≡ true)
    × (whole r'.world ≡ 0 ∷ [])
network_recv_thread_func-frames_example =
    network_recv_thread_func-frames byte_sockets 3 whole byte_sockets-IsReader
      (given_node 1 ∷ given_node 2 ∷ []) (receiver (0 ∷ 1 ∷ 7 ∷ 0 ∷ 2 ∷ 8 ∷ 9 ∷ 0 ∷ [])) []
      ((7 ∷ []) ∷ (8 ∷ 9 ∷ []) ∷ []) (0 ∷ []) (connected_context-IsConnected 3) refl
      empty_heap-IsQueue (refl, ((λ k. omega arith), tt), (refl, tt, tt)) refl
      ((omega arith, omega arith, omega arith), ((omega arith, omega arith, omega arith), tt)) refl

connected_context-IsAddressed : (sd : ℕ) → IsAddressed (connected_context sd)
connected_context-IsAddressed sd = record {
  family = refl;
  port = omega arith;
  address = omega arith;
}

stcp_network_recv-stcp_network_send_example :
    (segment : Bytes) × IsSameSegment segment (replicate 20 0 ++ bytes_of ((5 ∷ 6 ∷ []) ∷ []))
    × (done : NetDone Bytes) × (stcp_network_send byte_sockets 2 4096
          (connected_context 4)
          []
          (replicate 20 0)
          ((5 ∷ 6 ∷ []) ∷ [])
        ≡ ok done)
    × (r' : Receiver Bytes) × (recv_round byte_sockets
          (given_node 1)
          (record (receiver []) { world = done.after })
        ≡ ok r')
    × (heap : Heap) × (pq : PacketQueue) × (stcp_network_recv 1 2 r'.heap r'.network_recv_queue 1500
        ≡ ok (dequeued segment (length segment) heap pq))
    × IsQueue heap pq []
    × (whole r'.world ≡ [])
stcp_network_recv-stcp_network_send_example =
    stcp_network_recv-stcp_network_send byte_sockets 4 3 whole byte_sockets-IsWriter
      byte_sockets-IsReader 2 4096 (connected_context 4) [] (replicate 20 0) ((5 ∷ 6 ∷ []) ∷ [])
      (given_node 1) (receiver []) (connected_context-IsConnected 4)
      (connected_context-IsAddressed 4) (omega arith) (omega arith) (omega arith) refl
      (connected_context-IsConnected 3) empty_heap-IsQueue refl

-- A listening socket whose connections come with a packet that is no SYN.
abbrev peer : Sockaddr
peer = record { sa_family = 2; sin_port = 80; sin_addr = 1 }

abbrev accepting_sockets : Sockets Bytes
accepting_sockets = record byte_sockets { accept = λ w sd. (some (3, peer), w) }

accepting_sockets-IsReader : IsReader accepting_sockets 3 whole
accepting_sockets-IsReader = byte_sockets-IsReader

abbrev listener : Receiver Bytes
listener = record (receiver (0 ∷ 1 ∷ 7 ∷ [])) {
  net = record (connected_context 5) { is_active = false; listening = true };
}

listener-IsAccepting : IsAccepting accepting_sockets listener.net 5
listener-IsAccepting = record { here = refl; passive = refl; listens = refl }

recv_round-dropped_example :
    (r' : Receiver Bytes) × (recv_round accepting_sockets (given_node 1) listener ≡ ok r')
    × (r'.net.new_socket ≡ some 3)
    × (recv_round accepting_sockets (given_node 2) (record r' { world = [] }) ≡ fault assertion)
unfolding mysock_enqueue_connection
recv_round-dropped_example =
    recv_round-dropped accepting_sockets 5 3 3 peer peer whole accepting_sockets-IsReader
      (given_node 1) (given_node 2) listener (7 ∷ []) [] (0 ∷ 1 ∷ 7 ∷ []) no_queue
      listener-IsAccepting refl refl refl (omega arith, omega arith, omega arith) refl [] [] refl
