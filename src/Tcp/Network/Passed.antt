-- ===== src/Tcp/Network/Passed.antt =====
-- A segment on its way from the transport layer of one socket to that of another.
use mathlib.Core.List.{append-nil}
use computer_network.Prelude.{
  refl, ℕ, ◌≤◌, ◌<◌, ◌≡◌, sym, ap, subst, ◌∙◌, true, false, List, [], ◌∷◌, ◌++◌, none, some, arith,
  length, take_all,
}
use computer_network.Prelude.Result.{ok}
use computer_network.Tcp.Segment.{Bytes}
use computer_network.Tcp.Checksum.{mysock_verify_checksum}
use computer_network.Tcp.Queue.{Heap, PacketQueue, undefined, dequeued, mysock_dequeue_buffer}
use computer_network.Tcp.Queue.Refine.{IsQueue, IsAnswer, take_packet, is_torn, dequeue_untorn}
use computer_network.Tcp.Queue.Stream.{bytes_of}
use computer_network.Tcp.Wire.{Sockets, NetworkContext, NetDone}
use computer_network.Tcp.Wire.Stream.{IsReader, IsWriter}
use computer_network.Tcp.Wire.Packets.{framed}
use computer_network.Tcp.Wire.RoundTrip.{IsConnected, network_send_packet-framed}
use computer_network.Tcp.Network.{Given, Receiver, recv_round, stcp_network_send, stcp_network_recv}
use computer_network.Tcp.Network.Sealed.{
  IsAddressed, IsSameSegment, stcp_network_send-IsSameSegment,
}
use computer_network.Tcp.Network.Arrival.{recv_round-framed}

take_packet_whole :
    (p : Bytes) (ps : List Bytes) (max_len : ℕ)
    → length p ≤ max_len
    → take_packet max_len false (p ∷ ps) ≡ some ((p, length p), ps)
unfolding take_packet
take_packet_whole p ps max_len h = ground (arith, take_all max_len p h)

stcp_network_recv_run :
    (local_addr peer_addr max_len : ℕ) (heap heap' : Heap) (pq pq' : PacketQueue) (p : Bytes)
    → mysock_dequeue_buffer undefined heap pq max_len false ≡ ok (dequeued p (length p) heap' pq')
    → length p ≤ max_len
    → mysock_verify_checksum local_addr peer_addr p ≡ some true
    → stcp_network_recv local_addr peer_addr heap pq max_len ≡ ok (dequeued p (length p) heap' pq')
unfolding stcp_network_recv
stcp_network_recv_run local_addr peer_addr max_len heap heap' pq pq' p got fits good =
    ground (arith, got, good)

-- The first packet of a queue, if it fits and passes the check, is what stcp_network_recv returns.
stcp_network_recv-IsQueue :
    (local_addr peer_addr max_len : ℕ) (heap : Heap) (pq : PacketQueue) (p : Bytes)
    (ps : List Bytes)
    → IsQueue heap pq (p ∷ ps)
    → length p ≤ max_len
    → mysock_verify_checksum local_addr peer_addr p ≡ some true
    → (heap' : Heap) × (pq' : PacketQueue) × (stcp_network_recv local_addr peer_addr heap pq max_len
        ≡ ok (dequeued p (length p) heap' pq'))
      × IsQueue heap' pq' ps
unfolding is_torn
stcp_network_recv-IsQueue local_addr peer_addr max_len heap pq p ps q fits good =
    let (heap', pq', got, q') =
      subst (IsAnswer (mysock_dequeue_buffer undefined heap pq max_len false))
        (take_packet_whole p ps max_len fits)
        (dequeue_untorn undefined heap pq max_len false (p ∷ ps) q refl) in
    (
      heap',
      pq',
      stcp_network_recv_run local_addr peer_addr max_len heap heap' pq pq' p got fits good,
      q',
    )

module _ {W : Type 0} (s : Sockets W) (from to : ℕ) (stream : W → Bytes)
    (writer : IsWriter s from stream) (reader : IsReader s to stream) where
  -- The buffers of 20 to 1500 bytes together that stcp_network_send sends on a connected socket
  -- arrive at the socket that the stream leads to: a round of its receive thread puts one segment
  -- into its empty queue, and stcp_network_recv into a buffer of 1500 bytes returns it without a
  -- failing assertion. The segment is what the buffers hold but for the ports, the checksum and the
  -- urgent pointer; each socket's peer is the other one, and the stream is empty before and after.
  pub stcp_network_recv-stcp_network_send :
      (local_addr port : ℕ) (ctx : NetworkContext) (w : W) (src : Bytes) (more : List Bytes)
      (given : Given) (r : Receiver W)
      → IsConnected ctx from
      → IsAddressed ctx
      → 0 < local_addr
      → 20 ≤ length (src ++ bytes_of more)
      → length (src ++ bytes_of more) ≤ 1500
      → stream w ≡ []
      → IsConnected r.net to
      → IsQueue r.heap r.network_recv_queue []
      → r.heap given.node ≡ none
      → (segment : Bytes) × IsSameSegment segment (src ++ bytes_of more)
        × (done : NetDone W) × (stcp_network_send s local_addr port ctx w src more ≡ ok done)
        × (r' : Receiver W) × (recv_round s given (record r { world = done.after }) ≡ ok r')
        × (heap : Heap) × (pq : PacketQueue) × (stcp_network_recv ctx.peer_addr.sin_addr local_addr
              r'.heap r'.network_recv_queue 1500
            ≡ ok (dequeued segment (length segment) heap pq))
        × IsQueue heap pq []
        × (stream r'.world ≡ [])
  stcp_network_recv-stcp_network_send local_addr port ctx w src more given r c a known long short e
        c' q free =
      let (segment, same, good, call) =
        stcp_network_send-IsSameSegment s local_addr port ctx w src more long short known a in
      let size = same.size in
      let (w1, sent, flow) =
        network_send_packet-framed s from stream writer ctx w segment c (omega (arith, size)) in
      let (heap, pq, w2, round, put, q1, left) =
        recv_round-framed s to stream reader given (record r { world = w1 }) [] segment [] c' q free
          (omega (arith, size), omega (arith, size), omega (arith, size))
          (flow ∙ ap (λ t. t ++ framed segment) e ∙ sym (append-nil (framed segment))) in
      let (heap', pq', got, q2) =
        stcp_network_recv-IsQueue ctx.peer_addr.sin_addr local_addr 1500 heap pq segment [] q1
          (omega (arith, size)) good in
      (
        segment,
        same,
        record { status = some (length segment); ctx = ctx; data_bytes = segment; after = w1 },
        call ∙ sent,
        record r { world = w2; heap = heap; network_recv_queue = pq },
        round,
        heap',
        pq',
        got,
        q2,
        left,
      )
