-- ===== src/Tcp/Network/Arrival.antt =====
-- The receive thread puts what arrives into the queue.
use mathlib.Core.List.{append_assoc, append-nil}
use computer_network.Prelude.{
  ℕ, ◌≤◌, ◌<◌, ◌≡◌, ◌≢◌, refl, sym, subst, ◌∙◌, inl, inr, Option-cases, true, false, List, [], ◌∷◌,
  ◌++◌, map, none, some, arith, length, length-replicate, take, replicate, All,
}
use computer_network.Prelude.Result.{ok}
use computer_network.Tcp.Segment.{Bytes}
use computer_network.Tcp.Queue.{Heap, PacketQueue, mysock_enqueue_buffer}
use computer_network.Tcp.Queue.Refine.{IsQueue, mysock_enqueue_buffer-IsQueue}
use computer_network.Tcp.Wire.{Sockets, NetworkContext, network_recv_packet}
use computer_network.Tcp.Wire.Stream.{IsReader}
use computer_network.Tcp.Wire.Packets.{framed}
use computer_network.Tcp.Wire.RoundTrip.{
  IsConnected, IsSmall, frames, network_recv_packet-framed, take_received,
}
use computer_network.Tcp.Network.{
  Polled, events, Given, Receiver, enqueue_here, dispatch_packet, recv_round,
  network_recv_thread_func,
}

-- An address that is free stays free, unless it is the new node's.
pub mysock_enqueue_buffer-none :
    (node : ℕ) (heap heap' : Heap) (pq pq' : PacketQueue) (packet : Bytes) (a : ℕ)
    → mysock_enqueue_buffer node heap pq packet ≡ ok (heap', pq')
    → heap a ≡ none
    → a ≢ node
    → heap' a ≡ none
unfolding mysock_enqueue_buffer
mysock_enqueue_buffer-none node heap heap' pq pq' packet a e free other =
    elim (Option-cases pq.head) [
      | inl empty ↦ ground (arith, e, free, other, empty)
      | inr (p, first) ↦ elim (Option-cases pq.tail) [
        | inl no_tail ↦ absurd (ground (arith, e, first, no_tail))
        | inr (last, at) ↦ ground (arith, e, free, other, first, at)
      ]
    ]

-- Free addresses, all different.
abbrev pub AreFree : Heap → List Given → Type 0
AreFree heap [] = Unit
AreFree heap (g ∷ gs) =
    (heap g.node ≡ none) × All (λ other. other.node ≢ g.node) gs × AreFree heap gs

AreFree-mysock_enqueue_buffer :
    (node : ℕ) (heap heap' : Heap) (pq pq' : PacketQueue) (packet : Bytes) (gs : List Given)
    → mysock_enqueue_buffer node heap pq packet ≡ ok (heap', pq')
    → All (λ other. other.node ≢ node) gs
    → AreFree heap gs
    → AreFree heap' gs
AreFree-mysock_enqueue_buffer node heap heap' pq pq' packet [] e apart free = tt
AreFree-mysock_enqueue_buffer node heap heap' pq pq' packet (g ∷ gs) e apart free = (
  mysock_enqueue_buffer-none node heap heap' pq pq' packet g.node e free.0 apart.0,
  free.1,
  AreFree-mysock_enqueue_buffer node heap heap' pq pq' packet gs e apart.1 free.2,
)

-- poll finds the socket ready, each time.
abbrev pub all_ready : List Given → List (Polled × Given)
all_ready gs = map (λ g. (events false true false, g)) gs

module _ {W : Type 0} (s : Sockets W) where
  recv_round_run :
      (given : Given) (r : Receiver W) (n : ℕ) (net : NetworkContext) (data' packet : Bytes) (w : W)
      (heap : Heap) (pq : PacketQueue)
      → network_recv_packet s r.net r.world (replicate 1500 0)
        ≡ ok (record { status = some n; ctx = net; data_bytes = data'; after = w })
      → 0 < n
      → n ≤ 1500
      → net.listening ≡ false
      → take n data' ≡ packet
      → mysock_enqueue_buffer given.node r.heap r.network_recv_queue packet ≡ ok (heap, pq)
      → recv_round s given r
        ≡ ok (record r { net = net; world = w; heap = heap; network_recv_queue = pq })
  unfolding recv_round dispatch_packet enqueue_here
  recv_round_run given r n net data' packet w heap pq got some_byte fits single same put =
      ground (arith, got, single, same, put)

  thread_run :
      (given : Given) (more : List (Polled × Given)) (r r1 : Receiver W)
      → recv_round s given r ≡ ok r1
      → r1.running ≡ true
      → network_recv_thread_func s ((events false true false, given) ∷ more) r
        ≡ network_recv_thread_func s more r1
  unfolding network_recv_thread_func
  thread_run given more r r1 round on = ground (arith, round, on)

  -- A packet of 1 to 1500 bytes that is next on the stream of a connected socket goes to the end of
  -- its queue, and the thread reads no further.
  pub recv_round-framed :
      (sd : ℕ) (incoming : W → Bytes)
      → IsReader s sd incoming
      → (given : Given) (r : Receiver W) (packets : List Bytes) (p rest : Bytes)
      → IsConnected r.net sd
      → IsQueue r.heap r.network_recv_queue packets
      → r.heap given.node ≡ none
      → IsSmall 1500 p
      → incoming r.world ≡ framed p ++ rest
      → (heap : Heap) × (pq : PacketQueue) × (w : W) × (recv_round s given r
          ≡ ok (record r { world = w; heap = heap; network_recv_queue = pq }))
        × (mysock_enqueue_buffer given.node r.heap r.network_recv_queue p ≡ ok (heap, pq))
        × IsQueue heap pq (packets ++ p ∷ [])
        × (incoming w ≡ rest)
  recv_round-framed sd incoming reader given r packets p rest c q free small e =
      let buffer : Bytes = replicate 1500 0 in
      let size : length buffer ≡ 1500 = length-replicate {A = ℕ} 1500 0 in
      let (some_byte, short, fits) = small in
      let (w, got, flow) =
        network_recv_packet-framed s sd incoming reader r.net r.world p rest buffer c e some_byte
          short (omega (arith, size)) in
      let (heap, pq, put, q') =
        mysock_enqueue_buffer-IsQueue given.node r.heap r.network_recv_queue p packets q free in
      let same = take_received p buffer (omega (arith, size)) in
      (
        heap,
        pq,
        w,
        recv_round_run given r (length p) r.net _ p w heap pq got some_byte fits c.single same put,
        put,
        q',
        flow,
      )

  -- The receive thread of a connected socket that runs, with packets of 1 to 1500 bytes on the
  -- stream and as many results of poll that find it ready, puts these packets behind those that are
  -- in its queue, in order, and goes on, however many bytes each call of read moves.
  pub network_recv_thread_func-frames :
      (sd : ℕ) (incoming : W → Bytes)
      → IsReader s sd incoming
      → (gs : List Given) (r : Receiver W) (packets ps : List Bytes) (rest : Bytes)
      → IsConnected r.net sd
      → r.running ≡ true
      → IsQueue r.heap r.network_recv_queue packets
      → AreFree r.heap gs
      → length gs ≡ length ps
      → All (IsSmall 1500) ps
      → incoming r.world ≡ frames ps ++ rest
      → (r' : Receiver W) × (network_recv_thread_func s (all_ready gs) r ≡ ok r')
        × IsQueue r'.heap r'.network_recv_queue (packets ++ ps)
        × (r'.running ≡ true)
        × (incoming r'.world ≡ rest)
  unfolding network_recv_thread_func
  network_recv_thread_func-frames sd incoming reader [] r packets [] rest c on q free l small e =
      (r, refl, subst (IsQueue r.heap r.network_recv_queue) (sym (append-nil packets)) q, on, e)
  network_recv_thread_func-frames sd incoming reader [] r packets (p ∷ ps) rest c on q free l small
        e =
      absurd (omega arith)
  network_recv_thread_func-frames sd incoming reader (g ∷ gs) r packets [] rest c on q free l small
        e =
      absurd (omega arith)
  network_recv_thread_func-frames sd incoming reader (g ∷ gs) r packets (p ∷ ps) rest c on q free l
        small e =
      let (heap, pq, w, round, put, q1, flow) =
        recv_round-framed sd incoming reader g r packets p (frames ps ++ rest) c q free.0 small.0
          (e ∙ append_assoc (framed p) (frames ps) rest) in
      let r1 : Receiver W = record r { world = w; heap = heap; network_recv_queue = pq } in
      let free1 =
        AreFree-mysock_enqueue_buffer g.node r.heap heap r.network_recv_queue pq p gs put free.1
          free.2 in
      let (r', run, q', on', left) =
        network_recv_thread_func-frames sd incoming reader gs r1 (packets ++ p ∷ []) ps rest c on q1
          free1 (omega arith) small.1 flow in
      (
        r',
        thread_run g (all_ready gs) r r1 round on ∙ run,
        subst (IsQueue r'.heap r'.network_recv_queue) (append_assoc packets (p ∷ []) ps) q',
        on',
        left,
      )
