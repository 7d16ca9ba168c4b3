-- ===== src/Tcp/Api/Closing.antt =====
-- The transport layer hears of myclose when it has taken all that was written.
use mathlib.Core.List.{append_assoc, append-nil}
use computer_network.Prelude.{
  ℕ, ◌<◌, ◌≤◌, ◌≡◌, refl, sym, ap, subst, ◌∙◌, true, false, ◌&&◌, inl, inr, Bool-cases, List, [],
  ◌∷◌, ◌++◌, none, some, arith,
}
use computer_network.Prelude.Result.{ok, fault, overlap}
use computer_network.Tcp.Segment.{Bytes}
use computer_network.Tcp.Queue.{
  Heap, PacketQueue, Memcpy, moving, undefined, is_none, blocked, dequeued, mysock_dequeue_buffer,
  mysock_enqueue_buffer,
}
use computer_network.Tcp.Queue.Chain.{IsChain}
use computer_network.Tcp.Queue.Refine.{
  IsQueue, packets_of, IsAnswer, IsAnswerOrTorn, is_torn, dequeue_untorn, take_packet,
  mysock_enqueue_buffer-IsQueue, mysock_dequeue_buffer-IsAnswer,
}
use computer_network.Tcp.Queue.Stream.{bytes_of, take_packet_part}
use computer_network.Tcp.Api.{
  Channel, Mysock, Returned, returned, put, take_from, find_events, stcp_app_recv, stcp_app_send,
  stcp_fin_received, mywrite, myread, request_close,
}

-- A channel that holds these packets.
abbrev pub Holds : Channel → List Bytes → Type 0
Holds c packets = IsQueue c.heap c.pq packets

-- The calls of the application and the transport layer on a mysocket, in any order: what mywrite
-- has been given, what stcp_app_recv has handed out, and the context.
pub data IsReachable (memcpy : Memcpy) : Bytes → Bytes → Mysock → Type 0 where
  opened :
      (ctx : Mysock)
      → Holds ctx.app_recv_queue []
      → ctx.close_requested ≡ false
      → IsReachable memcpy [] [] ctx
  wrote :
      (written received buf : Bytes) (node n : ℕ) (ctx ctx' : Mysock)
      → IsReachable memcpy written received ctx
      → ctx.app_recv_queue.heap node ≡ none
      → mywrite node (some ctx) buf ≡ ok (returned n, some ctx')
      → IsReachable memcpy (written ++ buf) received ctx'
  taken :
      (written received bytes : Bytes) (max_len len : ℕ) (ctx ctx' : Mysock)
      → IsReachable memcpy written received ctx
      → stcp_app_recv memcpy max_len ctx ≡ ok (some (bytes, len), ctx')
      → IsReachable memcpy written (received ++ bytes) ctx'
  asked :
      (written received : Bytes) (r : Returned) (ctx ctx' : Mysock)
      → IsReachable memcpy written received ctx
      → request_close (some ctx) ≡ (r, some ctx')
      → IsReachable memcpy written received ctx'
  found :
      (written received : Bytes) (flags rc : ℕ) (ctx ctx' : Mysock)
      → IsReachable memcpy written received ctx
      → find_events flags ctx ≡ (rc, ctx')
      → IsReachable memcpy written received ctx'
  sent :
      (written received src : Bytes) (node : ℕ) (ctx ctx' : Mysock)
      → IsReachable memcpy written received ctx
      → stcp_app_send node src ctx ≡ ok ctx'
      → IsReachable memcpy written received ctx'
  ended :
      (written received : Bytes) (node : ℕ) (ctx ctx' : Mysock)
      → IsReachable memcpy written received ctx
      → stcp_fin_received node ctx ≡ ok ctx'
      → IsReachable memcpy written received ctx'
  read :
      (written received bytes : Bytes) (buf_len : ℕ) (r : Returned) (ctx ctx' : Mysock)
      → IsReachable memcpy written received ctx
      → myread memcpy (some ctx) buf_len ≡ ok (r, bytes, some ctx')
      → IsReachable memcpy written received ctx'

-- What was written is what was handed out and what is still in the queue.
pub record IsPassing (written received : Bytes) (c : Channel) : Type 0 where
  pub packets : List Bytes
  pub held : Holds c packets
  pub same : written ≡ received ++ bytes_of packets

find_events_keeps :
    (flags rc : ℕ) (ctx ctx' : Mysock)
    → find_events flags ctx ≡ (rc, ctx')
    → ctx.app_recv_queue ≡ ctx'.app_recv_queue
unfolding find_events
find_events_keeps flags rc ctx ctx' e =
    elim (Bool-cases (ctx.close_requested && is_none ctx.app_recv_queue.pq.head)) [
      | inl closes ↦ ground (arith, e, closes)
      | inr other ↦ ground (arith, e, other)
    ]

stcp_app_send_keeps :
    (node : ℕ) (src : Bytes) (ctx ctx' : Mysock)
    → stcp_app_send node src ctx ≡ ok ctx'
    → ctx.app_recv_queue ≡ ctx'.app_recv_queue
unfolding stcp_app_send
stcp_app_send_keeps node src ctx ctx' e = ground (arith, e)

stcp_fin_received_keeps :
    (node : ℕ) (ctx ctx' : Mysock)
    → stcp_fin_received node ctx ≡ ok ctx'
    → ctx.app_recv_queue ≡ ctx'.app_recv_queue
unfolding stcp_fin_received
stcp_fin_received_keeps node ctx ctx' e = ground (arith, e)

request_close_keeps :
    (r : Returned) (ctx ctx' : Mysock)
    → request_close (some ctx) ≡ (r, some ctx')
    → ctx.app_recv_queue ≡ ctx'.app_recv_queue
unfolding request_close
request_close_keeps r ctx ctx' e = ground (arith, e)

myread_keeps :
    (memcpy : Memcpy) (buf_len : ℕ) (bytes : Bytes) (r : Returned) (ctx ctx' : Mysock)
    → myread memcpy (some ctx) buf_len ≡ ok (r, bytes, some ctx')
    → ctx.app_recv_queue ≡ ctx'.app_recv_queue
unfolding myread
myread_keeps memcpy buf_len bytes r ctx ctx' e = ground (arith, e)

pub bytes_of-append :
    (packets : List Bytes) (buf : Bytes) → bytes_of (packets ++ buf ∷ []) ≡ bytes_of packets ++ buf
bytes_of-append [] buf = append-nil buf
bytes_of-append (d ∷ ds) buf =
    ap (λ t. d ++ t) (bytes_of-append ds buf) ∙ sym (append_assoc d (bytes_of ds) buf)

mywrite_puts :
    (node n : ℕ) (buf : Bytes) (ctx ctx' : Mysock) (heap : Heap) (pq : PacketQueue)
    → mywrite node (some ctx) buf ≡ ok (returned n, some ctx')
    → mysock_enqueue_buffer node ctx.app_recv_queue.heap ctx.app_recv_queue.pq buf ≡ ok (heap, pq)
    → record { heap = heap; pq = pq } ≡ ctx'.app_recv_queue
unfolding mywrite put
mywrite_puts node n buf ctx ctx' heap pq e done = ground (arith, e, done)

stcp_app_recv_takes :
    (memcpy : Memcpy) (max_len len len1 : ℕ) (bytes bytes1 : Bytes) (ctx ctx' : Mysock)
    (heap : Heap) (pq : PacketQueue)
    → stcp_app_recv memcpy max_len ctx ≡ ok (some (bytes, len), ctx')
    → mysock_dequeue_buffer memcpy ctx.app_recv_queue.heap ctx.app_recv_queue.pq max_len true
      ≡ ok (dequeued bytes1 len1 heap pq)
    → (bytes1 ≡ bytes) × (record { heap = heap; pq = pq } ≡ ctx'.app_recv_queue)
unfolding stcp_app_recv take_from
stcp_app_recv_takes memcpy max_len len len1 bytes bytes1 ctx ctx' heap pq e done =
    (ground (arith, e, done), ground (arith, e, done))

stcp_app_recv_waits :
    (memcpy : Memcpy) (max_len len : ℕ) (bytes : Bytes) (ctx ctx' : Mysock)
    → stcp_app_recv memcpy max_len ctx ≡ ok (some (bytes, len), ctx')
    → mysock_dequeue_buffer memcpy ctx.app_recv_queue.heap ctx.app_recv_queue.pq max_len true
      ≡ ok blocked
    → ⊥
unfolding stcp_app_recv take_from
stcp_app_recv_waits memcpy max_len len bytes ctx ctx' e done = ground (arith, e, done)

IsPassing-mywrite :
    (written received buf : Bytes) (node n : ℕ) (ctx ctx' : Mysock)
    → IsPassing written received ctx.app_recv_queue
    → ctx.app_recv_queue.heap node ≡ none
    → mywrite node (some ctx) buf ≡ ok (returned n, some ctx')
    → IsPassing (written ++ buf) received ctx'.app_recv_queue
IsPassing-mywrite written received buf node n ctx ctx' p free e =
    let (heap, pq, done, q) =
      mysock_enqueue_buffer-IsQueue node ctx.app_recv_queue.heap ctx.app_recv_queue.pq buf p.packets
        p.held free in
    let left = mywrite_puts node n buf ctx ctx' heap pq e done in
    record {
      packets = p.packets ++ buf ∷ [];
      held = subst (λ c. Holds c (p.packets ++ buf ∷ [])) left q;
      same =
          ap (λ t. t ++ buf) p.same
          ∙ append_assoc received (bytes_of p.packets) buf
          ∙ ap (λ t. received ++ t) (sym (bytes_of-append p.packets buf));
    }

stcp_app_recv_faults :
    (memcpy : Memcpy) (max_len len : ℕ) (bytes : Bytes) (ctx ctx' : Mysock)
    → stcp_app_recv memcpy max_len ctx ≡ ok (some (bytes, len), ctx')
    → mysock_dequeue_buffer memcpy ctx.app_recv_queue.heap ctx.app_recv_queue.pq max_len true
      ≡ fault overlap
    → ⊥
unfolding stcp_app_recv take_from
stcp_app_recv_faults memcpy max_len len bytes ctx ctx' e done = ground (arith, e, done)

is_torn-empty : (memcpy : Memcpy) (max_len : ℕ) → is_torn memcpy max_len true [] ≡ false
unfolding is_torn
is_torn-empty moving max_len = refl
is_torn-empty undefined max_len = refl

IsPassing-stcp_app_recv :
    (memcpy : Memcpy) (written received bytes : Bytes) (max_len len : ℕ) (ctx ctx' : Mysock)
    (packets : List Bytes)
    → Holds ctx.app_recv_queue packets
    → written ≡ received ++ bytes_of packets
    → stcp_app_recv memcpy max_len ctx ≡ ok (some (bytes, len), ctx')
    → IsPassing written (received ++ bytes) ctx'.app_recv_queue
unfolding take_packet is_torn
IsPassing-stcp_app_recv memcpy written received bytes max_len len ctx ctx' [] q same e = absurd (
    stcp_app_recv_waits memcpy max_len len bytes ctx ctx' e (
      dequeue_untorn memcpy ctx.app_recv_queue.heap ctx.app_recv_queue.pq max_len true [] q
        (is_torn-empty memcpy max_len)))
IsPassing-stcp_app_recv memcpy written received bytes max_len len ctx ctx' (d ∷ ds) q same e =
    let c = ctx.app_recv_queue in
    elim (Bool-cases (is_torn memcpy max_len true (d ∷ ds))) [
      | inl torn ↦ absurd (
          stcp_app_recv_faults memcpy max_len len bytes ctx ctx' e (
            subst
              (λ b.
                IsAnswerOrTorn b (mysock_dequeue_buffer memcpy c.heap c.pq max_len true)
                  (take_packet max_len true (d ∷ ds)))
              torn (mysock_dequeue_buffer-IsAnswer memcpy c.heap c.pq max_len true (d ∷ ds) q)))
      | inr untorn ↦
          let (bytes1, len1, left, cut, flow, exact, bound) = take_packet_part max_len d ds in
          let (heap, pq, done, q') =
            subst (IsAnswer (mysock_dequeue_buffer memcpy c.heap c.pq max_len true)) cut
              (dequeue_untorn memcpy c.heap c.pq max_len true (d ∷ ds) q untorn) in
          let (same_bytes, to) =
            stcp_app_recv_takes memcpy max_len len len1 bytes bytes1 ctx ctx' heap pq e done in
          record {
            packets = left;
            held = subst (λ k. Holds k left) to q';
            same =
                same
                ∙ ap (λ t. received ++ t) (sym flow)
                ∙ ap (λ t. received ++ (t ++ bytes_of left)) same_bytes
                ∙ sym (append_assoc received bytes (bytes_of left));
          }
    ]

IsReachable-IsPassing :
    (memcpy : Memcpy) (written received : Bytes) (ctx : Mysock)
    → IsReachable memcpy written received ctx
    → IsPassing written received ctx.app_recv_queue
IsReachable-IsPassing memcpy _ _ _ (opened ctx q none_asked) = record {
  packets = [];
  held = q;
  same = refl;
}
IsReachable-IsPassing memcpy _ _ _ (wrote written received buf node n ctx ctx' r free e) =
    IsPassing-mywrite written received buf node n ctx ctx'
      (IsReachable-IsPassing memcpy written received ctx r) free e
IsReachable-IsPassing memcpy _ _ _ (taken written received bytes max_len len ctx ctx' r e) =
    let p = IsReachable-IsPassing memcpy written received ctx r in
    IsPassing-stcp_app_recv memcpy written received bytes max_len len ctx ctx' p.packets p.held
      p.same e
IsReachable-IsPassing memcpy _ _ _ (asked written received result ctx ctx' r e) =
    subst (IsPassing written received) (request_close_keeps result ctx ctx' e)
      (IsReachable-IsPassing memcpy written received ctx r)
IsReachable-IsPassing memcpy _ _ _ (found written received flags rc ctx ctx' r e) =
    subst (IsPassing written received) (find_events_keeps flags rc ctx ctx' e)
      (IsReachable-IsPassing memcpy written received ctx r)
IsReachable-IsPassing memcpy _ _ _ (sent written received src node ctx ctx' r e) =
    subst (IsPassing written received) (stcp_app_send_keeps node src ctx ctx' e)
      (IsReachable-IsPassing memcpy written received ctx r)
IsReachable-IsPassing memcpy _ _ _ (ended written received node ctx ctx' r e) =
    subst (IsPassing written received) (stcp_fin_received_keeps node ctx ctx' e)
      (IsReachable-IsPassing memcpy written received ctx r)
IsReachable-IsPassing memcpy _ _ _ (read written received bytes buf_len result ctx ctx' r e) =
    subst (IsPassing written received) (myread_keeps memcpy buf_len bytes result ctx ctx' e)
      (IsReachable-IsPassing memcpy written received ctx r)

find_events_close :
    (flags rc : ℕ) (ctx ctx' : Mysock)
    → find_events flags ctx ≡ (rc, ctx')
    → 4 ≤ rc
    → (ctx.app_recv_queue.pq.head ≡ none)
      × (ctx.close_requested ≡ true)
      × (ctx'.close_requested ≡ false)
unfolding find_events
find_events_close flags rc ctx ctx' e closes =
    elim (Bool-cases (ctx.close_requested && is_none ctx.app_recv_queue.pq.head)) [
      | inl both ↦ (ground (arith, both), ground (arith, both), ground (arith, e, both))
      | inr other ↦ absurd (ground (arith, e, other, closes))
    ]

no_packets :
    (c : Channel) (packets : List Bytes) → c.pq.head ≡ none → Holds c packets → packets ≡ []
no_packets c packets e q = sym q.same ∙ ap packets_of (no_nodes q.nodes q.chain)
  where
    no_nodes : (nodes : List (ℕ × Bytes)) → IsChain c.heap c.pq.head nodes → nodes ≡ []
    no_nodes [] chain = refl
    no_nodes (n ∷ ns) chain = absurd (ground (arith, chain.0, e))

-- Whenever the transport layer is told that the application closes the connection, myclose was
-- called, and the transport layer has been handed all bytes that were written, in order; it is told
-- no more by the call that follows unless myclose is called again.
pub IsReachable-find_events :
    (memcpy : Memcpy) (written received : Bytes) (flags rc : ℕ) (ctx ctx' : Mysock)
    → IsReachable memcpy written received ctx
    → find_events flags ctx ≡ (rc, ctx')
    → 4 ≤ rc
    → (written ≡ received) × (ctx.close_requested ≡ true) × ((find_events flags ctx').0 < 4)
unfolding find_events
IsReachable-find_events memcpy written received flags rc ctx ctx' r e closes =
    let p = IsReachable-IsPassing memcpy written received ctx r in
    let (empty, before, after) = find_events_close flags rc ctx ctx' e closes in
    let none_left = no_packets ctx.app_recv_queue p.packets empty p.held in
    (
      p.same ∙ ap (λ t. received ++ bytes_of t) none_left ∙ append-nil received,
      before,
      ground (arith, after),
    )
