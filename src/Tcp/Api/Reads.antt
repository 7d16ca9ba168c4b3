-- ===== src/Tcp/Api/Reads.antt =====
-- What myread gives the application of what the transport layer sends it.
use mathlib.Core.List.{append_assoc}
use computer_network.Prelude.{
  ℕ, ◌<◌, ◌≤◌, ◌≡◌, refl, sym, ap, subst, ◌∙◌, ◌⊎◌, Bool, true, false, inl, inr, Bool-cases, List,
  [], ◌∷◌, ◌++◌, Option, none, some, arith, length, take, drop, length-take, length-drop,
  length-append, take_all, take-append-drop, All, ltb,
}
use computer_network.Prelude.Result.{Result, ok, ◌>>=◌}
use computer_network.Tcp.Segment.{Bytes}
use computer_network.Tcp.Queue.{Heap, PacketQueue, moving, dequeued, mysock_dequeue_buffer}
use computer_network.Tcp.Queue.Refine.{IsQueue, IsAnswer, take_packet, is_torn, dequeue_untorn}
use computer_network.Tcp.Queue.Stream.{bytes_of}
use computer_network.Tcp.Api.{Channel, Mysock, returned, take_from, myread}
use computer_network.Tcp.Api.Closing.{Holds}

-- Calls of myread into buffers of these sizes, one after another, and the bytes that they give.
unfoldable pub reads_of : List ℕ → Mysock → Result (Bytes × Mysock)
reads_of [] ctx = ok ([], ctx)
reads_of (buf_len ∷ more) ctx = do
  got ← myread moving (some ctx) buf_len
  elim got.2 [
    | none ↦ ok ([], ctx)
    | some ctx' ↦ do rest ← reads_of more ctx'; ok (got.1 ++ rest.0, rest.1)
  ]

-- A mysocket on which the application may read: these packets are still to come, none of them
-- empty, then the empty one of stcp_fin_received, then what follows.
pub record IsSending (ctx : Mysock) (packets after : List Bytes) : Type 0 where
  pub single : ctx.net.listening ≡ false
  pub unclosed : ctx.close_requested ≡ false
  pub going : ctx.eof ≡ false
  pub held : Holds ctx.app_send_queue (packets ++ [] ∷ after)
  pub full : All (λ p. 0 < length p) packets

-- A mysocket on which the end has been read.
pub record IsEnded (ctx : Mysock) : Type 0 where
  pub single : ctx.net.listening ≡ false
  pub unclosed : ctx.close_requested ≡ false
  pub over : ctx.eof ≡ true

-- A call that takes these bytes from the queue.
module _ (ctx : Mysock) (buf_len : ℕ) (bytes : Bytes) (heap : Heap) (pq : PacketQueue)
    (single : ctx.net.listening ≡ false) (unclosed : ctx.close_requested ≡ false)
    (going : ctx.eof ≡ false)
    (done : mysock_dequeue_buffer moving ctx.app_send_queue.heap ctx.app_send_queue.pq buf_len true
      ≡ ok (dequeued bytes (length bytes) heap pq)) where
  abbrev read_from : Bool → Mysock
  read_from eof = record ctx { app_send_queue = record { heap = heap; pq = pq }; eof = eof }

  myread_more :
      0 < length bytes
      → myread moving (some ctx) buf_len
        ≡ ok (returned (length bytes), bytes, some (read_from false))
  unfolding myread take_from
  myread_more some_byte = ground (arith, single, unclosed, going, done)

  myread_over :
      length bytes ≡ 0
      → myread moving (some ctx) buf_len ≡ ok (returned 0, bytes, some (read_from true))
  unfolding myread take_from
  myread_over none_left = ground (arith, single, unclosed, going, done)

-- After the end every read returns 0.
myread-IsEnded :
    (ctx : Mysock) (buf_len : ℕ)
    → IsEnded ctx
    → myread moving (some ctx) buf_len ≡ ok (returned 0, [], some ctx)
unfolding myread
myread-IsEnded ctx buf_len s = ground (arith, s.single, s.unclosed, s.over)

-- A packet that is taken whole, or whose first part is taken.
module _ (c : Channel) (buf_len : ℕ) (d : Bytes) (ds : List Bytes) (held : Holds c (d ∷ ds)) where
  abbrev Answer : Option ((Bytes × ℕ) × List Bytes) → Type 0
  Answer = IsAnswer (mysock_dequeue_buffer moving c.heap c.pq buf_len true)

  abbrev Takes : Bytes → List Bytes → Type 0
  Takes bytes left =
      (heap : Heap) × (pq : PacketQueue) × (mysock_dequeue_buffer moving c.heap c.pq buf_len true
        ≡ ok (dequeued bytes (length bytes) heap pq))
      × IsQueue heap pq left

  part_cut : buf_len < length d → Takes (take buf_len d) (drop buf_len d ∷ ds)
  unfolding take_packet is_torn
  part_cut part =
      let size : length (take buf_len d) ≡ buf_len = omega (arith, length-take buf_len d) in
      let (heap, pq, done, q) =
        subst Answer {y = some ((take buf_len d, buf_len), drop buf_len d ∷ ds)} (ground arith)
          (dequeue_untorn moving c.heap c.pq buf_len true (d ∷ ds) held refl) in
      (heap, pq, done ∙ ap (λ n. ok (dequeued (take buf_len d) n heap pq)) (sym size), q)

  whole_cut : length d ≤ buf_len → Takes d ds
  unfolding take_packet is_torn
  whole_cut whole =
      let (heap, pq, done, q) =
        subst Answer {y = some ((take buf_len d, length d), ds)} (ground arith)
          (dequeue_untorn moving c.heap c.pq buf_len true (d ∷ ds) held refl) in
      (heap, pq, done ∙ ap (λ b. ok (dequeued b (length d) heap pq)) (take_all buf_len d whole), q)

-- A read while there are bytes to come gives the first of them, at least one byte.
pub myread-IsSending :
    (ctx : Mysock) (d : Bytes) (ds after : List Bytes) (buf_len : ℕ)
    → IsSending ctx (d ∷ ds) after
    → 0 < buf_len
    → (bytes : Bytes) × (left : List Bytes) × (ctx' : Mysock) × (myread moving (some ctx) buf_len
        ≡ ok (returned (length bytes), bytes, some ctx'))
      × IsSending ctx' left after
      × (0 < length bytes)
      × (length bytes ≤ buf_len)
      × (bytes ++ bytes_of left ≡ bytes_of (d ∷ ds))
myread-IsSending ctx d ds after buf_len s room = elim (Bool-cases (ltb buf_len (length d))) [
  | inl longer ↦
      let (heap, pq, done, q) =
        part_cut ctx.app_send_queue buf_len d (ds ++ [] ∷ after) s.held (ground arith) in
      let front = take buf_len d in
      let some_byte : 0 < length front = ground (arith, length-take buf_len d) in
      (
        front,
        drop buf_len d ∷ ds,
        read_from ctx buf_len front heap pq s.single s.unclosed s.going done false,
        myread_more ctx buf_len front heap pq s.single s.unclosed s.going done some_byte,
        record {
          single = s.single;
          unclosed = s.unclosed;
          going = refl;
          held = q;
          full = (ground (arith, length-drop buf_len d), s.full.1);
        },
        some_byte,
        omega (arith, length-take buf_len d),
        sym (append_assoc front (drop buf_len d) (bytes_of ds))
            ∙ ap (λ t. t ++ bytes_of ds) (sym (take-append-drop buf_len d)),
      )
  | inr whole ↦
      let (heap, pq, done, q) =
        whole_cut ctx.app_send_queue buf_len d (ds ++ [] ∷ after) s.held (ground arith) in
      (
        d,
        ds,
        read_from ctx buf_len d heap pq s.single s.unclosed s.going done false,
        myread_more ctx buf_len d heap pq s.single s.unclosed s.going done s.full.0,
        record {
          single = s.single;
          unclosed = s.unclosed;
          going = refl;
          held = q;
          full = s.full.1;
        },
        s.full.0,
        ground (arith, whole),
        refl,
      )
]

-- The read that finds the end.
myread_end :
    (ctx : Mysock) (after : List Bytes) (buf_len : ℕ)
    → IsSending ctx [] after
    → (ctx' : Mysock) × (myread moving (some ctx) buf_len ≡ ok (returned 0, [], some ctx'))
      × IsEnded ctx'
myread_end ctx after buf_len s =
    let (heap, pq, done, q) = whole_cut ctx.app_send_queue buf_len [] after s.held (omega arith) in
    (
      read_from ctx buf_len [] heap pq s.single s.unclosed s.going done true,
      myread_over ctx buf_len [] heap pq s.single s.unclosed s.going done refl,
      record { single = s.single; unclosed = s.unclosed; over = refl },
    )

reads_of_run :
    (buf_len len : ℕ) (more : List ℕ) (ctx ctx1 ctx' : Mysock) (bytes out : Bytes)
    → myread moving (some ctx) buf_len ≡ ok (returned len, bytes, some ctx1)
    → reads_of more ctx1 ≡ ok (out, ctx')
    → reads_of (buf_len ∷ more) ctx ≡ ok (bytes ++ out, ctx')
unfolding reads_of
reads_of_run buf_len len more ctx ctx1 ctx' bytes out got run = rw (reads_of, got, run) refl

reads_of-IsEnded : (sizes : List ℕ) (ctx : Mysock) → IsEnded ctx → reads_of sizes ctx ≡ ok ([], ctx)
unfolding reads_of
reads_of-IsEnded [] ctx s = refl
reads_of-IsEnded (buf_len ∷ more) ctx s =
    reads_of_run buf_len 0 more ctx ctx ctx [] [] (myread-IsEnded ctx buf_len s)
      (reads_of-IsEnded more ctx s)

-- Reads into buffers of at least one byte, of a mysocket that the transport layer has sent packets
-- to, none of them empty, and then told of the FIN, where memcpy, by which the rest of a packet that
-- is read in part is copied, moves bytes between areas that overlap as memmove does. No assertion
-- fails, and no read waits. What is sent after the FIN is never read. Either
-- each read gave at least one byte, and what they gave, followed by what is left, is what was sent;
-- or they gave exactly what was sent, and every further read returns 0.
pub reads_of-IsSending :
    (sizes : List ℕ) (ctx : Mysock) (packets after : List Bytes) (buf_len : ℕ)
    → All (λ n. 0 < n) sizes
    → IsSending ctx packets after
    → (out : Bytes) × (ctx' : Mysock) × (reads_of sizes ctx ≡ ok (out, ctx'))
      × (((length sizes ≤ length out)
            × (left : List Bytes) × IsSending ctx' left after
            × (out ++ bytes_of left ≡ bytes_of packets))
          ⊎ ((out ≡ bytes_of packets)
              × (myread moving (some ctx') buf_len ≡ ok (returned 0, [], some ctx'))))
unfolding reads_of
reads_of-IsSending [] ctx packets after buf_len room s =
    ([], ctx, refl, inl (omega arith, packets, s, refl))
reads_of-IsSending (n ∷ more) ctx [] after buf_len room s =
    let (ctx1, got, e) = myread_end ctx after n s in
    (
      [],
      ctx1,
      reads_of_run n 0 more ctx ctx1 ctx1 [] [] got (reads_of-IsEnded more ctx1 e),
      inr (refl, myread-IsEnded ctx1 buf_len e),
    )
reads_of-IsSending (n ∷ more) ctx (d ∷ ds) after buf_len room s =
    let (bytes, left, ctx1, got, s1, some_byte, fits, flow) =
      myread-IsSending ctx d ds after n s room.0 in
    let (out, ctx', run, rest) = reads_of-IsSending more ctx1 left after buf_len room.1 s1 in
    (
      bytes ++ out,
      ctx',
      reads_of_run n (length bytes) more ctx ctx1 ctx' bytes out got run,
      elim rest [
        | inl (count, left', s', flow') ↦ inl (
          omega (arith, count, some_byte, length-append bytes out),
          left',
          s',
          append_assoc bytes out (bytes_of left') ∙ ap (λ t. bytes ++ t) flow' ∙ flow,
        )
        | inr (all, over) ↦ inr (ap (λ t. bytes ++ t) all ∙ flow, over)
      ],
    )
