-- ===== src/Tcp/Queue/Stream.antt =====
-- A queue that is read by calls that may take a part of a packet, where memcpy moves bytes as memmove
-- does.
use mathlib.Core.List.{append_assoc}
use computer_network.Prelude.{
  ℕ, ◌≡◌, ◌≤◌, refl, sym, ap, subst, ◌∙◌, true, List, [], ◌∷◌, ◌++◌, some, arith, Bool-cases, inl,
  inr, take, drop, length, length-take, take_all, take-append-drop, ltb,
}
use computer_network.Prelude.Result.{Result, ok, ◌>>=◌}
use computer_network.Tcp.Queue.{PacketQueue, Heap, moving, blocked, dequeued, mysock_dequeue_buffer}
use computer_network.Tcp.Queue.Refine.{IsQueue, IsAnswer, take_packet, is_torn, dequeue_untorn}

abbrev pub bytes_of : List (List ℕ) → List ℕ
bytes_of [] = []
bytes_of (d ∷ ds) = d ++ bytes_of ds

-- Calls of _mysock_dequeue_buffer with these room sizes, up to one that would wait.
unfoldable pub reads : List ℕ → Heap → PacketQueue → Result (List ℕ × Heap × PacketQueue)
reads [] heap pq = ok ([], heap, pq)
reads (max_len ∷ more) heap pq = do
  answer ← mysock_dequeue_buffer moving heap pq max_len true
  elim answer [
    | blocked ↦ ok ([], heap, pq)
    | dequeued bytes len heap1 pq1 ↦ do
      rest ← reads more heap1 pq1
      ok (bytes ++ rest.0, rest.1, rest.2)
  ]

-- The bytes taken from the first packet, and what is left.
pub take_packet_part :
    (max_len : ℕ) (d : List ℕ) (ds : List (List ℕ))
    → (bytes : List ℕ) × (len : ℕ) × (left : List (List ℕ)) × (take_packet max_len true (d ∷ ds)
        ≡ some ((bytes, len), left))
      × (bytes ++ bytes_of left ≡ bytes_of (d ∷ ds))
      × (length bytes ≡ len)
      × (len ≤ max_len)
unfolding take_packet
take_packet_part max_len d ds = elim (Bool-cases (ltb max_len (length d))) [
  | inl more ↦ (
    take max_len d,
    max_len,
    drop max_len d ∷ ds,
    ground (arith, more),
    sym (append_assoc (take max_len d) (drop max_len d) (bytes_of ds))
        ∙ ap (λ t. t ++ bytes_of ds) (sym (take-append-drop max_len d)),
    ground (arith, length-take max_len d),
    omega arith,
  )
  | inr all ↦ (
    take max_len d,
    length d,
    ds,
    ground (arith, all),
    ap (λ t. t ++ bytes_of ds) (take_all max_len d (ground arith)),
    ap length (take_all max_len d (ground arith)),
    ground arith,
  )
]

reads_run :
    (max_len : ℕ) (more : List ℕ) (heap heap1 heap' : Heap) (pq pq1 pq' : PacketQueue)
    (bytes out : List ℕ) (len : ℕ)
    → mysock_dequeue_buffer moving heap pq max_len true ≡ ok (dequeued bytes len heap1 pq1)
    → reads more heap1 pq1 ≡ ok (out, heap', pq')
    → reads (max_len ∷ more) heap pq ≡ ok (bytes ++ out, heap', pq')
unfolding reads
reads_run max_len more heap heap1 heap' pq pq1 pq' bytes out len done run = rw (done, run) refl

-- The bytes that reads hand out, followed by those that are still in the queue, are the bytes of
-- the packets that were in it: none is lost, repeated or moved, however much each read asks for.
pub reads-stream :
    (sizes : List ℕ) (heap : Heap) (pq : PacketQueue) (packets : List (List ℕ))
    → IsQueue heap pq packets
    → (out : List ℕ) × (heap' : Heap) × (pq' : PacketQueue) × (left : List (List ℕ)) × (reads sizes
          heap pq
        ≡ ok (out, heap', pq'))
      × IsQueue heap' pq' left
      × (out ++ bytes_of left ≡ bytes_of packets)
unfolding reads take_packet is_torn
reads-stream [] heap pq packets q = ([], heap, pq, packets, refl, q, refl)
reads-stream (max_len ∷ more) heap pq [] q =
    let waits : mysock_dequeue_buffer moving heap pq max_len true ≡ ok blocked =
      dequeue_untorn moving heap pq max_len true [] q refl in
    ([], heap, pq, [], rw waits refl, q, refl)
reads-stream (max_len ∷ more) heap pq (d ∷ ds) q =
    let (bytes, len, left, taken, same, exact, bound) = take_packet_part max_len d ds in
    let (heap1, pq1, done, q1) =
      subst (IsAnswer (mysock_dequeue_buffer moving heap pq max_len true)) taken
        (dequeue_untorn moving heap pq max_len true (d ∷ ds) q refl) in
    let (out, heap', pq', left', run, q', rest) = reads-stream more heap1 pq1 left q1 in
    (
      bytes ++ out,
      heap',
      pq',
      left',
      reads_run max_len more heap heap1 heap' pq pq1 pq' bytes out len done run,
      q',
      append_assoc bytes out (bytes_of left') ∙ ap (λ t. bytes ++ t) rest ∙ same,
    )
