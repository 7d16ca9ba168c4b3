-- ===== src/Tcp/Queue/Freeing.antt =====
-- A queue that is freed.
use computer_network.Prelude.{
  ℕ, zero, suc, ◌≡◌, ◌≢◌, ◌≤◌, refl, sym, ap, ◌∙◌, Bool, true, ◌||◌, List, [], ◌∷◌, Option, none,
  some, arith, All, length, ltb,
}
use computer_network.Prelude.Result.{ok}
use computer_network.Tcp.Queue.{PacketQueue, Heap, store, free_nodes, mysock_free_queue}
use computer_network.Tcp.Queue.Chain.{IsChain, IsChain-store}
use computer_network.Tcp.Queue.Refine.{IsQueue, packets_of}

-- Nothing is allocated at the addresses of some nodes, and the other addresses are as they were.
pub record IsReleased (heap : Heap) (nodes : List (ℕ × List ℕ)) (heap' : Heap) : Type 0 where
  pub gone : All (λ n. heap' n.0 ≡ none) nodes
  pub kept : (b : ℕ) → All (λ n. n.0 ≢ b) nodes → heap' b ≡ heap b

free_nodes_run :
    (fuel : ℕ) (heap : Heap) (p : Option ℕ) (a : ℕ) (d : List ℕ) (next : Option ℕ) (result : Bool)
    → p ≡ some a
    → heap a ≡ some (record { data_bytes = d; next = next })
    → free_nodes (suc fuel) heap p result
      ≡ free_nodes fuel (store a none heap) next (result || ltb 0 (length d))
unfolding free_nodes
free_nodes_run fuel heap p a d next result e1 e2 = ground (arith, e1, e2)

free_nodes-IsReleased :
    (nodes : List (ℕ × List ℕ)) (fuel : ℕ) (heap : Heap) (p : Option ℕ) (result : Bool)
    → IsChain heap p nodes
    → length nodes ≤ fuel
    → result ≡ true
    → (heap' : Heap) × (free_nodes fuel heap p result ≡ ok (true, heap'))
      × IsReleased heap nodes heap'
unfolding free_nodes
free_nodes-IsReleased [] fuel heap p result c le e =
    (heap, rw (c, e) refl, record { gone = tt; kept = λ b w. refl })
free_nodes-IsReleased ((a, d) ∷ rest) zero heap p result c le e = absurd (omega arith)
free_nodes-IsReleased ((a, d) ∷ rest) (suc fuel) heap p result (at, apart, next, here, c) le e =
    let again = result || ltb 0 (length d) in
    let (heap', done, r) =
      free_nodes-IsReleased rest fuel (store a none heap) next again
        (IsChain-store heap a none next rest apart c) (omega arith) (ground (arith, e)) in
    (
      heap',
      free_nodes_run fuel heap p a d next result at here ∙ done,
      record {
        gone = (r.kept a apart ∙ ground arith, r.gone);
        kept = λ b w. r.kept b w.1 ∙ ground (arith, w.0);
      },
    )

free_queue_nodes :
    (fuel : ℕ) (heap : Heap) (pq : PacketQueue) (nodes : List (ℕ × List ℕ))
    → IsChain heap pq.head nodes
    → length nodes ≤ fuel
    → (heap' : Heap) × (mysock_free_queue fuel heap pq
        ≡ ok (ltb 0 (length nodes), heap', record { head = none; tail = none }))
      × IsReleased heap nodes heap'
unfolding mysock_free_queue free_nodes
free_queue_nodes fuel heap pq [] c le = (heap, rw c refl, record { gone = tt; kept = λ b w. refl })
free_queue_nodes fuel heap pq ((a, d) ∷ rest) c le =
    let (heap', done, r) = free_nodes-IsReleased ((a, d) ∷ rest) fuel heap pq.head true c le refl in
    (heap', ground (arith, c.0, done), r)

length-packets_of : (nodes : List (ℕ × List ℕ)) → length (packets_of nodes) ≡ length nodes
length-packets_of [] = refl
length-packets_of (n ∷ ns) = ap suc (length-packets_of ns)

-- A queue of packets that is freed releases the nodes of the queue and no other address, and
-- reports whether there was a packet; as many rounds as packets are enough.
pub mysock_free_queue-IsReleased :
    (fuel : ℕ) (heap : Heap) (pq : PacketQueue) (packets : List (List ℕ))
    (q : IsQueue heap pq packets)
    → length packets ≤ fuel
    → (heap' : Heap) × (mysock_free_queue fuel heap pq
        ≡ ok (ltb 0 (length packets), heap', record { head = none; tail = none }))
      × IsReleased heap q.nodes heap'
mysock_free_queue-IsReleased fuel heap pq packets q le =
    let same : length packets ≡ length q.nodes =
      ap length (sym q.same) ∙ length-packets_of q.nodes in
    let (heap', done, r) = free_queue_nodes fuel heap pq q.nodes q.chain (omega (arith, same)) in
    (heap', done ∙ ap (λ n. ok (ltb 0 n, heap', record { head = none; tail = none })) (sym same), r)
