-- ===== src/Tcp/Queue/Refine.antt =====
-- The linked queue implements a list of packets.
use computer_network.Prelude.{
  ℕ, ◌≡◌, refl, sym, ap, subst, ◌∙◌, Bool, true, false, ◌&&◌, ◌||◌, ◌+◌, ◌-◌, leb, List, [], ◌∷◌,
  ◌++◌, Option, none, some, arith, Bool-cases, inl, inr, take, drop, length, ltb,
}
use computer_network.Prelude.Result.{Result, ok, fault, overlap}
use computer_network.Tcp.Queue.{
  Node, PacketQueue, Heap, Memcpy, moving, undefined, is_moving, store, new_node, without_head,
  Dequeued, blocked, dequeued, mysock_enqueue_buffer, mysock_dequeue_buffer,
}
use computer_network.Tcp.Queue.Chain.{
  IsChain, last_of, IsChain-store, IsChain-fresh, IsChain-append,
}

abbrev pub packets_of : List (ℕ × List ℕ) → List (List ℕ)
packets_of [] = []
packets_of (n ∷ ns) = n.1 ∷ packets_of ns

-- The queue holds these packets, the next to be taken first.
pub record IsQueue (heap : Heap) (pq : PacketQueue) (packets : List (List ℕ)) : Type 0 where
  pub nodes : List (ℕ × List ℕ)
  pub chain : IsChain heap pq.head nodes
  pub end : pq.tail ≡ last_of nodes
  pub same : packets_of nodes ≡ packets

packets_of-append :
    (ns : List (ℕ × List ℕ)) (n : ℕ × List ℕ)
    → packets_of (ns ++ n ∷ []) ≡ packets_of ns ++ n.1 ∷ []
packets_of-append [] n = refl
packets_of-append (x ∷ ns) n = ap (◌∷◌ x.1) (packets_of-append ns n)

last_of-append : (ns : List (ℕ × List ℕ)) (n : ℕ × List ℕ) → last_of (ns ++ n ∷ []) ≡ some n.0
last_of-append [] n = refl
last_of-append (x ∷ []) n = refl
last_of-append (x ∷ y ∷ ns) n = last_of-append (y ∷ ns) n

last_of-some : (x : ℕ × List ℕ) (ns : List (ℕ × List ℕ)) → (l : ℕ) × (last_of (x ∷ ns) ≡ some l)
last_of-some x [] = (x.0, refl)
last_of-some x (y ∷ ns) = last_of-some y ns

mysock_enqueue_buffer_run :
    (node : ℕ) (heap : Heap) (pq : PacketQueue) (packet : List ℕ) (p last : ℕ) (tail : Node)
    → pq.head ≡ some p
    → pq.tail ≡ some last
    → store node (some (new_node packet)) heap last ≡ some tail
    → tail.next ≡ none
    → mysock_enqueue_buffer node heap pq packet
      ≡ ok (
        store last
            (some (record tail { next = some node }))
            (store node (some (new_node packet)) heap),
        record pq { tail = some node },
      )
unfolding mysock_enqueue_buffer
mysock_enqueue_buffer_run node heap pq packet p last tail e1 e2 e3 e4 =
    ground (arith, e1, e2, e3, e4)

enqueue_nodes :
    (node : ℕ) (heap : Heap) (pq : PacketQueue) (packet : List ℕ) (nodes : List (ℕ × List ℕ))
    → IsChain heap pq.head nodes
    → pq.tail ≡ last_of nodes
    → heap node ≡ none
    → (heap' : Heap) × (pq' : PacketQueue) × (mysock_enqueue_buffer node heap pq packet
        ≡ ok (heap', pq'))
      × IsQueue heap' pq' (packets_of nodes ++ packet ∷ [])
unfolding mysock_enqueue_buffer
enqueue_nodes node heap pq packet [] c e fresh = (
  store node (some (new_node packet)) heap,
  record { head = some node; tail = some node },
  rw (c, e) refl,
  record {
    nodes = (node, packet) ∷ [];
    chain = (refl, tt, none, ground arith, refl);
    end = refl;
    same = refl;
  },
)
enqueue_nodes node heap pq packet (x ∷ nodes) c e fresh =
    let (last, at) = last_of-some x nodes in
    let heap1 = store node (some (new_node packet)) heap in
    let differ = IsChain-fresh heap node pq.head (x ∷ nodes) fresh c in
    let chain1 = IsChain-store heap node (some (new_node packet)) pq.head (x ∷ nodes) differ c in
    let (tail, held, none_next, chain2) =
      IsChain-append heap1 pq.head x nodes last node packet chain1 at (ground arith) differ in
    (
      store last (some (record tail { next = some node })) heap1,
      record pq { tail = some node },
      mysock_enqueue_buffer_run node heap pq packet x.0 last tail c.0 (e ∙ at) held none_next,
      record {
        nodes = (x ∷ nodes) ++ (node, packet) ∷ [];
        chain = chain2;
        end = sym (last_of-append (x ∷ nodes) (node, packet));
        same = packets_of-append (x ∷ nodes) (node, packet);
      },
    )

-- What a call on a list of packets gives: the bytes copied and the length returned, and the packets
-- that are left.
unfoldable pub take_packet : ℕ → Bool → List (List ℕ) → Option ((List ℕ × ℕ) × List (List ℕ))
take_packet max_len remove_partial [] = none
take_packet max_len remove_partial (d ∷ ds) = elim (ltb max_len (length d) && remove_partial) [
  | true ↦ some ((take max_len d, max_len), drop max_len d ∷ ds)
  | false ↦ some ((take max_len d, length d), ds)
]

-- The call returns what the list of packets gives, and leaves a queue of what is left.
abbrev pub IsAnswer : Result Dequeued → Option ((List ℕ × ℕ) × List (List ℕ)) → Type 0
IsAnswer call none = call ≡ ok blocked
IsAnswer call (some ((bytes, len), left)) =
    (heap' : Heap) × (pq' : PacketQueue) × (call ≡ ok (dequeued bytes len heap' pq'))
    × IsQueue heap' pq' left

last_of_data :
    (a : ℕ) (d d' : List ℕ) (rest : List (ℕ × List ℕ))
    → last_of ((a, d) ∷ rest) ≡ last_of ((a, d') ∷ rest)
last_of_data a d d' [] = refl
last_of_data a d d' (n ∷ rest) = refl

-- The first node is read.
module _ (heap : Heap) (pq : PacketQueue) (max_len : ℕ) (remove_partial : Bool) (a : ℕ) (d : List ℕ)
    (rest : List (ℕ × List ℕ)) (memcpy : Memcpy) (c : IsChain heap pq.head ((a, d) ∷ rest))
    (e : pq.tail ≡ last_of ((a, d) ∷ rest)) where
  abbrev next : Option ℕ
  next = c.2

  part_taken :
      (ltb max_len (length d) && remove_partial) ≡ true
      → (leb (length d - max_len) max_len || is_moving memcpy) ≡ true
      → IsAnswer
          (mysock_dequeue_buffer memcpy heap pq max_len remove_partial)
          (some ((take max_len d, max_len), drop max_len d ∷ packets_of rest))
  unfolding mysock_dequeue_buffer
  part_taken test apart = (
    store a (some (record { data_bytes = drop max_len d; next = next })) heap,
    pq,
    ground (arith, c.0, c.3, test, apart),
    record {
      nodes = (a, drop max_len d) ∷ rest;
      chain = (
        c.0,
        c.1,
        next,
        ground arith,
        IsChain-store heap a (some (record { data_bytes = drop max_len d; next = next })) next rest
            c.1 c.4,
      );
      end = e ∙ last_of_data a d (drop max_len d) rest;
      same = refl;
    },
  )

  without_head_nodes :
      (pq' : PacketQueue) × (without_head a pq next ≡ ok pq')
      × (pq'.head ≡ next)
      × (pq'.tail ≡ last_of rest)
  without_head_nodes = removed rest c e
    where
      removed :
          (rest : List (ℕ × List ℕ)) (c : IsChain heap pq.head ((a, d) ∷ rest))
          → pq.tail ≡ last_of ((a, d) ∷ rest)
          → (pq' : PacketQueue) × (without_head a pq c.2 ≡ ok pq')
            × (pq'.head ≡ c.2)
            × (pq'.tail ≡ last_of rest)
      removed [] (at, apart, next, here, none_next) e =
          (record { head = none; tail = none }, ground (arith, none_next, e), sym none_next, refl)
      removed (n ∷ rest) (at, apart, next, here, more) e =
          (record pq { head = next }, ground (arith, more.0), refl, e)

  whole_taken :
      (ltb max_len (length d) && remove_partial) ≡ false
      → IsAnswer
          (mysock_dequeue_buffer memcpy heap pq max_len remove_partial)
          (some ((take max_len d, length d), packets_of rest))
  unfolding mysock_dequeue_buffer
  whole_taken test =
      let (pq', done, head, tail) = without_head_nodes in
      (
        store a none heap,
        pq',
        ground (arith, c.0, c.3, test, done),
        record {
          nodes = rest;
          chain = rw head (IsChain-store heap a none next rest c.1 c.4);
          end = tail;
          same = refl;
        },
      )

-- The first packet is cut where more of it is left than is taken, and memcpy does not move bytes
-- between areas that overlap.
unfoldable pub is_torn : Memcpy → ℕ → Bool → List (List ℕ) → Bool
is_torn moving max_len remove_partial packets = false
is_torn undefined max_len remove_partial [] = false
is_torn undefined max_len remove_partial (d ∷ ds) =
    remove_partial && ltb (max_len + max_len) (length d)

-- A call that tears a packet is a fault; every other gives what the list of packets gives.
abbrev pub IsAnswerOrTorn : Bool → Result Dequeued → Option ((List ℕ × ℕ) × List (List ℕ)) → Type 0
IsAnswerOrTorn true call answer = call ≡ fault overlap
IsAnswerOrTorn false call answer = IsAnswer call answer

-- The copy of the rest of the first packet.
copied :
    (memcpy : Memcpy) (max_len : ℕ) (remove_partial : Bool) (d : List ℕ) (ds : List (List ℕ))
    → is_torn memcpy max_len remove_partial (d ∷ ds) ≡ false
    → (ltb max_len (length d) && remove_partial) ≡ true
    → (leb (length d - max_len) max_len || is_moving memcpy) ≡ true
unfolding is_torn
copied moving max_len remove_partial d ds e test = ground arith
copied undefined max_len remove_partial d ds e test = ground (arith, e, test)

dequeue_nodes :
    (memcpy : Memcpy) (heap : Heap) (pq : PacketQueue) (max_len : ℕ) (remove_partial : Bool)
    (nodes : List (ℕ × List ℕ))
    → IsChain heap pq.head nodes
    → pq.tail ≡ last_of nodes
    → is_torn memcpy max_len remove_partial (packets_of nodes) ≡ false
    → IsAnswer
        (mysock_dequeue_buffer memcpy heap pq max_len remove_partial)
        (take_packet max_len remove_partial (packets_of nodes))
unfolding mysock_dequeue_buffer take_packet
dequeue_nodes memcpy heap pq max_len remove_partial [] c e whole = rw c refl
dequeue_nodes memcpy heap pq max_len remove_partial ((a, d) ∷ rest) c e whole =
    let answer = IsAnswer (mysock_dequeue_buffer memcpy heap pq max_len remove_partial) in
    elim (Bool-cases (ltb max_len (length d) && remove_partial)) [
      | inl test ↦
          subst answer {x = some ((take max_len d, max_len), drop max_len d ∷ packets_of rest)}
            (rw (take_packet, test) refl)
            (part_taken heap pq max_len remove_partial a d rest memcpy c e test
              (copied memcpy max_len remove_partial d (packets_of rest) whole test))
      | inr test ↦
          subst answer {x = some ((take max_len d, length d), packets_of rest)}
            (rw (take_packet, test) refl)
            (whole_taken heap pq max_len remove_partial a d rest memcpy c e test)
    ]

torn_nodes :
    (memcpy : Memcpy) (heap : Heap) (pq : PacketQueue) (max_len : ℕ) (remove_partial : Bool)
    (nodes : List (ℕ × List ℕ))
    → IsChain heap pq.head nodes
    → is_torn memcpy max_len remove_partial (packets_of nodes) ≡ true
    → mysock_dequeue_buffer memcpy heap pq max_len remove_partial ≡ fault overlap
unfolding mysock_dequeue_buffer is_torn
torn_nodes moving heap pq max_len remove_partial nodes c torn = absurd (ground (arith, torn))
torn_nodes undefined heap pq max_len remove_partial [] c torn = absurd (ground (arith, torn))
torn_nodes undefined heap pq max_len remove_partial ((a, d) ∷ rest) c torn =
    let part : (ltb max_len (length d) && remove_partial) ≡ true = ground (arith, torn) in
    let over : leb (length d - max_len) max_len ≡ false = ground (arith, torn) in
    ground (arith, c.0, c.3, part, over)

-- A call that does not tear a packet.
pub dequeue_untorn :
    (memcpy : Memcpy) (heap : Heap) (pq : PacketQueue) (max_len : ℕ) (remove_partial : Bool)
    (packets : List (List ℕ))
    → IsQueue heap pq packets
    → is_torn memcpy max_len remove_partial packets ≡ false
    → IsAnswer
        (mysock_dequeue_buffer memcpy heap pq max_len remove_partial)
        (take_packet max_len remove_partial packets)
dequeue_untorn memcpy heap pq max_len remove_partial packets q whole =
    subst
      (λ ps.
        IsAnswer (mysock_dequeue_buffer memcpy heap pq max_len remove_partial)
          (take_packet max_len remove_partial ps))
      q.same
      (dequeue_nodes memcpy heap pq max_len remove_partial q.nodes q.chain q.end
        (ap (is_torn memcpy max_len remove_partial) q.same ∙ whole))

-- A packet that is put into a queue becomes its last one, wherever its new node is allocated.
pub mysock_enqueue_buffer-IsQueue :
    (node : ℕ) (heap : Heap) (pq : PacketQueue) (packet : List ℕ) (packets : List (List ℕ))
    → IsQueue heap pq packets
    → heap node ≡ none
    → (heap' : Heap) × (pq' : PacketQueue) × (mysock_enqueue_buffer node heap pq packet
        ≡ ok (heap', pq'))
      × IsQueue heap' pq' (packets ++ packet ∷ [])
mysock_enqueue_buffer-IsQueue node heap pq packet packets q fresh =
    rw⁻¹ q.same (enqueue_nodes node heap pq packet q.nodes q.chain q.end fresh)

-- A call on a queue waits if it is empty. It takes no more than asked for of the first packet and
-- leaves the rest of it there, if it may, and else takes the whole packet away and returns its
-- length; no assertion fails, and the other packets stay as they are. The one exception is a packet
-- of which more is to be left than is taken: the copy of that rest is a memcpy whose areas overlap,
-- which is a fault, unless memcpy is known to move bytes as memmove does.
pub mysock_dequeue_buffer-IsAnswer :
    (memcpy : Memcpy) (heap : Heap) (pq : PacketQueue) (max_len : ℕ) (remove_partial : Bool)
    (packets : List (List ℕ))
    → IsQueue heap pq packets
    → IsAnswerOrTorn
        (is_torn memcpy max_len remove_partial packets)
        (mysock_dequeue_buffer memcpy heap pq max_len remove_partial)
        (take_packet max_len remove_partial packets)
mysock_dequeue_buffer-IsAnswer memcpy heap pq max_len remove_partial packets q =
    let call = mysock_dequeue_buffer memcpy heap pq max_len remove_partial in
    elim (Bool-cases (is_torn memcpy max_len remove_partial packets)) [
      | inl torn ↦
          subst (λ b. IsAnswerOrTorn b call (take_packet max_len remove_partial packets)) (sym torn)
            (torn_nodes memcpy heap pq max_len remove_partial q.nodes q.chain
              (ap (is_torn memcpy max_len remove_partial) q.same ∙ torn))
      | inr whole ↦
          subst (λ b. IsAnswerOrTorn b call (take_packet max_len remove_partial packets))
            (sym whole) (dequeue_untorn memcpy heap pq max_len remove_partial packets q whole)
    ]
