-- ===== src/Tcp/Queue.antt =====
-- The packet queues of mysock.c, through which the application, the transport layer and the
-- network pass data. A node is what its address holds on the heap; none where nothing is
-- allocated. Each call holds the lock of the queue, so it is one step; malloc and calloc succeed,
-- and the address that calloc returns is an argument.
pub mod Chain
pub mod Refine
pub mod Freeing
pub mod Stream
mod Examples
use computer_network.Prelude.{
  ℕ, zero, suc, ◌+◌, ◌-◌, Bool, true, false, ◌&&◌, ◌||◌, List, [], ◌∷◌, Option, none, some, length,
  take, drop, leb, ltb, ◌==◌, if◌then◌else◌,
}
use computer_network.Prelude.Result.{
  Result, ok, fault, guard, ◌>>=◌, ◌>>◌, assertion, dangling, null_deref, no_rounds, overlap,
}

-- packet_queue_node_t; `data_len` is the length of `data`.
pub record Node : Type 0 where
  pub data_bytes : List ℕ
  pub next : Option ℕ

-- packet_queue_t
pub record PacketQueue : Type 0 where
  pub head : Option ℕ
  pub tail : Option ℕ

abbrev pub Heap : Type 0
Heap = ℕ → Option Node

abbrev pub store : ℕ → Option Node → Heap → Heap
store at node heap a = if a == at then node else heap a

abbrev pub is_none {ℓ} : {A : Type ℓ} → Option A → Bool
is_none none = true
is_none (some a) = false

-- A node that is read.
abbrev pub load : Option ℕ → Heap → Result Node
load none heap = fault null_deref
load (some p) heap = elim (heap p) [ none ↦ fault dangling | some node ↦ ok node ]

abbrev pub new_node : List ℕ → Node
new_node packet = record { data_bytes = packet; next = none }

-- _mysock_enqueue_buffer
unfoldable pub mysock_enqueue_buffer : ℕ → Heap → PacketQueue → List ℕ → Result (Heap × PacketQueue)
mysock_enqueue_buffer node heap pq packet =
    let heap1 = store node (some (new_node packet)) heap in
    elim pq.head [
      | none ↦ do
        guard (is_none pq.tail) assertion
        ok (heap1, record { head = some node; tail = some node })
      | some p ↦ elim pq.tail [
        | none ↦ fault assertion
        | some last ↦ do
          tail ← load (some last) heap1
          guard (is_none tail.next) assertion
          ok (
            store last (some (record tail { next = some node })) heap1,
            record pq { tail = some node },
          )
      ]
    ]

-- What a call of dequeue gives back: the bytes that it copies, the length that it returns, and
-- what it leaves. `blocked` where the call waits for a packet.
pub data Dequeued : Type 0 where
  blocked : Dequeued
  dequeued : List ℕ → ℕ → Heap → PacketQueue → Dequeued

abbrev pub without_head : ℕ → PacketQueue → Option ℕ → Result PacketQueue
without_head node pq none = elim pq.tail [
  | none ↦ fault assertion
  | some last ↦ if last == node then ok (record { head = none; tail = none }) else fault assertion
]
without_head node pq (some next) = ok (record pq { head = some next })

-- What memcpy does where its two areas overlap, which the C library leaves undefined: it moves the
-- bytes as memmove does, or it does anything, a fault.
pub data Memcpy : Type 0 where
  moving undefined : Memcpy

abbrev pub is_moving : Memcpy → Bool
is_moving moving = true
is_moving undefined = false

-- _mysock_dequeue_buffer. The areas of the copy inside the node overlap where more is left than was
-- removed.
unfoldable pub mysock_dequeue_buffer : Memcpy → Heap → PacketQueue → ℕ → Bool → Result Dequeued
mysock_dequeue_buffer memcpy heap pq max_len remove_partial = elim pq.head [
  | none ↦ ok blocked
  | some p ↦ do
    node ← load (some p) heap
    elim (ltb max_len (length node.data_bytes) && remove_partial) [
      | true ↦ do
        guard (leb (length node.data_bytes - max_len) max_len || is_moving memcpy) overlap
        ok (
            dequeued (take max_len node.data_bytes) max_len
              (store p (some (record node { data_bytes = drop max_len node.data_bytes })) heap) pq)
      | false ↦ do
        pq' ← without_head p pq node.next
        ok (
            dequeued (take max_len node.data_bytes) (length node.data_bytes) (store p none heap)
              pq')
    ]
]

-- The loop of _mysock_free_queue.
unfoldable pub free_nodes : ℕ → Heap → Option ℕ → Bool → Result (Bool × Heap)
free_nodes fuel heap none result = ok (result, heap)
free_nodes zero heap (some p) result = fault no_rounds
free_nodes (suc fuel) heap (some p) result = do
  node ← load (some p) heap
  free_nodes fuel (store p none heap) node.next (result || ltb 0 (length node.data_bytes))

-- _mysock_free_queue
unfoldable pub mysock_free_queue : ℕ → Heap → PacketQueue → Result (Bool × Heap × PacketQueue)
mysock_free_queue fuel heap pq = do
  freed ← free_nodes fuel heap pq.head (if is_none pq.head then false else true)
  ok (freed.0, freed.1, record { head = none; tail = none })
