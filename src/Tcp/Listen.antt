-- ===== src/Tcp/Listen.antt =====
-- The connections of a listening socket that are not accepted yet, from connection_demux.c. Each
-- call is one step, under the locks that it takes. The threads that it starts, the new context and
-- the network layer are left out; the descriptor that _mysock_new_mysocket returns is an argument.
-- All addresses have the length of a sockaddr_in.
pub mod Slots
pub mod Pending
pub mod Backlog
pub mod Reachable
pub mod Contexts
pub mod Unblocked
pub mod Lowered
mod Examples
use computer_network.Prelude.{
  ℕ, zero, suc, ◌+◌, ◌-◌, ◌/◌, ◌%◌, ◌^◌, Bool, true, false, not, ◌&&◌, ◌||◌, List, [], ◌∷◌, ◌++◌,
  map, Option, none, some, length, take, drop, replicate, ltb, ◌==◌, if◌then◌else◌, bytes_eq,
}
use computer_network.Prelude.Result.{Result, ok, fault, guard, ◌>>=◌, ◌>>◌, assertion, dangling}
use computer_network.Prelude.Token.{first_byte}

-- connect_request_t; `sd` is none for -1, in a slot that is free.
pub record ConnectRequest : Type 0 where
  pub peer_addr : List ℕ
  pub sd : Option ℕ
  pub user_data : ℕ

-- INVALIDATE_CONNECT_REQUEST
abbrev pub invalid_request : ConnectRequest
invalid_request = record { peer_addr = replicate 16 0; sd = none; user_data = 0 }

-- listen_queue_t. `connection_queue` are the slots that are allocated, `max_len` of them in use;
-- an entry of `completed_queue` is the index of a slot, none once the slots have been moved.
pub record ListenQueue : Type 0 where
  pub max_len : ℕ
  pub cur_len : ℕ
  pub connection_queue : List ConnectRequest
  pub completed_queue : List (Option ℕ)

abbrev pub set_slot : ℕ → ConnectRequest → List ConnectRequest → List ConnectRequest
set_slot k r [] = []
set_slot zero r (x ∷ xs) = r ∷ xs
set_slot (suc k) r (x ∷ xs) = x ∷ set_slot k r xs

-- The descriptor in a slot.
abbrev pub slot_sd : ℕ → List ConnectRequest → Option ℕ
slot_sd k [] = none
slot_sd zero (x ∷ xs) = x.sd
slot_sd (suc k) (x ∷ xs) = slot_sd k xs

-- The check for a retransmission.
unfoldable pub is_queued : List ℕ → List ConnectRequest → Bool
is_queued peer [] = false
is_queued peer (r ∷ rs) = if bytes_eq r.peer_addr peer then true else is_queued peer rs

-- The first slot without a descriptor.
unfoldable pub free_slot : List ConnectRequest → Option ℕ
free_slot [] = none
free_slot (r ∷ rs) = elim r.sd [
  | none ↦ some 0
  | some sd ↦ elim (free_slot rs) [ none ↦ none | some k ↦ some (suc k) ]
]

-- The slot of a descriptor.
unfoldable pub find_sd : ℕ → List ConnectRequest → Option ℕ
find_sd sd [] = none
find_sd sd (r ∷ rs) =
    let rest : Option ℕ = elim (find_sd sd rs) [ none ↦ none | some k ↦ some (suc k) ] in
    elim r.sd [ none ↦ rest | some other ↦ if other == sd then some 0 else rest ]

abbrev pub slots : ListenQueue → List ConnectRequest
slots q = take q.max_len q.connection_queue

-- TH_SYN in th_flags, the byte 13 of the header.
abbrev pub has_syn : List ℕ → Bool
has_syn packet = first_byte (drop 13 packet) / 2 % 2 == 1

-- _mysock_enqueue_connection
unfoldable pub mysock_enqueue_connection :
    List ℕ → List ℕ → ℕ → Option ℕ → ListenQueue → Result (Bool × ListenQueue)
mysock_enqueue_connection packet peer user_data new_sd q =
    if ltb (length packet) 20 || not (has_syn packet) || is_queued peer (slots q)
    then ok (false, q)
    else if ltb q.cur_len q.max_len
    then elim (free_slot (slots q)) [
      | none ↦ fault assertion
      | some k ↦ elim new_sd [
        | none ↦
            ok
              (false, record q { connection_queue = set_slot k invalid_request q.connection_queue })
        | some sd ↦
            let r : ConnectRequest = record {
              peer_addr = peer;
              sd = some sd;
              user_data = user_data;
            } in
            ok (
              true,
              record q {
                cur_len = q.cur_len + 1;
                connection_queue = set_slot k r q.connection_queue;
              },
            )
      ]
    ]
    else ok (false, q)

-- _mysock_passive_connection_complete
unfoldable pub mysock_passive_connection_complete : ℕ → ListenQueue → Result ListenQueue
mysock_passive_connection_complete sd q = elim (find_sd sd (slots q)) [
  | none ↦ fault assertion
  | some k ↦ ok (record q { completed_queue = q.completed_queue ++ some k ∷ [] })
]

-- What a call of myaccept gets: a descriptor, or none where it waits.
pub data Accepted : Type 0 where
  waiting : Accepted
  accepted : ℕ → ListenQueue → Accepted

-- _mysock_dequeue_connection. The new context, which the descriptor is an index to, is left out with
-- the assertion that there is one.
unfoldable pub mysock_dequeue_connection : ListenQueue → Result Accepted
mysock_dequeue_connection q = elim q.completed_queue [
  | [] ↦ ok waiting
  | r ∷ rs ↦ elim r [
    | none ↦ fault dangling
    | some k ↦ elim (slot_sd k q.connection_queue) [
      | none ↦ fault assertion
      | some sd ↦ do
        guard (ltb 0 q.cur_len) assertion
        ok (
            accepted sd (record q {
              cur_len = q.cur_len - 1;
              connection_queue = set_slot k invalid_request q.connection_queue;
              completed_queue = rs;
            }))
    ]
  ]
]

abbrev pub no_queue : ListenQueue
no_queue = record { max_len = 0; cur_len = 0; connection_queue = []; completed_queue = [] }

abbrev pub move_pointer : Option ℕ → Option ℕ
move_pointer r = none

-- _mysock_set_backlog, on the queue of the socket or the one that it allocates; `moved` is whether
-- realloc moves the slots, to which the entries of the completed queue then no longer point.
unfoldable pub mysock_set_backlog : ℕ → Bool → Option ListenQueue → ListenQueue
mysock_set_backlog backlog moved found =
    let q : ListenQueue = elim found [ none ↦ no_queue | some q ↦ q ] in
    let max_len = (backlog + 1) % 2 ^ 32 in
    if ltb q.max_len max_len
    then record {
      max_len = max_len;
      cur_len = q.cur_len;
      connection_queue = slots q ++ replicate (max_len - q.max_len) invalid_request;
      completed_queue = if moved then map move_pointer q.completed_queue else q.completed_queue;
    }
    else record q { max_len = max_len }

-- The descriptors of the slots.
unfoldable pub pending_sds : List ConnectRequest → List ℕ
pending_sds [] = []
pending_sds (r ∷ rs) = elim r.sd [ none ↦ pending_sds rs | some sd ↦ sd ∷ pending_sds rs ]

-- _mysock_close_passive_socket: the descriptors that it closes, and the queue, which is gone.
unfoldable pub mysock_close_passive_socket : Option ListenQueue → List ℕ × Option ListenQueue
mysock_close_passive_socket none = ([], none)
mysock_close_passive_socket (some q) = (pending_sds (slots q), none)
