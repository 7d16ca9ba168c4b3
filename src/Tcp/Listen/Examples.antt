-- ===== src/Tcp/Listen/Examples.antt =====
-- A socket with a backlog of two, and one SYN.
use computer_network.Prelude.{
  ℕ, zero, suc, ◌≡◌, ◌≢◌, ◌≤◌, ◌⊎◌, refl, Bool, true, false, List, [], ◌∷◌, ◌++◌, none, some, arith,
  replicate, bytes_eq,
}
use computer_network.Prelude.Result.{ok, fault, assertion}
use computer_network.Tcp.Listen.{
  invalid_request, slot_sd, ListenQueue, waiting, accepted, is_queued, free_slot, find_sd,
  mysock_enqueue_connection, mysock_passive_connection_complete, mysock_dequeue_connection,
  mysock_set_backlog,
}
use computer_network.Tcp.Listen.Pending.{IsListening}
use computer_network.Tcp.Wire.Bytewise.{connected_context}
use computer_network.Tcp.Api.{Mysock, stcp_unblock_application}
use computer_network.Tcp.Api.Opened.{opened_mysock}
use computer_network.Tcp.Listen.Unblocked.{
  place, IsServed, served_listen, served_syn, served_unblock, IsServed-IsListening,
}
use computer_network.Tcp.Listen.Reachable.{IsReachable, listening, requested, IsReachable-served}
use computer_network.Tcp.Listen.Lowered.{lowered_backlog_fails}

abbrev syn_packet : List ℕ
syn_packet = replicate 13 0 ++ 2 ∷ replicate 6 0

abbrev first_peer : List ℕ
first_peer = replicate 16 1

abbrev one_pending : ListenQueue
one_pending = record {
  max_len = 3;
  cur_len = 1;
  connection_queue =
      record { peer_addr = first_peer; sd = some 4; user_data = 0 }
      ∷ invalid_request
      ∷ invalid_request
      ∷ [];
  completed_queue = [];
}

one_pending-IsReachable : IsReachable one_pending
unfolding mysock_set_backlog mysock_enqueue_connection is_queued free_slot bytes_eq
one_pending-IsReachable =
    requested syn_packet first_peer 0 (some 4) true (mysock_set_backlog 2 false none) one_pending
      (listening 2 false (omega arith)) refl

-- The context of the connection, before and after it is established.
abbrev passive_mysock : Mysock
passive_mysock = record opened_mysock {
  net = record (connected_context 4) { is_active = false };
  my_sd = 4;
  blocking = true;
}

abbrev no_mysocks : ℕ → Mysock
no_mysocks sd = opened_mysock

abbrev one_completed : ListenQueue
one_completed = record one_pending { completed_queue = some 0 ∷ [] }

abbrev completed_mysocks : ℕ → Mysock
completed_mysocks =
    place 4 (record passive_mysock { blocking = false }) (place 4 passive_mysock no_mysocks)

no_slot : (k : ℕ) → slot_sd k (replicate 3 invalid_request) ≢ some 4
no_slot zero e = ground (arith, e)
no_slot (suc zero) e = ground (arith, e)
no_slot (suc (suc zero)) e = ground (arith, e)
no_slot (suc (suc (suc k))) e = ground (arith, e)

one_completed-IsServed : IsServed completed_mysocks one_completed
unfolding mysock_set_backlog mysock_enqueue_connection is_queued free_slot bytes_eq
    stcp_unblock_application mysock_passive_connection_complete find_sd
one_completed-IsServed =
    served_unblock (place 4 passive_mysock no_mysocks) 0 4
      (record passive_mysock { blocking = false }) one_pending one_completed
      (served_syn no_mysocks syn_packet first_peer 0 4 passive_mysock true
        (mysock_set_backlog 2 false none) one_pending
        (served_listen no_mysocks 2 false (omega arith)) no_slot refl)
      refl refl refl

IsServed-IsListening_example : IsListening one_completed
IsServed-IsListening_example =
    IsServed-IsListening completed_mysocks one_completed one_completed-IsServed

IsReachable-served_example :
    ((b : Bool) × (q' : ListenQueue) × (mysock_enqueue_connection syn_packet [] 0 none one_pending
        ≡ ok (b, q')))
    × ((mysock_dequeue_connection one_pending ≡ ok waiting)
        ⊎ ((sd : ℕ) × (q' : ListenQueue) × (mysock_dequeue_connection one_pending
              ≡ ok (accepted sd q'))))
    × (one_pending.cur_len ≤ one_pending.max_len)
IsReachable-served_example =
    IsReachable-served one_pending syn_packet [] 0 none one_pending-IsReachable

-- Two connections, in the first two slots.
abbrev two_pending : ListenQueue
two_pending = record {
  max_len = 3;
  cur_len = 2;
  connection_queue =
      record { peer_addr = first_peer; sd = some 4; user_data = 0 }
      ∷ record { peer_addr = replicate 16 2; sd = some 5; user_data = 0 }
      ∷ invalid_request
      ∷ [];
  completed_queue = [];
}

lowered_backlog_fails_example :
    mysock_passive_connection_complete 5 (mysock_set_backlog 0 false (some two_pending))
    ≡ fault assertion
unfolding find_sd
lowered_backlog_fails_example =
    lowered_backlog_fails two_pending 5 1 0 false refl (omega arith) (omega arith) (omega arith)
