-- ===== src/Tcp/Queue/Examples.antt =====
-- A queue of two packets.
use computer_network.Prelude.{ℕ, refl, true, List, [], ◌∷◌, none, some, arith, ◌==◌, if◌then◌else◌}
use computer_network.Tcp.Queue.{PacketQueue, Heap, undefined, mysock_dequeue_buffer}
use computer_network.Tcp.Queue.Refine.{
  IsQueue, IsAnswerOrTorn, is_torn, take_packet, mysock_dequeue_buffer-IsAnswer,
}

abbrev two_nodes : Heap
two_nodes a =
    if a == 7
    then some (record { data_bytes = 1 ∷ 2 ∷ 3 ∷ []; next = some 9 })
    else if a == 9
    then some (record { data_bytes = 4 ∷ []; next = none })
    else none

abbrev two_queue : PacketQueue
two_queue = record { head = some 7; tail = some 9 }

abbrev two_packets : List (List ℕ)
two_packets = (1 ∷ 2 ∷ 3 ∷ []) ∷ (4 ∷ []) ∷ []

two-IsQueue : IsQueue two_nodes two_queue two_packets
two-IsQueue = record {
  nodes = (7, 1 ∷ 2 ∷ 3 ∷ []) ∷ (9, 4 ∷ []) ∷ [];
  chain = (refl, (ground arith, tt), some 9, refl, (refl, tt, none, refl, refl));
  end = refl;
  same = refl;
}

mysock_dequeue_buffer-IsAnswer_example :
    IsAnswerOrTorn
      (is_torn undefined 2 true two_packets)
      (mysock_dequeue_buffer undefined two_nodes two_queue 2 true)
      (take_packet 2 true two_packets)
mysock_dequeue_buffer-IsAnswer_example =
    mysock_dequeue_buffer-IsAnswer undefined two_nodes two_queue 2 true two_packets two-IsQueue
