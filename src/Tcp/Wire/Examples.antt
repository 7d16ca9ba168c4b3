-- ===== src/Tcp/Wire/Examples.antt =====
-- Packets on a stream on which each call moves one byte.
use computer_network.Prelude.{◌≡◌, refl, [], ◌∷◌, arith}
use computer_network.Prelude.Result.{ok}
use computer_network.Tcp.Segment.{Bytes}
use computer_network.Tcp.Wire.RoundTrip.{send_packets, recv_packets, recv_packets-send_packets}
use computer_network.Tcp.Wire.Bytewise.{
  byte_sockets, whole, byte_sockets-IsReader, byte_sockets-IsWriter, connected_context,
  connected_context-IsConnected,
}

recv_packets-send_packets_example :
    (w1 : Bytes) × (w2 : Bytes) × (send_packets byte_sockets
        (connected_context 4)
        []
        ((7 ∷ []) ∷ (8 ∷ 9 ∷ []) ∷ [])
      ≡ ok (connected_context 4, w1))
    × (recv_packets byte_sockets 1500 (connected_context 3) w1 2
        ≡ ok ((7 ∷ []) ∷ (8 ∷ 9 ∷ []) ∷ [], w2))
    × (whole w2 ≡ [])
recv_packets-send_packets_example =
    recv_packets-send_packets byte_sockets 4 3 whole byte_sockets-IsWriter byte_sockets-IsReader
      (connected_context 4) (connected_context 3) [] 1500 ((7 ∷ []) ∷ (8 ∷ 9 ∷ []) ∷ [])
      (connected_context-IsConnected 4) (connected_context-IsConnected 3)
      ((omega arith, omega arith, omega arith), ((omega arith, omega arith, omega arith), tt)) refl
