-- ===== src/Tcp/Api/Examples.antt =====
-- A mysocket with one packet on its way.
use computer_network.Prelude.{
  ◌≡◌, ◌≤◌, ◌<◌, ◌⊎◌, refl, true, false, List, [], ◌∷◌, ◌++◌, some, arith, length,
}
use computer_network.Prelude.Result.{ok}
use computer_network.Tcp.Segment.{Bytes}
use computer_network.Tcp.Queue.Stream.{bytes_of}
use computer_network.Tcp.Listen.{no_queue}
use computer_network.Tcp.Wire.{Sockaddr}
use computer_network.Tcp.Wire.Bytewise.{connected_context}
use computer_network.Tcp.Queue.{moving, undefined}
use computer_network.Tcp.Api.{
  Mysock, returned, failed, econnrefused, find_events, myread, request_close, transport_thread_end,
}
use computer_network.Tcp.Api.Opened.{
  opened_mysock, no_channel-Holds, sent_mysock, sent_mysock-IsSending,
}
use computer_network.Tcp.Api.Closing.{Holds, IsReachable, opened, asked, IsReachable-find_events}
use computer_network.Tcp.Api.Reads.{reads_of, IsSending, reads_of-IsSending}
use computer_network.Tcp.Api.Calls.{mysock_wait_for_connection}
use computer_network.Tcp.Api.Connecting.{mysock_wait_for_connection-transport_thread_end}

abbrev closing_mysock : Mysock
closing_mysock = record opened_mysock { close_requested = true }

closing_mysock-IsReachable : IsReachable undefined [] [] closing_mysock
unfolding request_close
closing_mysock-IsReachable =
    asked [] [] (returned 0) opened_mysock closing_mysock
      (opened opened_mysock no_channel-Holds refl) refl

IsReachable-find_events_example :
    (◌≡◌ {A = Bytes} [] [])
    × (closing_mysock.close_requested ≡ true)
    × ((find_events 7 opened_mysock).0 < 4)
unfolding find_events
IsReachable-find_events_example =
    IsReachable-find_events undefined [] [] 7 4 closing_mysock opened_mysock
      closing_mysock-IsReachable refl (omega arith)

reads_of-IsSending_example :
    (out : Bytes) × (ctx' : Mysock) × (reads_of (1 ∷ 1 ∷ 1 ∷ []) (sent_mysock (7 ∷ 8 ∷ []))
      ≡ ok (out, ctx'))
    × (((3 ≤ length out)
          × (left : List Bytes) × IsSending ctx' left []
          × (out ++ bytes_of left ≡ bytes_of ((7 ∷ 8 ∷ []) ∷ [])))
        ⊎ ((out ≡ bytes_of ((7 ∷ 8 ∷ []) ∷ []))
            × (myread moving (some ctx') 5 ≡ ok (returned 0, [], some ctx'))))
reads_of-IsSending_example =
    reads_of-IsSending (1 ∷ 1 ∷ 1 ∷ []) (sent_mysock (7 ∷ 8 ∷ [])) ((7 ∷ 8 ∷ []) ∷ []) [] 5
      (omega arith, (omega arith, (omega arith, tt)))
      (sent_mysock-IsSending (7 ∷ 8 ∷ []) (omega arith))

abbrev new_mysock : Mysock
new_mysock = record opened_mysock {
  net = record (connected_context 3) { peer_addr_len = 0; connected = false };
  blocking = true;
}

abbrev name : Sockaddr
name = record { sa_family = 2; sin_port = 80; sin_addr = 1 }

-- The transport layer finds that the connection is refused.
abbrev refuse : Mysock → Mysock
refuse ctx = record ctx { blocking = false; stcp_errno = econnrefused }

abbrev refused_mysock : Mysock
refused_mysock = record opened_mysock {
  net = record (connected_context 3) { peer_addr = name; connected = false };
  stcp_errno = econnrefused;
}

mysock_wait_for_connection-transport_thread_end_example :
    (ctx' : Mysock) × (transport_thread_end 1 0 new_mysock no_queue ≡ ok (ctx', no_queue))
    × (mysock_wait_for_connection ctx' ≡ failed econnrefused)
    × Holds ctx'.app_send_queue ([] ∷ [])
mysock_wait_for_connection-transport_thread_end_example =
    mysock_wait_for_connection-transport_thread_end 1 0 new_mysock no_queue [] refl refl
      no_channel-Holds refl
