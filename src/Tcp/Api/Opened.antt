-- ===== src/Tcp/Api/Opened.antt =====
-- Mysockets that are open, for tests of the code on them.
use computer_network.Prelude.{
  ◌<◌, refl, true, false, [], ◌∷◌, none, some, arith, length, ◌==◌, if◌then◌else◌,
}
use computer_network.Tcp.Segment.{Bytes}
use computer_network.Tcp.Queue.{Heap}
use computer_network.Tcp.Wire.Bytewise.{connected_context}
use computer_network.Tcp.Api.{Channel, Mysock}
use computer_network.Tcp.Api.Closing.{Holds}
use computer_network.Tcp.Api.Reads.{IsSending}

abbrev pub no_channel : Channel
no_channel = record { heap = λ node. none; pq = record { head = none; tail = none } }

abbrev pub opened_mysock : Mysock
opened_mysock = record {
  net = connected_context 3;
  bound = true;
  my_sd = 0;
  listen_sd = none;
  blocking = false;
  stcp_errno = 0;
  close_requested = false;
  eof = false;
  network_recv_queue = no_channel;
  app_send_queue = no_channel;
  app_recv_queue = no_channel;
}

pub no_channel-Holds : Holds no_channel []
no_channel-Holds = record { nodes = []; chain = refl; end = refl; same = refl }

-- A packet and then the end, in the queue of the application.
abbrev sent_nodes : Bytes → Heap
sent_nodes p node =
    if node == 1
    then some (record { data_bytes = p; next = some 2 })
    else if node == 2
    then some (record { data_bytes = []; next = none })
    else none

abbrev pub sent_mysock : Bytes → Mysock
sent_mysock p = record opened_mysock {
  app_send_queue = record { heap = sent_nodes p; pq = record { head = some 1; tail = some 2 } };
}

pub sent_mysock-IsSending : (p : Bytes) → 0 < length p → IsSending (sent_mysock p) (p ∷ []) []
sent_mysock-IsSending p some_byte = record {
  single = refl;
  unclosed = refl;
  going = refl;
  held = record {
    nodes = (1, p) ∷ (2, []) ∷ [];
    chain = (refl, ((λ k. omega arith), tt), some 2, refl, (refl, tt, none, refl, refl));
    end = refl;
    same = refl;
  };
  full = (some_byte, tt);
}
