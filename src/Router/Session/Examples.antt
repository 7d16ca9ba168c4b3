-- ===== src/Router/Session/Examples.antt =====
-- A server whose bytes come one by one.
use computer_network.Prelude.{
  ℕ, zero, suc, ◌≡◌, ◌≢◌, ◌≤◌, ◌↔◌, refl, inl, true, [], ◌∷◌, ◌++◌, none, some, arith, replicate,
  bytes_eq,
}
use computer_network.Prelude.Buffer.{load32, le_value, slice}
use computer_network.Prelude.Result.{fault, no_rounds}
use computer_network.Router.Instance.{Bytes, Interface, Instance}
use computer_network.Router.Interfaces.{sr_get_interface, sr_add_interface, find_name}
use computer_network.Router.Routes.{match_loop, longest_match}
use computer_network.Router.Hardware.{handle_hw_entry, sr_handle_hwinfo}
use computer_network.Router.Session.{
  Recv, received, Server, Session, go_on, sr_verify_routing_table, handle_message, handle_command,
  handle_hwinfo, hw_entries, count_missing, sr_read_from_server_expect, main_loop,
}
use computer_network.Router.Session.Reading.{
  IsReceiver, IsMessage, sr_read_from_server_expect-handle_message,
}
use computer_network.Router.Session.Checked.{
  HasInterfaces, sr_verify_routing_table_iff, longest_match-handle_message,
}
use computer_network.Router.Session.Ended.{IsOver, main_loop-no_rounds}
use computer_network.Tcp.Segment.{htonl}

abbrev recv_byte : Bytes → ℕ → Recv × Bytes
recv_byte [] n = (received [], [])
recv_byte (b ∷ bs) zero = (received [], b ∷ bs)
recv_byte (b ∷ bs) (suc n) = (received (b ∷ []), bs)

abbrev byte_server : Server Bytes
byte_server = record {
  recv = recv_byte;
  send = λ w m. (true, w);
  save = λ w file text. (true, w);
  auth_key = λ w. none;
  sha1 = λ m. none;
}

abbrev whole : Bytes → Bytes
whole w = w

abbrev no_signals : Bytes → ℕ
no_signals w = 0

byte_server-IsReceiver : IsReceiver byte_server whole no_signals
byte_server-IsReceiver [] n h some_byte = absurd (some_byte refl)
byte_server-IsReceiver (b ∷ bs) zero h some_byte = absurd (omega arith)
byte_server-IsReceiver (b ∷ bs) (suc n) h some_byte =
    inl (b ∷ [], bs, refl, omega arith, omega arith, refl, omega arith)

byte_server-IsOver : IsOver byte_server whole
byte_server-IsOver [] n e = ([], refl, refl)
byte_server-IsOver (b ∷ bs) n e = absurd (ground (arith, e))

abbrev session : Session
session = record { user = []; host = []; template = []; topo_id = 0 }

abbrev no_interface : Interface
no_interface = record { name = []; addr = []; ip = 0 }

abbrev one_route : Instance
one_route = record {
  if_list = [];
  routing_table = record { dest = 1; gw = 1; mask = 0xffffffff; interface = 101 ∷ [] } ∷ [];
  cache = record { entries = []; requests = []; fresh = 0 };
  wire = [];
}

-- VNSBANNER without a text.
abbrev banner : Bytes
banner = 0 ∷ 0 ∷ 0 ∷ 8 ∷ 0 ∷ 0 ∷ 0 ∷ 8 ∷ []

banner-IsMessage : IsMessage banner
unfolding load32 le_value htonl slice
banner-IsMessage = record { size = refl; long = omega arith; short = omega arith }

sr_read_from_server_expect-handle_message_example :
    (w' : Bytes) × (sr_read_from_server_expect byte_server [] no_interface 0 0 session 8 0 one_route
        (banner ++ 5 ∷ [])
      ≡ handle_message byte_server [] no_interface 0 0 session 0 banner one_route w')
    × (whole w' ≡ 5 ∷ [])
    × (no_signals w' ≤ 0)
sr_read_from_server_expect-handle_message_example =
    sr_read_from_server_expect-handle_message byte_server [] no_interface 0 0 session whole
      no_signals byte_server-IsReceiver 8 0 one_route (banner ++ 5 ∷ []) banner (5 ∷ [])
      banner-IsMessage refl (omega arith)

main_loop-no_rounds_example :
    main_loop byte_server [] no_interface 0 0 session 3 100 one_route (0 ∷ []) ≡ fault no_rounds
main_loop-no_rounds_example =
    main_loop-no_rounds byte_server whole no_signals byte_server-IsReceiver byte_server-IsOver []
      no_interface 0 0 session 3 100 one_route (0 ∷ []) (omega arith)

sr_verify_routing_table_iff_example :
    (sr_verify_routing_table one_route ≡ 0)
    ↔ ((one_route.if_list ≢ []) × (one_route.routing_table ≢ []) × HasInterfaces one_route)
sr_verify_routing_table_iff_example = sr_verify_routing_table_iff one_route

-- VNSHWINFO with the interface "e".
abbrev hardware : Bytes
hardware = 0 ∷ 0 ∷ 0 ∷ 44 ∷ 0 ∷ 0 ∷ 0 ∷ 16 ∷ 0 ∷ 0 ∷ 0 ∷ 1 ∷ 101 ∷ replicate 31 0

abbrev with_interface : Instance
with_interface = record one_route { if_list = record no_interface { name = 101 ∷ [] } ∷ [] }

longest_match-handle_message_example :
    (i : Interface) × (sr_get_interface with_interface (101 ∷ []) ≡ some i)
unfolding handle_message handle_command handle_hwinfo sr_handle_hwinfo longest_match htonl load32
    le_value slice hw_entries handle_hw_entry sr_verify_routing_table sr_add_interface count_missing
    find_name bytes_eq match_loop
longest_match-handle_message_example =
    longest_match-handle_message byte_server [] no_interface 0 0 session hardware one_route []
      (record { outcome = go_on; sr = with_interface; world = [] }) 1
      (record { dest = 1; gw = 1; mask = 0xffffffff; interface = 101 ∷ [] }) refl refl refl refl
