-- ===== src/Tcp/Context.antt =====
-- transport.c: context_t, the states of a connection, and the headers of what it sends.
use computer_network.Prelude.{ℕ, ◌+◌, ◌%◌, ◌^◌, Bool, true, false, ◌==◌}
use computer_network.Router.Cksum.{htons}
use computer_network.Tcp.Segment.{Bytes, Segment, no_segment, htonl}

abbrev pub stcp_mss : ℕ
stcp_mss = 536

abbrev pub receiver_window : ℕ
receiver_window = 3072

-- CSTATE_ESTABLISHED to CSTATE_TIME_WAIT.
pub data State : Type 0 where
  established closed listen syn_sent syn_received fin_wait_1 fin_wait_2 close_wait last_ack
        time_wait :
      State

abbrev pub number : State → ℕ
number established = 0
number closed = 1
number listen = 2
number syn_sent = 3
number syn_received = 4
number fin_wait_1 = 5
number fin_wait_2 = 6
number close_wait = 7
number last_ack = 8
number time_wait = 9

abbrev pub in_state : State → State → Bool
in_state s t = number s == number t

-- context_t
pub record Context : Type 0 where
  pub done : Bool
  pub connection_state : State
  pub initial_sequence_num : ℕ
  pub opp_sequence_num : ℕ
  pub ack_num : ℕ
  pub opp_window_size : ℕ
  pub current_sequence_num : ℕ
  pub fin_ack_sequence_num : ℕ

-- calloc
abbrev pub new_context : Context
new_context = record {
  done = false;
  connection_state = established;
  initial_sequence_num = 0;
  opp_sequence_num = 0;
  ack_num = 0;
  opp_window_size = 0;
  current_sequence_num = 0;
  fin_ack_sequence_num = 0;
}

-- What the layer does to its surroundings. `unblock` lets the application go on, with ECONNREFUSED
-- or without.
pub data Output : Type 0 where
  network_send : Segment → Bytes → Output
  app_send : Bytes → Output
  fin_received : Output
  unblock : Bool → Output

-- `fixed` is whether FIXED_INITNUM is defined; `rand` is what the library returns.
unfoldable pub generate_initial_seq_num : Bool → ℕ → Context → Context
generate_initial_seq_num true rand ctx = record ctx { initial_sequence_num = 1 }
generate_initial_seq_num false rand ctx = record ctx {
  initial_sequence_num = rand % 256;
  current_sequence_num = rand % 256;
}

-- `current_sequence_num++`
abbrev pub next_seq : Context → Context
next_seq ctx = record ctx { current_sequence_num = (ctx.current_sequence_num + 1) % 2 ^ 32 }

abbrev pub opposite : Segment → Context → Context
opposite s ctx = record ctx { opp_sequence_num = htonl s.th_seq; opp_window_size = htons s.th_win }

-- The header of every segment that is sent.
abbrev pub header : ℕ → ℕ → ℕ → Segment
header seq ack flags = record no_segment {
  th_seq = seq;
  th_ack = ack;
  th_off = 5;
  th_flags = flags;
  th_win = htons receiver_window;
}

abbrev pub after_opposite : Context → ℕ
after_opposite ctx = htonl ((ctx.opp_sequence_num + 1) % 2 ^ 32)
