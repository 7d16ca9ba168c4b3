-- ===== src/Tcp/Transport/Handshake.antt =====
-- The three-way handshake, both sides of it.
use computer_network.Prelude.{ℕ, ◌+◌, ◌%◌, ◌≡◌, Bool, false, List, [], ◌∷◌}
use computer_network.Tcp.Segment.{Segment, th_acked, htonl}
use computer_network.Tcp.Context.{
  Context, Output, network_send, unblock, established, receiver_window, new_context,
  generate_initial_seq_num, header,
}
use computer_network.Tcp.Transport.{send_syn, active_reply, passive_syn, passive_ack}

-- The two sides of a connection, with the random numbers that they draw, the segments of each
-- handed to the other.
abbrev pub active_start : ℕ → Context × Segment
active_start r = send_syn (generate_initial_seq_num false r new_context)

abbrev pub passive_start : ℕ → Segment → Context × Segment × Bool
passive_start r = passive_syn (generate_initial_seq_num false r new_context)

abbrev pub passive_mid : ℕ → ℕ → Context × Segment × Bool
passive_mid r r' = passive_start r' (active_start r).1

abbrev pub active_end : ℕ → ℕ → Context × List Output
active_end r r' = active_reply (active_start r).0 (passive_mid r r').1

abbrev pub last_ack_segment : ℕ → ℕ → Segment
last_ack_segment r r' = header (htonl (r % 256 + 1)) (htonl (r' % 256 + 1)) th_acked

-- What each side knows in the end. The passive side still has the number of the SYN as that of
-- its peer: it compares the last ACK in network byte order and so does not take it.
pub record IsJoined (r r' : ℕ) : Type 0 where
  pub active_open : (active_end r r').0.connection_state ≡ established
  pub active_opp : (active_end r r').0.opp_sequence_num ≡ r' % 256
  pub active_window : (active_end r r').0.opp_window_size ≡ receiver_window
  pub active_next : (active_end r r').0.current_sequence_num ≡ r % 256 + 2
  pub active_out :
      (active_end r r').1 ≡ network_send (last_ack_segment r r') [] ∷ unblock false ∷ []
  pub passive_taken : (passive_mid r r').2 ≡ false
  pub passive_open :
      (passive_ack (passive_mid r r').0 (last_ack_segment r r')).connection_state ≡ established
  pub passive_opp :
      (passive_ack (passive_mid r r').0 (last_ack_segment r r')).opp_sequence_num ≡ r % 256
  pub passive_next :
      (passive_ack (passive_mid r r').0 (last_ack_segment r r')).current_sequence_num ≡ r' % 256 + 1
