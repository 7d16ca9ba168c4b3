-- ===== src/Tcp/Transport.antt =====
-- transport.c: the connection, its handshake and the main loop. Sends succeed; a segment that is
-- received has a whole header, since the network layer drops any other.
pub mod Handshake
pub mod Delivery
pub mod Live
pub mod Closing
use computer_network.Prelude.{
  ℕ, zero, suc, ◌+◌, ◌%◌, ◌^◌, Bool, true, false, List, [], ◌∷◌, ◌++◌, Option, none, some, take,
  drop, length, ltb, not, ◌&&◌, ◌==◌, if◌then◌else◌,
}
use computer_network.Router.Cksum.{htons}
use computer_network.Tcp.Segment.{
  Bytes, Segment, no_segment, th_fin, th_syn, th_acked, has_flag, htonl,
}
use computer_network.Tcp.Context.{
  Context, Output, State, after_opposite, app_send, close_wait, closed, established, fin_received,
  fin_wait_1, fin_wait_2, generate_initial_seq_num, header, in_state, last_ack, listen,
  network_send, new_context, next_seq, number, opposite, receiver_window, stcp_mss, syn_received,
  syn_sent, time_wait, unblock,
}

-- The active side up to the SYN, and from the reply on.
unfoldable pub send_syn : Context → Context × Segment
send_syn ctx = (next_seq ctx, header (htonl ctx.initial_sequence_num) 0 th_syn)

unfoldable pub active_reply : Context → Segment → Context × List Output
active_reply ctx reply =
    let accepted =
      has_flag th_acked reply
      && has_flag th_syn reply
      && htonl reply.th_ack == ctx.current_sequence_num in
    let ctx' = if accepted then opposite reply ctx else ctx in
    (
      record (next_seq ctx') { connection_state = established },
      network_send (header (htonl ctx'.current_sequence_num) (after_opposite ctx') th_acked) []
          ∷ unblock (not accepted)
          ∷ [],
    )

-- The passive side up to the SYN-ACK, and from the last ACK on: `th_ack` is compared as it lies in
-- memory.
unfoldable pub passive_syn : Context → Segment → Context × Segment × Bool
passive_syn ctx syn =
    let accepted = has_flag th_syn syn in
    let ctx' = if accepted then opposite syn ctx else ctx in
    (
      record (next_seq ctx') { connection_state = syn_received },
      header (htonl ctx'.current_sequence_num) (after_opposite ctx') (th_syn + th_acked),
      not accepted,
    )

unfoldable pub passive_ack : Context → Segment → Context
passive_ack ctx ack =
    let accepted = has_flag th_acked ack && ack.th_ack == ctx.current_sequence_num in
    let ctx' = if accepted then opposite ack ctx else ctx in
    record ctx' { connection_state = established }

-- The loop over the bytes from the application, cut into segments.
unfoldable pub send_loop : ℕ → Context → Bytes → Context × List Output
send_loop zero ctx payload = (ctx, [])
send_loop (suc fuel) ctx [] = (ctx, [])
send_loop (suc fuel) ctx (b ∷ bs) =
    let payload = b ∷ bs in
    let pkt_size = if ltb stcp_mss (length payload) then stcp_mss else length payload in
    let (ctx', sent) =
      send_loop fuel
        (record ctx { current_sequence_num = (ctx.current_sequence_num + pkt_size) % 2 ^ 32 })
        (drop pkt_size payload) in
    (
      ctx',
      network_send (header (htonl ctx.current_sequence_num) 0 0) (take pkt_size payload) ∷ sent,
    )

-- APP_DATA. `payload` is what stcp_app_recv returns; each round sends a byte at least, so its
-- length is fuel enough.
unfoldable pub app_data : Context → Bytes → Context × List Output
app_data ctx payload =
    if in_state ctx.connection_state established
    then send_loop (length payload) ctx payload
    else (ctx, [])

-- The three kinds of segment in NETWORK_DATA.
unfoldable pub on_ack : Context → Segment → Context
on_ack ctx s =
    let ctx' = record ctx { ack_num = htonl s.th_ack; opp_window_size = htons s.th_win } in
    if htonl s.th_ack == ctx.fin_ack_sequence_num && in_state ctx.connection_state fin_wait_1
    then record ctx' { connection_state = fin_wait_2 }
    else ctx'

unfoldable pub on_fin : Context → Segment → Bytes → Context × List Output
on_fin ctx s payload =
    let ctx' = opposite s ctx in
    let ended =
      if in_state ctx'.connection_state established
      then record ctx' { connection_state = close_wait }
      else if in_state ctx'.connection_state fin_wait_2
      then record ctx' { connection_state = closed; done = true }
      else ctx' in
    (
      ended,
      fin_received ∷ (if ltb 0 (length payload) then app_send payload ∷ [] else [])
          ++ network_send (header 0 (after_opposite ctx') th_acked) [] ∷ [],
    )

unfoldable pub on_payload : Context → Segment → Bytes → Context × List Output
on_payload ctx s payload =
    let ctx' = opposite s ctx in
    (
      ctx',
      app_send payload
          ∷ network_send
              (header 0 (htonl ((ctx'.opp_sequence_num + length payload) % 2 ^ 32)) th_acked) []
          ∷ [],
    )

unfoldable pub network_data : Context → Segment → Bytes → Context × List Output
network_data ctx s payload =
    if in_state ctx.connection_state established
    then (if has_flag th_acked s
        then (on_ack ctx s, [])
        else if has_flag th_fin s
        then on_fin ctx s payload
        else on_payload ctx s payload)
    else (ctx, [])

-- APP_CLOSE_REQUESTED
unfoldable pub close_requested : Context → Context × List Output
close_requested ctx =
    let ctx' = next_seq ctx in
    let ended =
      if in_state ctx.connection_state established
      then record ctx' { connection_state = fin_wait_1 }
      else record ctx' { connection_state = closed; done = true } in
    (
      record ended { fin_ack_sequence_num = ctx'.current_sequence_num },
      network_send (header (htonl ctx.current_sequence_num) 0 th_fin) [] ∷ [],
    )

-- What stcp_wait_for_event reports, with what the calls that follow would read.
pub record Event : Type 0 where
  pub from_app : Option Bytes
  pub from_network : Option (Segment × Bytes)
  pub close : Bool

abbrev pub when_app : Option Bytes → Context → Context × List Output
when_app none ctx = (ctx, [])
when_app (some payload) ctx = app_data ctx payload

abbrev pub when_network : Option (Segment × Bytes) → Context → Context × List Output
when_network none ctx = (ctx, [])
when_network (some (s, payload)) ctx = network_data ctx s payload

abbrev pub when_close : Bool → Context → Context × List Output
when_close false ctx = (ctx, [])
when_close true ctx = close_requested ctx

-- One round of the loop, and the rounds for a list of events.
unfoldable pub round : Context → Event → Context × List Output
round ctx e =
    let (ctx1, out1) = when_app e.from_app ctx in
    let (ctx2, out2) = when_network e.from_network ctx1 in
    let (ctx3, out3) = when_close e.close ctx2 in (ctx3, out1 ++ out2 ++ out3)

unfoldable pub control_loop : Context → List Event → Context × List Output
control_loop ctx [] = (ctx, [])
control_loop ctx (e ∷ es) =
    let (ctx1, out1) = round ctx e in
    let (ctx2, out2) = control_loop ctx1 es in if ctx.done then (ctx, []) else (ctx2, out1 ++ out2)

-- The whole connection: `first` and `second` are the segments that the handshake receives, of
-- which the active side reads one only.
unfoldable pub transport_init :
    Bool → ℕ → Bool → Segment → Segment → List Event → Context × List Output
transport_init fixed rand true first second es =
    let (syn_ctx, syn) = send_syn (generate_initial_seq_num fixed rand new_context) in
    let (ctx, out) = active_reply syn_ctx first in
    let (ended, rest) = control_loop ctx es in (ended, network_send syn [] ∷ out ++ rest)
transport_init fixed rand false first second es =
    let (syn_ctx, reply, refused) =
      passive_syn (generate_initial_seq_num fixed rand new_context) first in
    let (ended, rest) = control_loop (passive_ack syn_ctx second) es in
    (ended, network_send reply [] ∷ unblock refused ∷ rest)
