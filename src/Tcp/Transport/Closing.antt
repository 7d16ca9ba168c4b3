-- ===== src/Tcp/Transport/Closing.antt =====
-- How a connection closes, and how it does not.
use computer_network.Prelude.{
  ◌+◌, ◌%◌, ◌^◌, ◌≡◌, refl, true, false, List, [], ◌∷◌, ◌++◌, none, some, arith, length, All,
  if◌then◌else◌, ltb,
}
use computer_network.Tcp.Segment.{Bytes, Segment, th_fin, th_acked, htonl}
use computer_network.Tcp.Context.{
  Context, Output, network_send, app_send, fin_received, header, opposite, after_opposite,
  established, closed, fin_wait_1, close_wait,
}
use computer_network.Tcp.Transport.{Event, close_requested, round, control_loop}
use computer_network.Tcp.Transport.Live.{control_loop-more, control_loop-waiting}

-- What is sent and handed on when the peer closes first and the application then closes too.
abbrev pub closing_outputs : Context → Segment → Bytes → List Output
closing_outputs ctx s payload =
    fin_received ∷ (if ltb 0 (length payload) then app_send payload ∷ [] else [])
    ++ network_send (header 0 (after_opposite (opposite s ctx)) th_acked) []
      ∷ network_send (header (htonl ctx.current_sequence_num) 0 th_fin) []
      ∷ []

abbrev pub peer_closes : Segment → Bytes → Event
peer_closes s payload = record { from_app = none; from_network = some (s, payload); close = false }

abbrev pub app_closes : Event
app_closes = record { from_app = none; from_network = none; close = true }

abbrev fin_taken : Context → Segment → Context
fin_taken ctx s = record (opposite s ctx) { connection_state = close_wait }

abbrev fin_outputs : Context → Segment → Bytes → List Output
fin_outputs ctx s payload =
    fin_received ∷ (if ltb 0 (length payload) then app_send payload ∷ [] else [])
    ++ network_send (header 0 (after_opposite (opposite s ctx)) th_acked) [] ∷ []

abbrev close_taken : Context → Context
close_taken ctx = record ctx {
  connection_state = closed;
  done = true;
  current_sequence_num = (ctx.current_sequence_num + 1) % 2 ^ 32;
  fin_ack_sequence_num = (ctx.current_sequence_num + 1) % 2 ^ 32;
}

-- The connection after its application has closed it first.
abbrev pub half_closed : Context → Context
half_closed ctx = record ctx {
  connection_state = fin_wait_1;
  current_sequence_num = (ctx.current_sequence_num + 1) % 2 ^ 32;
  fin_ack_sequence_num = (ctx.current_sequence_num + 1) % 2 ^ 32;
}

closing_round :
    (ctx : Context)
    → ctx.connection_state ≡ established
    → round ctx app_closes
      ≡ (half_closed ctx, network_send (header (htonl ctx.current_sequence_num) 0 th_fin) [] ∷ [])
unfolding round close_requested
closing_round ctx h = ground arith

-- An established connection, not done, whose application closes it first sends its FIN and stays in
-- FIN_WAIT_1: at any events but a second close it reads nothing, sends nothing, and is never done.
pub closed_first_hangs :
    (ctx : Context) (es : List Event)
    → ctx.connection_state ≡ established
    → ctx.done ≡ false
    → All (λ e. e.close ≡ false) es
    → control_loop ctx (app_closes ∷ es)
      ≡ (half_closed ctx, network_send (header (htonl ctx.current_sequence_num) 0 th_fin) [] ∷ [])
closed_first_hangs ctx es live more quiet =
    rw
      (
        control_loop-more ctx app_closes es more,
        closing_round ctx live,
        control_loop-waiting (half_closed ctx) es refl quiet,
      )
      refl
