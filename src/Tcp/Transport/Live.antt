-- ===== src/Tcp/Transport/Live.antt =====
-- The states that the main loop goes through, and the events that change nothing.
use computer_network.Prelude.{
  ℕ, zero, suc, ◌≡◌, refl, ◌⊎◌, inl, inr, Bool, true, false, List, [], ◌∷◌, ◌++◌, Option, none,
  some, arith, length, All, Bool-cases,
}
use computer_network.Tcp.Segment.{Bytes, Segment}
use computer_network.Tcp.Context.{
  Context, established, closed, fin_wait_1, close_wait, generate_initial_seq_num, new_context,
}
use computer_network.Tcp.Transport.{
  Event, send_loop, app_data, on_ack, on_fin, on_payload, network_data, close_requested, when_app,
  when_network, when_close, round, control_loop, active_reply, passive_syn, passive_ack, send_syn,
  transport_init,
}

when_app-waiting :
    (ctx : Context) (data' : Option Bytes)
    → ctx.connection_state ≡ fin_wait_1
    → when_app data' ctx ≡ (ctx, [])
unfolding app_data
when_app-waiting ctx none waits = refl
when_app-waiting ctx (some payload) waits = ground arith

when_network-waiting :
    (ctx : Context) (data' : Option (Segment × Bytes))
    → ctx.connection_state ≡ fin_wait_1
    → when_network data' ctx ≡ (ctx, [])
unfolding network_data
when_network-waiting ctx none waits = refl
when_network-waiting ctx (some (s, payload)) waits = ground arith

round-waiting :
    (ctx : Context) (e : Event)
    → ctx.connection_state ≡ fin_wait_1
    → e.close ≡ false
    → round ctx e ≡ (ctx, [])
unfolding round
round-waiting ctx e waits quiet =
    rw (when_app-waiting ctx e.from_app waits, when_network-waiting ctx e.from_network waits, quiet)
      refl

-- Once its own application has closed the connection, which leaves it in FIN_WAIT_1, the loop does
-- nothing at any event but a second close: it reads nothing, sends nothing and is never done.
pub control_loop-waiting :
    (ctx : Context) (es : List Event)
    → ctx.connection_state ≡ fin_wait_1
    → All (λ e. e.close ≡ false) es
    → control_loop ctx es ≡ (ctx, [])
unfolding control_loop
control_loop-waiting ctx [] waits quiet = refl
control_loop-waiting ctx (e ∷ es) waits quiet =
    rw (round-waiting ctx e waits quiet.0, control_loop-waiting ctx es waits quiet.1) (ground arith)

-- The states that the loop goes through: done exactly when closed.
abbrev pub IsLive : Context → Type 0
IsLive ctx =
    ((ctx.done ≡ false)
      × ((ctx.connection_state ≡ established)
          ⊎ (ctx.connection_state ≡ fin_wait_1)
          ⊎ (ctx.connection_state ≡ close_wait)))
    ⊎ ((ctx.done ≡ true) × (ctx.connection_state ≡ closed))

send_loop-state :
    (fuel : ℕ) (ctx : Context) (payload : Bytes)
    → ((send_loop fuel ctx payload).0.connection_state ≡ ctx.connection_state)
      × ((send_loop fuel ctx payload).0.done ≡ ctx.done)
unfolding send_loop
send_loop-state zero ctx payload = (refl, refl)
send_loop-state (suc fuel) ctx [] = (refl, refl)
send_loop-state (suc fuel) ctx (b ∷ bs) = send_loop-state fuel _ _

app_data-state :
    (ctx : Context) (payload : Bytes)
    → ((app_data ctx payload).0.connection_state ≡ ctx.connection_state)
      × ((app_data ctx payload).0.done ≡ ctx.done)
unfolding app_data
app_data-state ctx payload = ground (arith, send_loop-state (length payload) ctx payload)

when_app-IsLive :
    (ctx : Context) (data' : Option Bytes) → IsLive ctx → IsLive (when_app data' ctx).0
when_app-IsLive ctx none v = v
when_app-IsLive ctx (some payload) v =
    let (state, done) = app_data-state ctx payload in ground (arith, state, done)

when_network-IsLive :
    (ctx : Context) (data' : Option (Segment × Bytes))
    → IsLive ctx
    → IsLive (when_network data' ctx).0
unfolding network_data on_ack on_fin on_payload
when_network-IsLive ctx none v = v
when_network-IsLive ctx (some (s, payload)) v = ground arith

when_close-IsLive : (ctx : Context) (b : Bool) → IsLive ctx → IsLive (when_close b ctx).0
unfolding close_requested
when_close-IsLive ctx false v = v
when_close-IsLive ctx true v = ground arith

round-IsLive : (ctx : Context) (e : Event) → IsLive ctx → IsLive (round ctx e).0
unfolding round
round-IsLive ctx e v =
    when_close-IsLive _ e.close
      (when_network-IsLive _ e.from_network (when_app-IsLive ctx e.from_app v))

pub control_loop-done :
    (ctx : Context) (e : Event) (es : List Event)
    → ctx.done ≡ true
    → control_loop ctx (e ∷ es) ≡ (ctx, [])
unfolding control_loop
control_loop-done ctx e es h = ground arith

pub control_loop-more :
    (ctx : Context) (e : Event) (es : List Event)
    → ctx.done ≡ false
    → control_loop ctx (e ∷ es) ≡ (
      (control_loop (round ctx e).0 es).0,
      (round ctx e).1 ++ (control_loop (round ctx e).0 es).1,
    )
unfolding control_loop
control_loop-more ctx e es h = ground arith

control_loop-IsLive_from :
    (ctx : Context) (es : List Event) → IsLive ctx → IsLive (control_loop ctx es).0
control_loop-IsLive_from ctx [] v = unfold control_loop in v
control_loop-IsLive_from ctx (e ∷ es) v = elim (Bool-cases ctx.done) [
  | inl t ↦ rw (control_loop-done ctx e es t) v
  | inr f ↦
      rw (control_loop-more ctx e es f)
        (control_loop-IsLive_from (round ctx e).0 es (round-IsLive ctx e v))
]

-- From an established connection on, whatever happens, the loop is done exactly when the
-- connection is closed, and until then it is in one of ESTABLISHED, FIN_WAIT_1 and CLOSE_WAIT.
pub control_loop-IsLive :
    (ctx : Context) (es : List Event)
    → ctx.connection_state ≡ established
    → ctx.done ≡ false
    → IsLive (control_loop ctx es).0
control_loop-IsLive ctx es live more = control_loop-IsLive_from ctx es (ground arith)

active_reply-open :
    (ctx : Context) (reply : Segment)
    → ctx.done ≡ false
    → ((active_reply ctx reply).0.connection_state ≡ established)
      × ((active_reply ctx reply).0.done ≡ false)
unfolding active_reply
active_reply-open ctx reply more = ground arith

passive-open :
    (ctx : Context) (syn ack : Segment)
    → ctx.done ≡ false
    → ((passive_ack (passive_syn ctx syn).0 ack).connection_state ≡ established)
      × ((passive_ack (passive_syn ctx syn).0 ack).done ≡ false)
unfolding passive_syn passive_ack
passive-open ctx syn ack more = ground arith

new_done :
    (fixed : Bool) (rand : ℕ) → (generate_initial_seq_num fixed rand new_context).done ≡ false
unfolding generate_initial_seq_num
new_done false rand = refl
new_done true rand = refl

-- Whatever the handshake receives and whatever happens afterwards, the layer is done exactly when
-- the connection is closed, and until then it is in ESTABLISHED, FIN_WAIT_1 or CLOSE_WAIT.
pub transport_init-IsLive :
    (fixed : Bool) (rand : ℕ) (is_active : Bool) (first second : Segment) (es : List Event)
    → IsLive (transport_init fixed rand is_active first second es).0
unfolding transport_init send_syn
transport_init-IsLive fixed rand true first second es =
    let ready = active_reply-open _ first (new_done fixed rand) in
    control_loop-IsLive _ es ready.0 ready.1
transport_init-IsLive fixed rand false first second es =
    let ready = passive-open _ first second (new_done fixed rand) in
    control_loop-IsLive _ es ready.0 ready.1
