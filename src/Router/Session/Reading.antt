-- ===== src/Router/Session/Reading.antt =====
-- A message of the server is read whole, in however many pieces it comes.
use mathlib.Core.List.{append_assoc}
use computer_network.Prelude.{
  ℕ, zero, suc, ◌+◌, ◌-◌, ◌≤◌, ◌<◌, ◌≡◌, ◌≢◌, refl, sym, ap, subst, ◌∙◌, ◌⊎◌, inl, inr, true, [],
  ◌∷◌, ◌++◌, some, arith, length, length-append, length-take, length-drop, take, drop,
  take-append-drop, take_all, leb,
}
use computer_network.Prelude.Buffer.{slice, le_value, load32}
use computer_network.Prelude.Result.{ok}
use computer_network.Router.Instance.{Bytes, Interface, Instance}
use computer_network.Router.Session.{
  interrupted, received, Server, Session, read_round, read_loop, handle_message,
  sr_read_from_server_expect,
}
use computer_network.Tcp.Segment.{htonl}
use computer_network.Tcp.Wire.Stream.{append_split}

-- recv and read on a blocking socket with bytes to come: some of the first of them, no more than
-- asked, or a signal that interrupts the call, one of those that are still to come.
abbrev pub IsReceiver : {W : Type 0} → Server W → (W → Bytes) → (W → ℕ) → Type 0
IsReceiver {W} s incoming signals =
    (w : W) (n : ℕ)
    → 0 < n
    → incoming w ≢ []
    → ((bytes : Bytes) × (w' : W) × (s.recv w n ≡ (received bytes, w'))
        × (0 < length bytes)
        × (length bytes ≤ n)
        × (incoming w ≡ bytes ++ incoming w')
        × (signals w' ≤ signals w))
      ⊎ ((w' : W) × (s.recv w n ≡ (interrupted, w'))
          × (incoming w' ≡ incoming w)
          × (signals w' < signals w))

module _ {W : Type 0} (s : Server W) where
  read_loop_more :
      (fuel left : ℕ) (w w1 w' : W) (bytes later : Bytes)
      → s.recv w (suc left) ≡ (received bytes, w1)
      → length bytes ≤ suc left
      → read_loop s fuel (suc left - length bytes) w1 ≡ ok (some later, w')
      → read_loop s (suc fuel) (suc left) w ≡ ok (some (bytes ++ later), w')
  unfolding read_loop read_round
  read_loop_more fuel left w w1 w' bytes later got fits run =
      let exact : leb (length bytes) (suc left) ≡ true = ground arith in
      rw (read_loop, got, exact, run) refl

  read_loop_again :
      (fuel left : ℕ) (w w1 : W)
      → s.recv w (suc left) ≡ (interrupted, w1)
      → read_loop s (suc fuel) (suc left) w ≡ read_loop s fuel (suc left) w1
  unfolding read_loop read_round
  read_loop_again fuel left w w1 got = rw (read_loop, got) refl

  -- The bytes that are asked for are the first of the stream; a round for each of them and for
  -- each signal is enough.
  pub read_loop-front :
      (incoming : W → Bytes) (signals : W → ℕ)
      → IsReceiver s incoming signals
      → (fuel left : ℕ) (w : W) (front rest : Bytes) → incoming w ≡ front ++ rest
      → length front ≡ left
      → left + signals w ≤ fuel
      → (w' : W) × (read_loop s fuel left w ≡ ok (some front, w'))
        × (incoming w' ≡ rest)
        × (signals w' ≤ signals w)
  unfolding read_loop
  read_loop-front incoming signals receiver fuel zero w [] rest e l h = (w, refl, e, omega arith)
  read_loop-front incoming signals receiver fuel zero w (x ∷ xs) rest e l h = absurd (omega arith)
  read_loop-front incoming signals receiver fuel (suc left) w [] rest e l h = absurd (omega arith)
  read_loop-front incoming signals receiver zero (suc left) w (x ∷ xs) rest e l h =
      absurd (omega arith)
  read_loop-front incoming signals receiver (suc fuel) (suc left) w (x ∷ xs) rest e l h =
      elim (receiver w (suc left) (omega arith) (λ k. ground (arith, k, e))) [
        | inl piece ↦
            let (bytes, w1, got, moves, fits, flow, calm) = piece in
            let (mid, front_is, more) =
              append_split bytes (incoming w1) (x ∷ xs) rest (sym flow ∙ e) (omega arith) in
            let size : length mid ≡ suc left - length bytes =
              omega (arith, length-append bytes mid, ap length front_is, l) in
            let (w', run, over, quiet) =
              read_loop-front incoming signals receiver fuel (suc left - length bytes) w1 mid rest
                more size (omega arith) in
            (
              w',
              read_loop_more fuel left w w1 w' bytes mid got fits run
                  ∙ ap (λ t. ok (some t, w')) (sym front_is),
              over,
              omega arith,
            )
        | inr signal ↦
            let (w1, got, same, calm) = signal in
            let (w', run, over, quiet) =
              read_loop-front incoming signals receiver fuel (suc left) w1 (x ∷ xs) rest (same ∙ e)
                l (omega arith) in
            (w', read_loop_again fuel left w w1 got ∙ run, over, omega arith)
      ]

-- A message of the server: its length, in network byte order, comes first.
pub record IsMessage (m : Bytes) : Type 0 where
  pub size : htonl (load32 0 m) ≡ length m
  pub long : 8 ≤ length m
  pub short : length m ≤ 10000

load32-take : (m : Bytes) → load32 0 (take 4 m) ≡ load32 0 m
unfolding load32 slice
load32-take m = ap le_value (take_all 4 (take 4 m) (omega (arith, length-take 4 m)))

module _ {W : Type 0} (s : Server W) (junk_frame : Bytes) (junk : Interface) (now fuel : ℕ)
    (c : Session) where
  expect_run :
      (rounds expected_cmd len : ℕ) (sr : Instance) (w w1 w2 : W) (head rest : Bytes)
      → read_loop s rounds 4 w ≡ ok (some head, w1)
      → htonl (load32 0 head) ≡ len
      → 4 ≤ len
      → len ≤ 10000
      → read_loop s rounds (len - 4) w1 ≡ ok (some rest, w2)
      → sr_read_from_server_expect s junk_frame junk now fuel c rounds expected_cmd sr w
        ≡ handle_message s junk_frame junk now fuel c expected_cmd (head ++ rest) sr w2
  unfolding sr_read_from_server_expect
  expect_run rounds expected_cmd len sr w w1 w2 head rest got size long short more =
      ground (arith, got, size, more)

  -- Where the stream from the server begins with a message of 8 to 10000 bytes, the router reads
  -- this message, hands it on whole, and leaves what follows it, in however many pieces the bytes
  -- come and whatever signals interrupt the calls. As many rounds as the message has bytes and
  -- signals come are enough.
  pub sr_read_from_server_expect-handle_message :
      (incoming : W → Bytes) (signals : W → ℕ)
      → IsReceiver s incoming signals
      → (rounds expected_cmd : ℕ) (sr : Instance) (w : W) (m rest : Bytes) → IsMessage m
      → incoming w ≡ m ++ rest
      → length m + signals w ≤ rounds
      → (w' : W) × (sr_read_from_server_expect s junk_frame junk now fuel c rounds expected_cmd sr w
          ≡ handle_message s junk_frame junk now fuel c expected_cmd m sr w')
        × (incoming w' ≡ rest)
        × (signals w' ≤ signals w)
  sr_read_from_server_expect-handle_message incoming signals receiver rounds expected_cmd sr w m
        rest message e enough =
      let whole = take-append-drop 4 m in
      let long = message.long in
      let flow : incoming w ≡ take 4 m ++ (drop 4 m ++ rest) =
        e ∙ ap (λ t. t ++ rest) whole ∙ append_assoc (take 4 m) (drop 4 m) rest in
      let (w1, head, e1, calm) =
        read_loop-front s incoming signals receiver rounds 4 w (take 4 m) (drop 4 m ++ rest) flow
          (omega (arith, length-take 4 m)) (omega arith) in
      let (w2, body, e2, quiet) =
        read_loop-front s incoming signals receiver rounds (length m - 4) w1 (drop 4 m) rest e1
          (length-drop 4 m) (omega arith) in
      let run =
        expect_run rounds expected_cmd (length m) sr w w1 w2 (take 4 m) (drop 4 m) head
          (ap htonl (load32-take m) ∙ message.size) (omega arith) message.short body in
      (
        w2,
        subst
            (λ t.
              sr_read_from_server_expect s junk_frame junk now fuel c rounds expected_cmd sr w
              ≡ handle_message s junk_frame junk now fuel c expected_cmd t sr w2)
            (sym whole) run,
        e2,
        omega arith,
      )
