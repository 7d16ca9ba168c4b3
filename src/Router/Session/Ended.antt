-- ===== src/Router/Session/Ended.antt =====
-- A server that goes away without a word.
use computer_network.Prelude.{
  ℕ, zero, suc, ◌-◌, ◌≤◌, ◌<◌, ◌≡◌, refl, ap, inl, inr, List-cases, true, [], arith, length,
  length-append, leb,
}
use computer_network.Prelude.Result.{fault, no_rounds}
use computer_network.Router.Instance.{Bytes, Interface, Instance}
use computer_network.Router.Session.{
  interrupted, received, Server, Session, read_round, read_loop, sr_read_from_server_expect,
  main_loop,
}
use computer_network.Router.Session.Reading.{IsReceiver}

-- recv and read at the end of the connection.
abbrev pub IsOver : {W : Type 0} → Server W → (W → Bytes) → Type 0
IsOver {W} s incoming =
    (w : W) (n : ℕ)
    → incoming w ≡ []
    → (w' : W) × (s.recv w n ≡ (received [], w')) × (incoming w' ≡ [])

module _ {W : Type 0} (s : Server W) (incoming : W → Bytes) (signals : W → ℕ)
    (receiver : IsReceiver s incoming signals) (over : IsOver s incoming) where
  read_loop_step :
      (fuel left : ℕ) (w w1 : W) (bytes : Bytes)
      → s.recv w (suc left) ≡ (received bytes, w1)
      → length bytes ≤ suc left
      → read_loop s fuel (suc left - length bytes) w1 ≡ fault no_rounds
      → read_loop s (suc fuel) (suc left) w ≡ fault no_rounds
  unfolding read_loop read_round
  read_loop_step fuel left w w1 bytes got fits run =
      let exact : leb (length bytes) (suc left) ≡ true = ground arith in
      rw (read_loop, got, exact, run) refl

  read_loop_again :
      (fuel left : ℕ) (w w1 : W)
      → s.recv w (suc left) ≡ (interrupted, w1)
      → read_loop s fuel (suc left) w1 ≡ fault no_rounds
      → read_loop s (suc fuel) (suc left) w ≡ fault no_rounds
  unfolding read_loop read_round
  read_loop_again fuel left w w1 got run = rw (read_loop, got, run) refl

  -- With fewer bytes to come than are asked for, no number of rounds is enough.
  read_loop_hangs :
      (fuel left : ℕ) (w : W)
      → length (incoming w) < left
      → read_loop s fuel left w ≡ fault no_rounds
  unfolding read_loop
  read_loop_hangs fuel zero w h = absurd (omega arith)
  read_loop_hangs zero (suc left) w h = refl
  read_loop_hangs (suc fuel) (suc left) w h = elim (List-cases (incoming w)) [
    | inl empty ↦
        let (w1, got, e) = over w (suc left) empty in
        read_loop_step fuel left w w1 [] got (omega arith)
          (read_loop_hangs fuel (suc left - 0) w1 (omega (arith, ap length e)))
    | inr more ↦ elim (receiver w (suc left) (omega arith) more) [
      | inl piece ↦
          let (bytes, w1, got, moves, fits, flow, calm) = piece in
          read_loop_step fuel left w w1 bytes got fits (
            read_loop_hangs fuel (suc left - length bytes) w1
              (omega (arith, ap length flow, length-append bytes (incoming w1))))
      | inr signal ↦
          let (w1, got, same, calm) = signal in
          read_loop_again fuel left w w1 got
            (read_loop_hangs fuel (suc left) w1 (omega (arith, ap length same)))
    ]
  ]

  -- Once the server has closed the connection, with fewer than 4 bytes left to read, the loop of
  -- main does not end, however many calls of recv it makes: a read of 0 bytes is tried again for
  -- ever.
  pub main_loop-no_rounds :
      (junk_frame : Bytes) (junk : Interface) (now fuel : ℕ) (c : Session) (messages rounds : ℕ)
      (sr : Instance) (w : W)
      → length (incoming w) < 4
      → main_loop s junk_frame junk now fuel c messages rounds sr w ≡ fault no_rounds
  unfolding main_loop sr_read_from_server_expect
  main_loop-no_rounds junk_frame junk now fuel c zero rounds sr w h = refl
  main_loop-no_rounds junk_frame junk now fuel c (suc messages) rounds sr w h =
      rw (read_loop_hangs rounds 4 w h) refl
