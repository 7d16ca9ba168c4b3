-- ===== src/Socket/Copies.antt =====
-- Server&Client: all of the client's input gets to the server's output, in order.
use mathlib.Core.List.{append_assoc, append-nil}
use computer_network.Prelude.{
  ℕ, zero, suc, ◌+◌, ◌<◌, ◌≡◌, ◌≢◌, refl, sym, ap, ◌∙◌, inl, inr, List-cases, [], ◌∷◌, ◌++◌, some,
  arith, length, length-append,
}
use computer_network.Prelude.Result.{Result, ok}
use computer_network.Tcp.Segment.{Bytes}
use computer_network.Tcp.Wire.{Sockets}
use computer_network.Socket.{
  buffer_size, connected_text, disconnected_text, waiting_text, client_round, client, server_round,
  server_loop, server,
}

-- A blocking read of `sd` takes some of the first bytes that wait there, and none at the end; the
-- bytes of the other stream stay.
abbrev pub IsSource : {W : Type 0} → Sockets W → ℕ → (W → Bytes) → (W → Bytes) → Type 0
IsSource {W} s sd incoming outgoing =
    ((w : W) (n : ℕ)
      → 0 < n
      → incoming w ≢ []
      → (b : ℕ) × (bs : Bytes) × (w' : W) × (s.read w sd n ≡ (some (b ∷ bs), w'))
        × (incoming w ≡ (b ∷ bs) ++ incoming w')
        × (outgoing w' ≡ outgoing w))
    × ((w : W) (n : ℕ)
        → incoming w ≡ []
        → (w' : W) × (s.read w sd n ≡ (some [], w')) × (outgoing w' ≡ outgoing w))

-- A blocking write of `sd` takes all bytes; the bytes of the other stream stay.
abbrev pub IsSink : {W : Type 0} → Sockets W → ℕ → (W → Bytes) → (W → Bytes) → Type 0
IsSink {W} s sd incoming outgoing =
    (w : W) (src : Bytes)
    → (w' : W) × (s.write w sd src ≡ (some (length src), w'))
      × (outgoing w' ≡ outgoing w ++ src)
      × (incoming w' ≡ incoming w)

-- Each text that printf is given, a line, is out at once; the bytes of the other stream stay.
abbrev pub IsPrinter : {W : Type 0} → (Bytes → W → W) → (W → Bytes) → (W → Bytes) → Type 0
IsPrinter {W} printf incoming outgoing =
    (text : Bytes) (w : W)
    → (outgoing (printf text w) ≡ outgoing w ++ text) × (incoming (printf text w) ≡ incoming w)

-- close takes back nothing that was written.
abbrev pub IsKept : {W : Type 0} → Sockets W → ℕ → (W → Bytes) → Type 0
IsKept {W} s sd outgoing = (w : W) → outgoing (s.close w sd) ≡ outgoing w

module _ {W : Type 0} (s : Sockets W) (incoming outgoing : W → Bytes) where
  -- A read and a write of what came move the front of one stream behind the other.
  moved :
      (w w1 w2 : W) (bytes : Bytes)
      → incoming w ≡ bytes ++ incoming w1
      → outgoing w1 ≡ outgoing w
      → outgoing w2 ≡ outgoing w1 ++ bytes
      → incoming w2 ≡ incoming w1
      → outgoing w2 ++ incoming w2 ≡ outgoing w ++ incoming w
  moved w w1 w2 bytes taken kept put left =
      ap (λ t. outgoing w2 ++ t) left
      ∙ ap (λ t. t ++ incoming w1) (put ∙ ap (λ t. t ++ bytes) kept)
      ∙ append_assoc (outgoing w) bytes (incoming w1)
      ∙ ap (λ t. outgoing w ++ t) (sym taken)

  -- A round of the client that moves bytes.
  client_run :
      (stdin sd fuel n b : ℕ) (bs : Bytes) (w w1 w2 : W) (end : Result (ℕ × W))
      → s.read w stdin buffer_size ≡ (some (b ∷ bs), w1)
      → s.write w1 sd (b ∷ bs) ≡ (some n, w2)
      → client s fuel stdin sd w2 ≡ end
      → client s (suc fuel) stdin sd w ≡ end
  unfolding client client_round
  client_run stdin sd fuel n b bs w w1 w2 end got wrote run =
      rw (client, got, client_round, wrote, wrote) run

  -- The client sends all of its input.
  pub client_sent :
      (stdin sd : ℕ)
      → IsSource s stdin incoming outgoing
      → IsSink s sd incoming outgoing
      → IsKept s sd outgoing
      → (fuel : ℕ) (w : W) → length (incoming w) < fuel
      → (w' : W) × (client s fuel stdin sd w ≡ ok (0, w'))
        × (outgoing w' ≡ outgoing w ++ incoming w)
  unfolding client client_round
  client_sent stdin sd source sink closes zero w h = absurd (omega arith)
  client_sent stdin sd source sink closes (suc fuel) w h = elim (List-cases (incoming w)) [
    | inl done ↦
        let (w1, got, kept) = source.1 w buffer_size done in
        (
          s.close w1 sd,
          rw (client, got) refl,
          closes w1 ∙ kept ∙ sym (append-nil (outgoing w)) ∙ ap (λ t. outgoing w ++ t) (sym done),
        )
    | inr some_left ↦
        let (b, bs, w1, got, taken, kept) = source.0 w buffer_size (omega arith) some_left in
        let (w2, wrote, put, left) = sink w1 (b ∷ bs) in
        let used : length (incoming w) ≡ suc (length bs + length (incoming w2)) =
          ap length (taken ∙ ap (λ t. (b ∷ bs) ++ t) (sym left))
          ∙ ap suc (length-append bs (incoming w2)) in
        let (w', run, rest) =
          client_sent stdin sd source sink closes fuel w2 (omega (arith, used, h)) in
        (
          w',
          client_run stdin sd fuel (length (b ∷ bs)) b bs w w1 w2 (ok (0, w')) got wrote run,
          rest ∙ moved w w1 w2 (b ∷ bs) taken kept put left,
        )
  ]

  -- The server writes all that comes, and then that the client has gone.
  loop_wrote :
      (printf : Bytes → W → W) (sd stdout : ℕ)
      → IsPrinter printf incoming outgoing
      → IsSource s sd incoming outgoing
      → IsSink s stdout incoming outgoing
      → IsKept s sd outgoing
      → (fuel : ℕ) (w : W) → length (incoming w) < fuel
      → (w' : W) × (server_loop s printf fuel sd stdout w ≡ ok w')
        × (outgoing w' ≡ (outgoing w ++ incoming w) ++ disconnected_text)
  unfolding server_loop server_round
  loop_wrote printf sd stdout prints source sink closes zero w h = absurd (omega arith)
  loop_wrote printf sd stdout prints source sink closes (suc fuel) w h =
      elim (List-cases (incoming w)) [
        | inl done ↦
            let (w1, got, kept) = source.1 w buffer_size done in
            (
              s.close (printf disconnected_text w1) sd,
              rw (server_loop, got) refl,
              closes (printf disconnected_text w1)
                  ∙ (prints disconnected_text w1).0
                  ∙ ap (λ t. t ++ disconnected_text)
                      (kept ∙ sym (append-nil (outgoing w)) ∙ ap (λ t. outgoing w ++ t) (sym done)),
            )
        | inr some_left ↦
            let (b, bs, w1, got, taken, kept) = source.0 w buffer_size (omega arith) some_left in
            let (w2, wrote, put, left) = sink w1 (b ∷ bs) in
            let used : length (incoming w) ≡ suc (length bs + length (incoming w2)) =
              ap length (taken ∙ ap (λ t. (b ∷ bs) ++ t) (sym left))
              ∙ ap suc (length-append bs (incoming w2)) in
            let (w', run, rest) =
              loop_wrote printf sd stdout prints source sink closes fuel w2
                (omega (arith, used, h)) in
            (
              w',
              rw (server_loop, got, server_round, wrote) run,
              rest ∙ ap (λ t. t ++ disconnected_text) (moved w w1 w2 (b ∷ bs) taken kept put left),
            )
      ]

  -- What server puts on its output for one connection.
  pub server_wrote :
      (printf : Bytes → W → W) (sd stdout : ℕ)
      → IsPrinter printf incoming outgoing
      → IsSource s sd incoming outgoing
      → IsSink s stdout incoming outgoing
      → IsKept s sd outgoing
      → (fuel : ℕ) (w : W) → length (incoming w) < fuel
      → (w' : W) × (server s printf fuel sd stdout w ≡ ok w')
        × (outgoing w'
            ≡ (((outgoing w ++ connected_text) ++ incoming w) ++ disconnected_text) ++ waiting_text)
  unfolding server
  server_wrote printf sd stdout prints source sink closes fuel w h =
      let start = printf connected_text w in
      let (shown, stays) = prints connected_text w in
      let (w', run, all_out) =
        loop_wrote printf sd stdout prints source sink closes fuel start
          (omega (arith, h, ap length stays)) in
      (
        printf waiting_text w',
        rw (server, run) refl,
        (prints waiting_text w').0
            ∙ ap (λ t. t ++ waiting_text)
                (all_out
                  ∙ ap (λ t. (t ++ incoming start) ++ disconnected_text) shown
                  ∙ ap (λ t. ((outgoing w ++ connected_text) ++ t) ++ disconnected_text) stays),
      )

-- Where reads of the client's input and of the server's socket give what waits there in pieces, the
-- writes of both take all bytes, and each line that the server prints is out at once, as on a
-- terminal, a client whose channel was empty returns 0; and a server to which this channel's bytes
-- come puts on its output that it is connected, the client's input, whole and in order, that the
-- client has gone, and that it waits.
pub server-client :
    {W V : Type 0} (s : Sockets W) (t : Sockets V) (printf : Bytes → V → V) (stdin sent : W → Bytes)
    (came stdout : V → Bytes) (stdin_fd client_socket server_socket stdout_fd : ℕ)
    → IsSource s stdin_fd stdin sent
    → IsSink s client_socket stdin sent
    → IsKept s client_socket sent
    → IsPrinter printf came stdout
    → IsSource t server_socket came stdout
    → IsSink t stdout_fd came stdout
    → IsKept t server_socket stdout
    → (fuel : ℕ) (w : W) (v : V) → sent w ≡ []
    → length (stdin w) < fuel
    → (w' : W) × (client s fuel stdin_fd client_socket w ≡ ok (0, w'))
      × (came v ≡ sent w'
          → (v' : V) × (server t printf fuel server_socket stdout_fd v ≡ ok v')
            × (stdout v'
                ≡ (((stdout v ++ connected_text) ++ stdin w) ++ disconnected_text) ++ waiting_text))
server-client s t printf stdin sent came stdout stdin_fd client_socket server_socket stdout_fd from
      to kept prints from' to' kept' fuel w v clear h =
    let (w', run, all_sent) =
      client_sent s stdin sent stdin_fd client_socket from to kept fuel w h in
    let whole : sent w' ≡ stdin w = all_sent ∙ ap (λ bytes. bytes ++ stdin w) clear in
    (
      w',
      run,
      λ arrives.
          let (v', run', all_out) =
            server_wrote t came stdout printf server_socket stdout_fd prints from' to' kept' fuel v
              (omega (arith, h, ap length (arrives ∙ whole))) in
          (
            v',
            run',
            all_out
                ∙ ap
                    (λ bytes.
                      (((stdout v ++ connected_text) ++ bytes) ++ disconnected_text)
                      ++ waiting_text)
                    (arrives ∙ whole),
          ),
    )
