-- ===== src/Socket.antt =====
-- Server&Client: the client copies its input to a socket, and the server what comes to its output.
-- The calls of the system are a record of functions, `accept` is left out of it: the loops start
-- with a socket that is connected. `printf` puts a text on standard output, by way of the buffer of
-- stdio; what perror prints goes to another stream and is left out.
pub mod Copies
mod Examples
use computer_network.Prelude.{ℕ, zero, suc, List, [], ◌∷◌, Option, none, some}
use computer_network.Prelude.Result.{Result, ok, fault, no_rounds, ◌>>=◌}
use computer_network.Tcp.Segment.{Bytes}
use computer_network.Tcp.Wire.{Sockets}

-- SEND_BUFFER_SIZE and RECV_BUFFER_SIZE
abbrev pub buffer_size : ℕ
buffer_size = 2048

-- What server prints: "success connected", "Client disconnected." and "server: waiting for
-- connections...", each with a line feed.
abbrev pub connected_text : Bytes
connected_text =
    b's' ∷ b'u' ∷ b'c' ∷ b'c' ∷ b'e' ∷ b's' ∷ b's' ∷ b' ' ∷ b'c' ∷ b'o' ∷ b'n' ∷ b'n' ∷ b'e' ∷ b'c'
    ∷ b't' ∷ b'e' ∷ b'd' ∷ 10 ∷ []

abbrev pub disconnected_text : Bytes
disconnected_text =
    b'C' ∷ b'l' ∷ b'i' ∷ b'e' ∷ b'n' ∷ b't' ∷ b' ' ∷ b'd' ∷ b'i' ∷ b's' ∷ b'c' ∷ b'o' ∷ b'n' ∷ b'n'
    ∷ b'e' ∷ b'c' ∷ b't' ∷ b'e' ∷ b'd' ∷ b'.' ∷ 10 ∷ []

abbrev pub waiting_text : Bytes
waiting_text =
    b's' ∷ b'e' ∷ b'r' ∷ b'v' ∷ b'e' ∷ b'r' ∷ b':' ∷ b' ' ∷ b'w' ∷ b'a' ∷ b'i' ∷ b't' ∷ b'i' ∷ b'n'
    ∷ b'g' ∷ b' ' ∷ b'f' ∷ b'o' ∷ b'r' ∷ b' ' ∷ b'c' ∷ b'o' ∷ b'n' ∷ b'n' ∷ b'e' ∷ b'c' ∷ b't'
    ∷ b'i' ∷ b'o' ∷ b'n' ∷ b's' ∷ b'.' ∷ b'.' ∷ b'.' ∷ 10 ∷ []

module _ {W : Type 0} (s : Sockets W) where
  -- What the client does with the result of a read of its input; what send returns is only
  -- compared to -1.
  unfoldable pub client_round : (W → Result (ℕ × W)) → ℕ → Option Bytes → W → Result (ℕ × W)
  client_round more client_socket none w = ok (1, s.close w client_socket)
  client_round more client_socket (some []) w = ok (0, s.close w client_socket)
  client_round more client_socket (some (b ∷ bs)) w =
      let (sent, w') = s.write w client_socket (b ∷ bs) in
      elim sent [ none ↦ ok (1, s.close w' client_socket) | some n ↦ more w' ]

  -- client, once it is connected: the value that it returns.
  unfoldable pub client : ℕ → ℕ → ℕ → W → Result (ℕ × W)
  client zero stdin client_socket w = fault no_rounds
  client (suc fuel) stdin client_socket w =
      let got = s.read w stdin buffer_size in
      client_round (λ w'. client fuel stdin client_socket w') client_socket got.0 got.1

  -- What the server does with the result of recv; what write returns is not looked at.
  unfoldable pub server_round :
      (Bytes → W → W) → (W → Result W) → ℕ → ℕ → Option Bytes → W → Result W
  server_round printf more client_socket stdout none w = ok (s.close w client_socket)
  server_round printf more client_socket stdout (some []) w =
      ok (s.close (printf disconnected_text w) client_socket)
  server_round printf more client_socket stdout (some (b ∷ bs)) w =
      more (s.write w stdout (b ∷ bs)).1

  -- The loop of server over recv, and the close behind it.
  unfoldable pub server_loop : (Bytes → W → W) → ℕ → ℕ → ℕ → W → Result W
  server_loop printf zero client_socket stdout w = fault no_rounds
  server_loop printf (suc fuel) client_socket stdout w =
      let got = s.read w client_socket buffer_size in
      server_round printf (λ w'. server_loop printf fuel client_socket stdout w') client_socket
        stdout got.0 got.1

  -- What server does with a connection that it has accepted.
  unfoldable pub server : (Bytes → W → W) → ℕ → ℕ → ℕ → W → Result W
  server printf fuel client_socket stdout w = do
    w' ← server_loop printf fuel client_socket stdout (printf connected_text w)
    ok (printf waiting_text w')
