-- ===== src/Tcp/Wire/Bytewise.antt =====
-- A stream on which each call moves one byte, for tests of the code on network_io_tcp.c.
use computer_network.Prelude.{
  ℕ, zero, suc, refl, true, false, [], ◌∷◌, ◌++◌, Option, none, some, arith,
}
use computer_network.Tcp.Segment.{Bytes}
use computer_network.Tcp.Wire.{Sockets, NetworkContext}
use computer_network.Tcp.Wire.Stream.{IsReader, IsWriter, IsEnding}
use computer_network.Tcp.Wire.RoundTrip.{IsConnected}

abbrev read_byte : Bytes → ℕ → Option Bytes × Bytes
read_byte [] n = (some [], [])
read_byte (b ∷ bs) zero = (some [], b ∷ bs)
read_byte (b ∷ bs) (suc n) = (some (b ∷ []), bs)

abbrev write_byte : Bytes → Bytes → Option ℕ × Bytes
write_byte w [] = (some 0, w)
write_byte w (b ∷ bs) = (some 1, w ++ b ∷ [])

abbrev pub byte_sockets : Sockets Bytes
byte_sockets = record {
  read = λ w sd n. read_byte w n;
  write = λ w sd src. write_byte w src;
  connect = λ w sd addr. (true, w);
  accept = λ w sd. (none, w);
  close = λ w sd. w;
}

abbrev pub whole : Bytes → Bytes
whole w = w

pub byte_sockets-IsReader : IsReader byte_sockets 3 whole
byte_sockets-IsReader [] n h some_byte = absurd (some_byte refl)
byte_sockets-IsReader (b ∷ bs) zero h some_byte = absurd (omega arith)
byte_sockets-IsReader (b ∷ bs) (suc n) h some_byte =
    (b ∷ [], bs, refl, omega arith, omega arith, refl)

pub byte_sockets-IsWriter : IsWriter byte_sockets 4 whole
byte_sockets-IsWriter w [] h = absurd (omega arith)
byte_sockets-IsWriter w (b ∷ bs) h = (1, w ++ b ∷ [], refl, omega arith, omega arith, refl)

pub byte_sockets-IsEnding : IsEnding byte_sockets 3 whole
byte_sockets-IsEnding [] n e = ([], refl, refl)
byte_sockets-IsEnding (b ∷ bs) n e = absurd (ground (arith, e))

abbrev pub connected_context : ℕ → NetworkContext
connected_context sd = record {
  peer_addr = record { sa_family = 2; sin_port = 80; sin_addr = 1 };
  peer_addr_len = 16;
  peer_addr_valid = true;
  socket = some sd;
  new_socket = none;
  connected = true;
  is_active = true;
  listening = false;
}

pub connected_context-IsConnected : (sd : ℕ) → IsConnected (connected_context sd) sd
connected_context-IsConnected sd = record {
  here = refl;
  joined = refl;
  single = refl;
  peer = omega arith;
}
