-- ===== src/Socket/Examples.antt =====
-- Three bytes from the client's input to the server's output, on streams that are lists.
use computer_network.Prelude.{
  ℕ, ◌≡◌, ◌≢◌, refl, true, [], ◌∷◌, ◌++◌, Option, none, some, length, arith,
}
use computer_network.Prelude.Result.{ok}
use computer_network.Tcp.Segment.{Bytes}
use computer_network.Tcp.Wire.{Sockets}
use computer_network.Socket.{connected_text, disconnected_text, waiting_text, client, server}
use computer_network.Socket.Copies.{IsSource, IsSink, server-client}

-- What waits to be read, and what was written.
abbrev Ends : Type 0
Ends = Bytes × Bytes

abbrev waiting : Ends → Bytes
waiting w = w.0

abbrev written : Ends → Bytes
written w = w.1

abbrev read_one : Bytes → Bytes → Option Bytes × Ends
read_one [] out = (some [], ([], out))
read_one (b ∷ bs) out = (some (b ∷ []), (bs, out))

abbrev end_sockets : Sockets Ends
end_sockets = record {
  read = λ w sd n. read_one w.0 w.1;
  write = λ w sd src. (some (length src), (w.0, w.1 ++ src));
  connect = λ w sd addr. (true, w);
  accept = λ w sd. (none, w);
  close = λ w sd. w;
}

reads_one :
    (bs out : Bytes)
    → bs ≢ []
    → (b : ℕ) × (cs : Bytes) × (w' : Ends) × (read_one bs out ≡ (some (b ∷ cs), w'))
      × (bs ≡ (b ∷ cs) ++ waiting w')
      × (written w' ≡ out)
reads_one [] out some_left = absurd (some_left refl)
reads_one (b ∷ bs) out some_left = (b, [], (bs, out), refl, refl, refl)

reads_end :
    (bs out : Bytes)
    → bs ≡ []
    → (w' : Ends) × (read_one bs out ≡ (some [], w')) × (written w' ≡ out)
reads_end [] out e = (([], out), refl, refl)
reads_end (b ∷ bs) out e = absurd (ground (arith, e))

end_sockets-IsSource : (sd : ℕ) → IsSource end_sockets sd waiting written
end_sockets-IsSource sd = ((λ w n h. reads_one w.0 w.1), (λ w n. reads_end w.0 w.1))

end_sockets-IsSink : (sd : ℕ) → IsSink end_sockets sd waiting written
end_sockets-IsSink sd w src = ((w.0, w.1 ++ src), refl, refl, refl)

abbrev print_text : Bytes → Ends → Ends
print_text text w = (w.0, w.1 ++ text)

server-client_example :
    (w' : Ends) × (client end_sockets 4 0 3 (7 ∷ 8 ∷ 9 ∷ [], []) ≡ ok (0, w'))
    × (7 ∷ 8 ∷ 9 ∷ [] ≡ written w'
        → (v' : Ends) × (server end_sockets print_text 4 4 1 (7 ∷ 8 ∷ 9 ∷ [], 5 ∷ []) ≡ ok v')
          × (written v'
              ≡ (((5 ∷ connected_text) ++ (7 ∷ 8 ∷ 9 ∷ [])) ++ disconnected_text) ++ waiting_text))
server-client_example =
    server-client end_sockets end_sockets print_text waiting written waiting written 0 3 4 1
      (end_sockets-IsSource 0) (end_sockets-IsSink 3) (λ w. refl) (λ text w. (refl, refl))
      (end_sockets-IsSource 4) (end_sockets-IsSink 1) (λ w. refl) 4 (7 ∷ 8 ∷ 9 ∷ [], [])
      (7 ∷ 8 ∷ 9 ∷ [], 5 ∷ []) refl (omega arith)
