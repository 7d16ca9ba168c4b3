-- ===== src/Tcp/Wire/Packets.antt =====
-- Packets that are sent on a stream arrive one by one, however it is cut.
use mathlib.Core.List.{append_assoc}
use computer_network.Prelude.{
  ℕ, ◌-◌, ◌/◌, ◌%◌, ◌<◌, ◌≡◌, refl, sym, ap, subst, ◌∙◌, inl, inr, Bool-cases, [], ◌∷◌, ◌++◌, some,
  arith, length, take, drop, replicate, min, take_all, drop_all, length-take, length-drop,
  length-replicate, take-append-drop, ltb, if◌then◌else◌,
}
use computer_network.Prelude.Buffer.{slice, le_bytes, le_value, load16}
use computer_network.Prelude.Result.{ok}
use computer_network.Router.Cksum.{htons}
use computer_network.Tcp.Segment.{Bytes}
use computer_network.Tcp.Wire.{
  Sockets, NetworkContext, read_io, write_io, tcp_io, send_on, discard, recv_body, recv_on,
}
use computer_network.Tcp.Wire.Stream.{IsReader, IsWriter, tcp_io_loop-read, tcp_io_loop-write}

-- A packet on the stream: its length, the high byte first, and its bytes.
abbrev pub framed : Bytes → Bytes
framed p = length p / 256 ∷ length p % 256 ∷ p

pub le_bytes-htons : (n : ℕ) → n < 65536 → le_bytes 2 (htons n) ≡ n / 256 ∷ n % 256 ∷ []
unfolding le_bytes htons
le_bytes-htons n h = ground arith

pub htons-load16 : (n : ℕ) → n < 65536 → htons (load16 0 (n / 256 ∷ n % 256 ∷ [])) ≡ n
unfolding load16 htons slice le_value
htons-load16 n h = omega arith

module _ {W : Type 0} (s : Sockets W) where
  -- _tcp_io writes all of a buffer.
  tcp_io-write :
      (sd : ℕ) (outgoing : W → Bytes)
      → IsWriter s sd outgoing
      → (w : W) (src : Bytes)
      → (w' : W) × (tcp_io (write_io s sd) w src
          ≡ ok (record { rc = some (length src); buf = src; world = w' }))
        × (outgoing w' ≡ outgoing w ++ src)
  unfolding tcp_io
  tcp_io-write sd outgoing writer w src =
      tcp_io_loop-write s sd outgoing writer (length src) (length src) w src (omega arith)

  -- _tcp_io fills all of a buffer.
  pub tcp_io-read :
      (sd : ℕ) (incoming : W → Bytes)
      → IsReader s sd incoming
      → (w : W) (buf front rest : Bytes) → incoming w ≡ front ++ rest
      → length front ≡ length buf
      → (w' : W) × (tcp_io (read_io s sd) w buf
          ≡ ok (record { rc = some (length buf); buf = front; world = w' }))
        × (incoming w' ≡ rest)
  unfolding tcp_io
  tcp_io-read sd incoming reader w buf front rest e l =
      tcp_io_loop-read s sd incoming reader (length buf) (length buf) w buf front rest e l
        (omega arith)

  pub send_on-framed :
      (sd : ℕ) (outgoing : W → Bytes)
      → IsWriter s sd outgoing
      → (ctx : NetworkContext) (w : W) (p : Bytes) → length p < 65536
      → (w' : W) × (send_on s sd ctx w p
          ≡ ok (record { status = some (length p); ctx = ctx; data_bytes = p; after = w' }))
        × (outgoing w' ≡ outgoing w ++ framed p)
  unfolding send_on
  send_on-framed sd outgoing writer ctx w p short =
      let (w1, head, e1) = tcp_io-write sd outgoing writer w (le_bytes 2 (htons (length p))) in
      let (w2, body, e2) = tcp_io-write sd outgoing writer w1 p in
      (
        w2,
        rw (head, body) refl,
        e2
            ∙ ap (λ t. t ++ p) e1
            ∙ append_assoc (outgoing w) (le_bytes 2 (htons (length p))) p
            ∙ ap (λ t. outgoing w ++ (t ++ p)) (le_bytes-htons (length p) short),
      )

  -- The bytes of a packet that do not fit are read and thrown away.
  discard_lem :
      (sd : ℕ) (incoming : W → Bytes)
      → IsReader s sd incoming
      → (w : W) (more rest : Bytes) → incoming w ≡ more ++ rest
      → (w' : W) × (discard s sd w (length more) ≡ ok w') × (incoming w' ≡ rest)
  unfolding discard
  discard_lem sd incoming reader w more rest e =
      let (w', run, left) =
        tcp_io-read sd incoming reader w (replicate (length more) 0) more rest e
          (sym (length-replicate (length more) 0)) in
      (w', rw run refl, left)

  pub recv_on_run :
      (sd : ℕ) (ctx : NetworkContext) (w w1 : W) (dst : Bytes) (n : ℕ)
      → tcp_io (read_io s sd) w (replicate 2 0)
        ≡ ok (record { rc = some 2; buf = n / 256 ∷ n % 256 ∷ []; world = w1 })
      → n < 65536
      → recv_on s sd ctx w dst ≡ recv_body s sd ctx w1 dst n
  unfolding recv_on
  recv_on_run sd ctx w w1 dst n head short = rw (recv_on, head, htons-load16 n short) refl

  recv_body_run :
      (sd : ℕ) (ctx : NetworkContext) (w w1 w2 : W) (dst front full : Bytes) (n m : ℕ)
      → tcp_io (read_io s sd) w (take (min n (length dst)) dst)
        ≡ ok (record { rc = some m; buf = front; world = w1 })
      → 0 < m
      → (if ltb (length dst) n then discard s sd w1 (n - length dst) else ok w1) ≡ ok w2
      → front ++ drop (min n (length dst)) dst ≡ full
      → recv_body s sd ctx w dst n
        ≡ ok (record { status = some n; ctx = ctx; data_bytes = full; after = w2 })
  unfolding recv_body
  recv_body_run sd ctx w w1 w2 dst front full n m body some_read rest same =
      ground (arith, body, rest, same)

  -- The first packet on the stream is received, as much of it as fits, and all of it is read.
  pub recv_on-framed :
      (sd : ℕ) (incoming : W → Bytes)
      → IsReader s sd incoming
      → (ctx : NetworkContext) (w : W) (p rest dst : Bytes) → incoming w ≡ framed p ++ rest
      → 0 < length p
      → length p < 65536
      → 0 < length dst
      → (w' : W) × (recv_on s sd ctx w dst
          ≡ ok (record {
            status = some (length p);
            ctx = ctx;
            data_bytes = take (length dst) p ++ drop (length p) dst;
            after = w';
          }))
        × (incoming w' ≡ rest)
  recv_on-framed sd incoming reader ctx w p rest dst e some_byte short room =
      let n = length p in
      let size = length dst in
      let (w1, head, e1) =
        tcp_io-read sd incoming reader w (replicate 2 0) (n / 256 ∷ n % 256 ∷ []) (p ++ rest) e
          refl in
      let start = recv_on_run sd ctx w w1 dst n head short in
      let into = take (min n size) dst in
      let filled : length into ≡ min n size = omega (arith, length-take (min n size) dst) in
      elim (Bool-cases (ltb size n)) [
        | inl longer ↦
            let least : min n size ≡ size = ground arith in
            let flow : incoming w1 ≡ take size p ++ (drop size p ++ rest) =
              e1
              ∙ ap (λ t. t ++ rest) (take-append-drop size p)
              ∙ append_assoc (take size p) (drop size p) rest in
            let (w2, body, e2) =
              tcp_io-read sd incoming reader w1 into (take size p) (drop size p ++ rest) flow
                (omega (arith, length-take size p, filled)) in
            let (w3, gone, e3) = discard_lem sd incoming reader w2 (drop size p) rest e2 in
            let thrown : discard s sd w2 (n - size) ≡ ok w3 =
              subst (λ k. discard s sd w2 k ≡ ok w3) (length-drop size p) gone in
            let full : take size p ++ drop (min n size) dst ≡ take size p ++ drop n dst =
              ap (λ t. take size p ++ t)
                (ap (λ k. drop k dst) least
                  ∙ drop_all size dst (omega arith)
                  ∙ sym (drop_all n dst (ground arith))) in
            (
              w3,
              start
                  ∙ recv_body_run sd ctx w1 w2 w3 dst (take size p) _ n (length into) body
                      (omega (arith, filled)) (ground (arith, longer, thrown)) full,
              e3,
            )
        | inr fits ↦
            let least : min n size ≡ n = ground arith in
            let (w2, body, e2) =
              tcp_io-read sd incoming reader w1 into p rest e1 (omega (arith, filled, least)) in
            let full : p ++ drop (min n size) dst ≡ take size p ++ drop n dst =
              ap (λ k. p ++ drop k dst) least
              ∙ ap (λ t. t ++ drop n dst) (sym (take_all size p (ground arith))) in
            (
              w2,
              start
                  ∙ recv_body_run sd ctx w1 w2 w2 dst p _ n (length into) body
                      (omega (arith, filled)) (ground (arith, fits)) full,
              e2,
            )
      ]
