-- ===== src/Tcp/Wire/Stream.antt =====
-- _tcp_io on a stream that read empties and write extends, however many bytes each call moves.
use mathlib.Core.List.{append_assoc, append-nil}
use computer_network.Prelude.{
  ℕ, zero, suc, ◌+◌, ◌≤◌, ◌<◌, ◌≡◌, ◌≢◌, refl, sym, ap, subst, ◌∙◌, inl, inr, List-cases, List, [],
  ◌∷◌, ◌++◌, some, arith, true, length, take, drop, length-append, length-drop, take-append-drop,
  leb,
}
use computer_network.Prelude.Buffer.{slice, patch, slice-patch_self, length-patch}
use computer_network.Prelude.Result.{ok}
use computer_network.Tcp.Segment.{Bytes}
use computer_network.Tcp.Wire.{Sockets, IoDone, read_io, write_io, io_round, tcp_io_loop}

-- read(2) on a blocking socket with bytes to come: some of the first of them, no more than asked.
abbrev pub IsReader : {W : Type 0} → Sockets W → ℕ → (W → Bytes) → Type 0
IsReader {W} s sd incoming =
    (w : W) (n : ℕ)
    → 0 < n
    → incoming w ≢ []
    → (bytes : Bytes) × (w' : W) × (s.read w sd n ≡ (some bytes, w'))
      × (0 < length bytes)
      × (length bytes ≤ n)
      × (incoming w ≡ bytes ++ incoming w')

-- write(2): some of the first bytes go behind those that are on the way.
abbrev pub IsWriter : {W : Type 0} → Sockets W → ℕ → (W → Bytes) → Type 0
IsWriter {W} s sd outgoing =
    (w : W) (src : Bytes)
    → 0 < length src
    → (n : ℕ) × (w' : W) × (s.write w sd src ≡ (some n, w'))
      × (0 < n)
      × (n ≤ length src)
      × (outgoing w' ≡ outgoing w ++ take n src)

-- read(2) at the end of the stream.
abbrev pub IsEnding : {W : Type 0} → Sockets W → ℕ → (W → Bytes) → Type 0
IsEnding {W} s sd incoming =
    (w : W) (n : ℕ)
    → incoming w ≡ []
    → (w' : W) × (s.read w sd n ≡ (some [], w')) × (incoming w' ≡ [])

-- A shorter front of the same list.
pub append_split :
    {A : Type 0} (xs ys us vs : List A)
    → xs ++ ys ≡ us ++ vs
    → length xs ≤ length us
    → (mid : List A) × (us ≡ xs ++ mid) × (ys ≡ mid ++ vs)
append_split [] ys us vs e h = (us, refl, e)
append_split (x ∷ xs) ys [] vs e h = absurd (omega arith)
append_split (x ∷ xs) ys (u ∷ us) vs e h =
    let (mid, e1, e2) = append_split xs ys us vs (ground (arith, e)) (omega arith) in
    (mid, ground (arith, e, e1), e2)

module _ {W : Type 0} (io_func : W → Bytes → IoDone W) where
  -- A round that moves n bytes.
  tcp_io_loop_run :
      (count fuel n : ℕ) (w w1 : W) (b : ℕ) (bs buf1 : Bytes) (rest : IoDone W)
      → io_func w (b ∷ bs) ≡ record { rc = some n; buf = buf1; world = w1 }
      → 0 < n
      → n ≤ length (b ∷ bs)
      → tcp_io_loop io_func count fuel w1 (drop n buf1) ≡ ok rest
      → tcp_io_loop io_func count (suc fuel) w (b ∷ bs)
        ≡ ok (record rest { buf = take n buf1 ++ rest.buf })
  unfolding tcp_io_loop io_round
  tcp_io_loop_run count fuel zero w w1 b bs buf1 rest step moves fits run = absurd (omega arith)
  tcp_io_loop_run count fuel (suc n) w w1 b bs buf1 rest step moves fits run =
      let exact : leb (suc n) (length (b ∷ bs)) ≡ true = ground arith in
      rw (tcp_io_loop, step, io_round, exact, run) refl

  -- A round in which the end of the stream is read.
  tcp_io_loop_end :
      (count fuel : ℕ) (w w1 : W) (b : ℕ) (bs buf1 : Bytes)
      → io_func w (b ∷ bs) ≡ record { rc = some 0; buf = buf1; world = w1 }
      → tcp_io_loop io_func count (suc fuel) w (b ∷ bs)
        ≡ ok (record { rc = some 0; buf = buf1; world = w1 })
  unfolding tcp_io_loop io_round
  tcp_io_loop_end count fuel w w1 b bs buf1 step = rw (tcp_io_loop, step) refl

-- A buffer that the stream can fill holds its first bytes.
pub tcp_io_loop-read :
    {W : Type 0} (s : Sockets W) (sd : ℕ) (incoming : W → Bytes)
    → IsReader s sd incoming
    → (count fuel : ℕ) (w : W) (buf front rest : Bytes) → incoming w ≡ front ++ rest
    → length front ≡ length buf
    → length buf ≤ fuel
    → (w' : W) × (tcp_io_loop (read_io s sd) count fuel w buf
        ≡ ok (record { rc = some count; buf = front; world = w' }))
      × (incoming w' ≡ rest)
unfolding tcp_io_loop slice
tcp_io_loop-read s sd incoming reader count fuel w [] [] rest e l h = (w, refl, e)
tcp_io_loop-read s sd incoming reader count fuel w [] (x ∷ xs) rest e l h = absurd (omega arith)
tcp_io_loop-read s sd incoming reader count fuel w (b ∷ bs) [] rest e l h = absurd (omega arith)
tcp_io_loop-read s sd incoming reader count zero w (b ∷ bs) front rest e l h = absurd (omega arith)
tcp_io_loop-read s sd incoming reader count (suc fuel) w (b ∷ bs) (x ∷ xs) rest e l h =
    let (bytes, w1, got, moves, fits, flow) =
      reader w (length (b ∷ bs)) (omega arith) (λ k. ground (arith, k, e)) in
    let n = length bytes in
    let buf1 = patch 0 bytes (b ∷ bs) in
    let (mid, front_is, more) =
      append_split bytes (incoming w1) (x ∷ xs) rest (sym flow ∙ e) (omega arith) in
    let size : length mid ≡ length (drop n buf1) = omega (
      arith,
      length-append bytes mid,
      ap length front_is,
      l,
      length-drop n buf1,
      length-patch 0 bytes (b ∷ bs),
    ) in
    let (w', run, left) =
      tcp_io_loop-read s sd incoming reader count fuel w1 (drop n buf1) mid rest more size
        (omega (arith, length-drop n buf1, length-patch 0 bytes (b ∷ bs))) in
    let front : take n buf1 ++ mid ≡ x ∷ xs =
      ap (λ t. t ++ mid) (slice-patch_self 0 n bytes (b ∷ bs) refl (omega arith)) ∙ sym front_is in
    (
      w',
      subst
          (λ t.
            tcp_io_loop (read_io s sd) count (suc fuel) w (b ∷ bs)
            ≡ ok (record { rc = some count; buf = t; world = w' }))
          front
          (tcp_io_loop_run (read_io s sd) count fuel n w w1 b bs buf1
            (record { rc = some count; buf = mid; world = w' }) (rw got refl) moves fits run),
      left,
    )

-- A stream that ends before the buffer is full is read to its end, and the call returns 0.
pub tcp_io_loop-read_end :
    {W : Type 0} (s : Sockets W) (sd : ℕ) (incoming : W → Bytes)
    → IsReader s sd incoming
    → IsEnding s sd incoming
    → (count fuel : ℕ) (w : W) (buf : Bytes) → length (incoming w) < length buf
    → length buf ≤ fuel
    → (buf' : Bytes) × (w' : W) × (tcp_io_loop (read_io s sd) count fuel w buf
        ≡ ok (record { rc = some 0; buf = buf'; world = w' }))
      × (incoming w' ≡ [])
unfolding tcp_io_loop slice
tcp_io_loop-read_end s sd incoming reader ending count fuel w [] short h = absurd (omega arith)
tcp_io_loop-read_end s sd incoming reader ending count zero w (b ∷ bs) short h =
    absurd (omega arith)
tcp_io_loop-read_end s sd incoming reader ending count (suc fuel) w (b ∷ bs) short h =
    elim (List-cases (incoming w)) [
      | inl done ↦
          let (w1, got, over) = ending w (length (b ∷ bs)) done in
          (
            patch 0 [] (b ∷ bs),
            w1,
            tcp_io_loop_end (read_io s sd) count fuel w w1 b bs (patch 0 [] (b ∷ bs)) (rw got refl),
            over,
          )
      | inr more ↦
          let (bytes, w1, got, moves, fits, flow) = reader w (length (b ∷ bs)) (omega arith) more in
          let n = length bytes in
          let buf1 = patch 0 bytes (b ∷ bs) in
          let same_size = length-patch 0 bytes (b ∷ bs) in
          let used : length (incoming w) ≡ n + length (incoming w1) =
            ap length flow ∙ length-append bytes (incoming w1) in
          let (buf', w', run, over) =
            tcp_io_loop-read_end s sd incoming reader ending count fuel w1 (drop n buf1)
              (omega (arith, length-drop n buf1, same_size, used))
              (omega (arith, length-drop n buf1, same_size)) in
          (
            take n buf1 ++ buf',
            w',
            tcp_io_loop_run (read_io s sd) count fuel n w w1 b bs buf1
                (record { rc = some 0; buf = buf'; world = w' }) (rw got refl) moves fits run,
            over,
          )
    ]

-- All that is in the buffer goes out, in order.
pub tcp_io_loop-write :
    {W : Type 0} (s : Sockets W) (sd : ℕ) (outgoing : W → Bytes)
    → IsWriter s sd outgoing
    → (count fuel : ℕ) (w : W) (src : Bytes) → length src ≤ fuel
    → (w' : W) × (tcp_io_loop (write_io s sd) count fuel w src
        ≡ ok (record { rc = some count; buf = src; world = w' }))
      × (outgoing w' ≡ outgoing w ++ src)
unfolding tcp_io_loop
tcp_io_loop-write s sd outgoing writer count fuel w [] h = (w, refl, sym (append-nil (outgoing w)))
tcp_io_loop-write s sd outgoing writer count zero w (b ∷ bs) h = absurd (omega arith)
tcp_io_loop-write s sd outgoing writer count (suc fuel) w (b ∷ bs) h =
    let (n, w1, got, moves, fits, flow) = writer w (b ∷ bs) (omega arith) in
    let (w', run, more) =
      tcp_io_loop-write s sd outgoing writer count fuel w1 (drop n (b ∷ bs))
        (omega (arith, length-drop n (b ∷ bs))) in
    let whole = take-append-drop n (b ∷ bs) in
    (
      w',
      subst
          (λ t.
            tcp_io_loop (write_io s sd) count (suc fuel) w (b ∷ bs)
            ≡ ok (record { rc = some count; buf = t; world = w' }))
          (sym whole)
          (tcp_io_loop_run (write_io s sd) count fuel n w w1 b bs (b ∷ bs)
            (record { rc = some count; buf = drop n (b ∷ bs); world = w' }) (rw got refl) moves fits
            run),
      more
          ∙ ap (λ t. t ++ drop n (b ∷ bs)) flow
          ∙ append_assoc (outgoing w) (take n (b ∷ bs)) (drop n (b ∷ bs))
          ∙ ap (λ t. outgoing w ++ t) (sym whole),
    )
