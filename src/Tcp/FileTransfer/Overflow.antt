-- ===== src/Tcp/FileTransfer/Overflow.antt =====
-- get_nvt_line on a line that is longer than its buffer.
use computer_network.Prelude.{
  ℕ, zero, suc, ◌+◌, ◌≤◌, ◌<◌, ◌≡◌, ◌≢◌, refl, ◌∙◌, false, inl, inr, Bool-cases, ◌&&◌, List, [],
  ◌∷◌, ◌++◌, some, arith, length, length-append, All, ltb, ◌==◌,
}
use computer_network.Prelude.Result.{ok, fault, out_of_bounds}
use computer_network.Tcp.Segment.{Bytes}
use computer_network.Tcp.Queue.Stream.{bytes_of}
use computer_network.Tcp.Queue.{moving}
use computer_network.Tcp.Api.{Mysock, returned, myread}
use computer_network.Tcp.Api.Reads.{IsSending}
use computer_network.Tcp.FileTransfer.{next_char, next_read, nvt_loop, get_nvt_line}
use computer_network.Tcp.FileTransfer.Lines.{read_one, nvt_loop_more}

nvt_loop_full :
    (fuel size last_char b : ℕ) (line : Bytes) (ctx ctx1 : Mysock)
    → myread moving (some ctx) 1 ≡ ok (returned 1, b ∷ [], some ctx1)
    → (last_char == 13 && b == 10) ≡ false
    → size ≤ length line
    → nvt_loop moving (suc fuel) size line last_char ctx ≡ fault out_of_bounds
unfolding nvt_loop next_read next_char
nvt_loop_full fuel size last_char b line ctx ctx1 got inside full =
    let over : ltb (length line) size ≡ false = ground arith in
    rw (nvt_loop, got, next_read, next_char, inside, over) refl

nvt_loop-long :
    (fuel size last_char : ℕ) (ctx : Mysock) (packets after : List Bytes) (line text rest : Bytes)
    → IsSending ctx packets after
    → bytes_of packets ≡ text ++ rest
    → All (λ b. b ≢ 13) text
    → last_char ≢ 13
    → size < length line + length text
    → length line ≤ size
    → length text ≤ fuel
    → nvt_loop moving fuel size line last_char ctx ≡ fault out_of_bounds
nvt_loop-long fuel size last_char ctx packets after line [] rest s e h k long room enough =
    absurd (omega arith)
nvt_loop-long zero size last_char ctx packets after line (b ∷ text) rest s e h k long room enough =
    absurd (omega arith)
nvt_loop-long (suc fuel) size last_char ctx packets after line (b ∷ text) rest s e h k long room
      enough =
    let (left, ctx1, got, s1, e1) = read_one ctx packets after b (text ++ rest) s e in
    elim (Bool-cases (ltb (length line) size)) [
      | inl inside ↦
          nvt_loop_more fuel size last_char b line ctx ctx1 got (ground (arith, k)) (ground arith)
          ∙ nvt_loop-long fuel size b ctx1 left after (line ++ b ∷ []) text rest s1 e1 h.1 h.0
              (omega (arith, length-append line (b ∷ [])))
              (ground (arith, inside, length-append line (b ∷ []))) (omega arith)
      | inr full ↦
          nvt_loop_full fuel size last_char b line ctx ctx1 got (ground (arith, k)) (ground arith)
    ]

-- More characters than the buffer of get_nvt_line holds, without a carriage return among them, make
-- it write behind the end of the buffer, where they are queued with the peer's FIN behind them and
-- memcpy moves bytes between areas that overlap: the server's has 256 of them, the client's 1000.
pub get_nvt_line-long :
    (fuel size : ℕ) (ctx : Mysock) (packets after : List Bytes) (text rest : Bytes)
    → IsSending ctx packets after
    → bytes_of packets ≡ text ++ rest
    → All (λ b. b ≢ 13) text
    → size < length text
    → length text ≤ fuel
    → get_nvt_line moving fuel size ctx ≡ fault out_of_bounds
unfolding get_nvt_line
get_nvt_line-long fuel size ctx packets after text rest s e h long enough =
    nvt_loop-long fuel size 0 ctx packets after [] text rest s e h (λ k. omega arith) (omega arith)
      (omega arith) enough
