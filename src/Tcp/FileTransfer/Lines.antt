-- ===== src/Tcp/FileTransfer/Lines.antt =====
-- get_nvt_line on a connection that brings a line, and the commas of a response.
use mathlib.Core.List.{append_assoc, append-nil}
use computer_network.Prelude.{
  ℕ, zero, suc, ◌+◌, ◌-◌, ◌≤◌, ◌<◌, ◌≡◌, ◌≢◌, refl, sym, ap, ◌∙◌, true, false, ◌&&◌, List, [], ◌∷◌,
  ◌++◌, none, some, arith, length, length-append, take, All, ltb, ◌==◌,
}
use computer_network.Prelude.Text.Laws.{take-append}
use computer_network.Prelude.Result.{ok}
use computer_network.Tcp.Segment.{Bytes}
use computer_network.Tcp.Queue.Stream.{bytes_of}
use computer_network.Tcp.Queue.{moving}
use computer_network.Tcp.Api.{Mysock, returned, myread}
use computer_network.Tcp.Api.Reads.{IsSending, myread-IsSending}
use computer_network.Tcp.FileTransfer.{
  got_line, next_char, next_read, nvt_loop, get_nvt_line, cut_last,
}

one_byte :
    (bytes ys rest : Bytes) (b : ℕ)
    → 0 < length bytes
    → length bytes ≤ 1
    → bytes ++ ys ≡ b ∷ rest
    → (bytes ≡ b ∷ []) × (ys ≡ rest)
one_byte [] ys rest b some_byte small e = absurd (omega arith)
one_byte (x ∷ []) ys rest b some_byte small e = (ground (arith, e), ground (arith, e))
one_byte (x ∷ y ∷ bytes) ys rest b some_byte small e = absurd (omega arith)

-- A read of one character gives the next byte.
pub read_one :
    (ctx : Mysock) (packets after : List Bytes) (b : ℕ) (rest : Bytes)
    → IsSending ctx packets after
    → bytes_of packets ≡ b ∷ rest
    → (left : List Bytes) × (ctx' : Mysock) × (myread moving (some ctx) 1
        ≡ ok (returned 1, b ∷ [], some ctx'))
      × IsSending ctx' left after
      × (bytes_of left ≡ rest)
read_one ctx [] after b rest s e = absurd (ground (arith, e))
read_one ctx (d ∷ ds) after b rest s e =
    let (bytes, left, ctx', got, s', some_byte, small, flow) =
      myread-IsSending ctx d ds after 1 s (omega arith) in
    let (same, more) = one_byte bytes (bytes_of left) rest b some_byte small (flow ∙ e) in
    (left, ctx', got ∙ ap (λ t. ok (returned (length t), t, some ctx')) same, s', more)

-- A character that does not end the line.
pub nvt_loop_more :
    (fuel size last_char b : ℕ) (line : Bytes) (ctx ctx1 : Mysock)
    → myread moving (some ctx) 1 ≡ ok (returned 1, b ∷ [], some ctx1)
    → (last_char == 13 && b == 10) ≡ false
    → length line < size
    → nvt_loop moving (suc fuel) size line last_char ctx
      ≡ nvt_loop moving fuel size (line ++ b ∷ []) b ctx1
unfolding nvt_loop next_read next_char
nvt_loop_more fuel size last_char b line ctx ctx1 got inside room =
    let fits : ltb (length line) size ≡ true = ground arith in
    rw (nvt_loop, got, next_read, next_char, inside, fits) refl

nvt_loop_end :
    (fuel size : ℕ) (line : Bytes) (ctx ctx1 : Mysock)
    → myread moving (some ctx) 1 ≡ ok (returned 1, 10 ∷ [], some ctx1)
    → nvt_loop moving (suc fuel) size line 13 ctx
      ≡ ok (got_line (take (length line - 1) line), ctx1)
unfolding nvt_loop next_read next_char
nvt_loop_end fuel size line ctx ctx1 got = rw (nvt_loop, got) refl

-- The characters up to the end of the line are put behind those that are in the buffer.
nvt_loop-line :
    (fuel size last_char : ℕ) (ctx : Mysock) (packets after : List Bytes) (line text rest : Bytes)
    → IsSending ctx packets after
    → bytes_of packets ≡ text ++ 13 ∷ 10 ∷ rest
    → All (λ b. b ≢ 13) text
    → last_char ≢ 13
    → length line + length text + 1 ≤ size
    → length text + 2 ≤ fuel
    → (left : List Bytes) × (ctx' : Mysock) × (nvt_loop moving fuel size line last_char ctx
        ≡ ok (got_line (line ++ text), ctx'))
      × IsSending ctx' left after
      × (bytes_of left ≡ rest)
nvt_loop-line zero size last_char ctx packets after line text rest s e h k room enough =
    absurd (omega arith)
nvt_loop-line (suc zero) size last_char ctx packets after line [] rest s e h k room enough =
    absurd (omega arith)
nvt_loop-line (suc (suc fuel)) size last_char ctx packets after line [] rest s e h k room enough =
    let (left, ctx1, got, s1, e1) = read_one ctx packets after 13 (10 ∷ rest) s e in
    let (left', ctx2, got', s2, e2) = read_one ctx1 left after 10 rest s1 e1 in
    let cut : take (length (line ++ 13 ∷ []) - 1) (line ++ 13 ∷ []) ≡ line ++ [] =
      take-append _ line (13 ∷ []) (omega (arith, length-append line (13 ∷ [])))
      ∙ sym (append-nil line) in
    (
      left',
      ctx2,
      nvt_loop_more (suc fuel) size last_char 13 line ctx ctx1 got (ground arith) (omega arith)
          ∙ nvt_loop_end fuel size (line ++ 13 ∷ []) ctx1 ctx2 got'
          ∙ ap (λ t. ok (got_line t, ctx2)) cut,
      s2,
      e2,
    )
nvt_loop-line (suc fuel) size last_char ctx packets after line (b ∷ text) rest s e h k room enough =
    let (left, ctx1, got, s1, e1) = read_one ctx packets after b (text ++ 13 ∷ 10 ∷ rest) s e in
    let (left', ctx2, run, s2, e2) =
      nvt_loop-line fuel size b ctx1 left after (line ++ b ∷ []) text rest s1 e1 h.1 h.0
        (omega (arith, length-append line (b ∷ []))) (omega arith) in
    (
      left',
      ctx2,
      nvt_loop_more fuel size last_char b line ctx ctx1 got (ground (arith, k)) (omega arith)
          ∙ run
          ∙ ap (λ t. ok (got_line t, ctx2)) (append_assoc line (b ∷ []) text),
      s2,
      e2,
    )

-- A line without a carriage return in it, which fits the buffer, is read up to its end, and no
-- further.
pub get_nvt_line-line :
    (fuel size : ℕ) (ctx : Mysock) (packets after : List Bytes) (text rest : Bytes)
    → IsSending ctx packets after
    → bytes_of packets ≡ text ++ 13 ∷ 10 ∷ rest
    → All (λ b. b ≢ 13) text
    → length text < size
    → length text + 2 ≤ fuel
    → (left : List Bytes) × (ctx' : Mysock) × (get_nvt_line moving fuel size ctx
        ≡ ok (got_line text, ctx'))
      × IsSending ctx' left after
      × (bytes_of left ≡ rest)
unfolding get_nvt_line
get_nvt_line-line fuel size ctx packets after text rest s e h room enough =
    nvt_loop-line fuel size 0 ctx packets after [] text rest s e h (λ k. omega arith) (omega arith)
      enough

cut_last-none : (c : ℕ) (s : Bytes) → All (λ b. b ≢ c) s → cut_last c s ≡ none
unfolding cut_last
cut_last-none c [] h = refl
cut_last-none c (b ∷ bs) h = ground (arith, cut_last-none c bs h.1, h.0)

-- The last `c` of a text.
pub cut_last-append :
    (c : ℕ) (front back : Bytes)
    → All (λ b. b ≢ c) back
    → cut_last c (front ++ c ∷ back) ≡ some (front, back)
unfolding cut_last
cut_last-append c [] back h = ground (arith, cut_last-none c back h)
cut_last-append c (b ∷ front) back h = rw (cut_last, cut_last-append c front back h) refl
