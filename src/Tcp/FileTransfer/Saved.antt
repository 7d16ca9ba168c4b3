-- ===== src/Tcp/FileTransfer/Saved.antt =====
-- What the client saves of a response that arrives whole.
use mathlib.Core.List.{append_assoc, append-nil}
use computer_network.Prelude.{
  ℕ, zero, suc, ◌+◌, ◌-◌, ◌≤◌, ◌<◌, ◌≡◌, ◌≢◌, refl, sym, ap, ◌∙◌, List, [], ◌∷◌, ◌++◌, Option, some,
  arith, length, length-append, take_all, false, true, min, All, All-append,
}
use computer_network.Prelude.Text.{c_string}
use computer_network.Prelude.Text.Laws.{c_string-All}
use computer_network.Prelude.Result.{ok}
use computer_network.Tcp.Segment.{Bytes}
use computer_network.Tcp.Queue.Stream.{bytes_of}
use computer_network.Tcp.Wire.Stream.{append_split}
use computer_network.Tcp.Queue.{moving}
use computer_network.Tcp.Api.{Mysock, returned, myread}
use computer_network.Tcp.Api.Reads.{IsSending, myread-IsSending}
use computer_network.Tcp.FileTransfer.{
  Store, write_out, got_line, get_nvt_line, length_text, save_loop, saved, receive_answer, response,
}
use computer_network.Tcp.FileTransfer.Lines.{get_nvt_line-line, cut_last-append}

-- A file that opens, and takes all bytes that are written.
pub record IsWritten (store : Store) : Type 0 where
  pub loud : store.quiet ≡ false
  pub opened : store.opens ≡ true
  pub whole : (file bytes : Bytes) → store.fwrite file bytes ≡ some (length bytes)

write_out_whole :
    (store : Store) (file bytes : Bytes)
    → IsWritten store
    → write_out store file bytes false ≡ (file ++ bytes, false)
unfolding write_out
write_out_whole store file bytes w =
    ground (arith, w.loud, w.whole file bytes, take_all (length bytes) bytes (omega arith))

save_loop_run :
    (store : Store) (fuel left n : ℕ) (ctx ctx1 : Mysock) (file bytes : Bytes)
    → IsWritten store
    → myread moving (some ctx) (min (suc left) 1000) ≡ ok (returned n, bytes, some ctx1)
    → 0 < n
    → save_loop moving store (suc fuel) (suc left) ctx file false
      ≡ save_loop moving store fuel (suc left - n) ctx1 (file ++ bytes) false
unfolding save_loop
save_loop_run store fuel left zero ctx ctx1 file bytes w got some_byte = absurd (omega arith)
save_loop_run store fuel left (suc n) ctx ctx1 file bytes w got some_byte =
    rw (save_loop, got)
      (ap (λ out. save_loop moving store fuel (suc left - suc n) ctx1 out.0 out.1)
        (write_out_whole store file bytes w))

-- The bytes that the length announces are saved, if they arrive.
save_loop-saved :
    (store : Store) (fuel left : ℕ) (ctx : Mysock) (packets after : List Bytes)
    (file content rest : Bytes)
    → IsWritten store
    → IsSending ctx packets after
    → bytes_of packets ≡ content ++ rest
    → length content ≡ left
    → left ≤ fuel
    → (ctx' : Mysock) × (save_loop moving store fuel left ctx file false
        ≡ ok (0, file ++ content, false, ctx'))
unfolding save_loop
save_loop-saved store fuel zero ctx packets after file [] rest w s e l h =
    (ctx, ap (λ t. ok (0, t, false, ctx)) (sym (append-nil file)))
save_loop-saved store fuel zero ctx packets after file (x ∷ xs) rest w s e l h =
    absurd (omega arith)
save_loop-saved store fuel (suc left) ctx packets after file [] rest w s e l h =
    absurd (omega arith)
save_loop-saved store zero (suc left) ctx packets after file (x ∷ xs) rest w s e l h =
    absurd (omega arith)
save_loop-saved store (suc fuel) (suc left) ctx [] after file (x ∷ xs) rest w s e l h =
    absurd (ground (arith, e))
save_loop-saved store (suc fuel) (suc left) ctx (d ∷ ds) after file (x ∷ xs) rest w s e l h =
    let (bytes, more, ctx1, got, s1, some_byte, small, flow) =
      myread-IsSending ctx d ds after (min (suc left) 1000) s (omega arith) in
    let (mid, content_is, e1) =
      append_split bytes (bytes_of more) (x ∷ xs) rest (flow ∙ e) (omega arith) in
    let (ctx', run) =
      save_loop-saved store fuel (suc left - length bytes) ctx1 more after (file ++ bytes) mid rest
        w s1 e1 (omega (arith, ap length content_is, length-append bytes mid, l)) (omega arith) in
    let whole : (file ++ bytes) ++ mid ≡ file ++ x ∷ xs =
      append_assoc file bytes mid ∙ ap (λ t. file ++ t) (sym content_is) in
    (
      ctx',
      save_loop_run store fuel left (length bytes) ctx ctx1 file bytes w got some_byte
          ∙ run
          ∙ ap (λ t. ok (0, t, false, ctx')) whole,
    )

-- A text that stands between the commas of a line: no comma, no NUL and no carriage return.
pub record IsPlain (s : Bytes) : Type 0 where
  pub no_comma : All (λ b. b ≢ 44) s
  pub no_nul : All (λ b. b ≢ 0) s
  pub no_return : All (λ b. b ≢ 13) s

-- A name of a file; it may have commas.
pub record IsName (s : Bytes) : Type 0 where
  pub no_nul : All (λ b. b ≢ 0) s
  pub no_return : All (λ b. b ≢ 13) s

abbrev line_of : Bytes → Bytes → Bytes → Bytes
line_of name number text = name ++ 44 ∷ number ++ 44 ∷ text

length_text_lem :
    (name number text : Bytes)
    → IsPlain number
    → IsPlain text
    → length_text (line_of name number text) ≡ some number
unfolding length_text
length_text_lem name number text n t =
    rw
      (
        length_text,
        cut_last-append 44 (name ++ 44 ∷ number) text t.no_comma,
        cut_last-append 44 name number n.no_comma,
      )
      refl

All-line_of :
    (P : ℕ → Type 0) (name number text : Bytes)
    → P 44
    → All P name
    → All P number
    → All P text
    → All P (line_of name number text)
All-line_of P name number text comma h1 h2 h3 =
    All-append P (name ++ 44 ∷ number) (44 ∷ text) (All-append P name (44 ∷ number) h1 (comma, h2))
      (comma, h3)

receive_answer_run :
    (store : Store) (scan : Bytes → Option ℕ) (fuel n : ℕ) (ctx ctx1 ctx' : Mysock)
    (line number content : Bytes)
    → get_nvt_line moving fuel 1000 ctx ≡ ok (got_line line, ctx1)
    → c_string line ≡ line
    → length_text line ≡ some number
    → scan number ≡ some n
    → store.opens ≡ true
    → save_loop moving store fuel n ctx1 [] false ≡ ok (0, content, false, ctx')
    → receive_answer moving store scan fuel ctx ≡ ok (saved content false, ctx')
unfolding receive_answer
receive_answer_run store scan fuel n ctx ctx1 ctx' line number content got text cut scanned opens
      run =
    ground (arith, got, text, cut, scanned, opens, run)

-- A client to which the line of a response and the bytes of a file come, in packets of any sizes,
-- saves the file: the name in the line may have commas, the line is shorter than 1000 characters,
-- and sscanf reads the number of bytes that was printed.
pub receive_answer-saved :
    (store : Store) (scan : Bytes → Option ℕ) (fuel : ℕ) (ctx : Mysock) (packets after : List Bytes)
    (name number text content : Bytes)
    → IsWritten store
    → IsSending ctx packets after
    → bytes_of packets ≡ response name number text ++ content
    → IsName name
    → IsPlain number
    → IsPlain text
    → scan number ≡ some (length content)
    → length name + length number + length text < 998
    → 1002 + length content ≤ fuel
    → (ctx' : Mysock) × (receive_answer moving store scan fuel ctx ≡ ok (saved content false, ctx'))
unfolding response
receive_answer-saved store scan fuel ctx packets after name number text content w s e h1 h2 h3
      scanned room enough =
    let line = line_of name number text in
    let size : length line ≡ length name + length number + length text + 2 =
      omega (
        arith,
        length-append (name ++ 44 ∷ number) (44 ∷ text),
        length-append name (44 ∷ number),
      ) in
    let flow : bytes_of packets ≡ line ++ 13 ∷ 10 ∷ content =
      e ∙ append_assoc line (13 ∷ 10 ∷ []) content in
    let (left, ctx1, got, s1, e1) =
      get_nvt_line-line fuel 1000 ctx packets after line content s flow
        (All-line_of (λ b. b ≢ 13) name number text (λ k. omega arith) h1.no_return h2.no_return
          h3.no_return)
        (omega (arith, size)) (omega (arith, size)) in
    let (ctx', run) =
      save_loop-saved store fuel (length content) ctx1 left after [] content [] w s1
        (e1 ∙ sym (append-nil content)) refl (omega arith) in
    (
      ctx',
      receive_answer_run store scan fuel (length content) ctx ctx1 ctx' line number content got
          (c_string-All line (
            All-line_of (λ b. b ≢ 0) name number text (λ k. omega arith) h1.no_nul h2.no_nul
              h3.no_nul))
          (length_text_lem name number text h2 h3) scanned w.opened run,
    )
