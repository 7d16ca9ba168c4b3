-- ===== src/Tcp/FileTransfer.antt =====
-- The programs client.c and server.c on mysockets: the client sends a name, the server answers with
-- a line and the file. The calls on files, and sprintf and sscanf of a number, are parameters; the
-- prompts and prints, and the other options of the command line, are left out.
pub mod Lines
pub mod Saved
pub mod Served
pub mod Overflow
mod Examples
use computer_network.Prelude.{
  ℕ, zero, suc, ◌+◌, ◌-◌, Bool, true, false, not, ◌&&◌, ◌||◌, List, [], ◌∷◌, ◌++◌, Option, none,
  some, length, take, drop, min, ltb, leb, ◌==◌, if◌then◌else◌,
}
use computer_network.Prelude.Text.{c_string}
use computer_network.Prelude.Token.{first_byte}
use computer_network.Prelude.Result.{
  Result, ok, fault, guard, ◌>>=◌, ◌>>◌, no_rounds, out_of_bounds,
}
use computer_network.Tcp.Segment.{Bytes}
use computer_network.Tcp.Queue.{Memcpy}
use computer_network.Tcp.Api.{Mysock, Returned, failed, returned, waits, mywrite, myread}

-- What a call of get_nvt_line leaves: a line, -1, or a read that waits.
pub data Line : Type 0 where
  got_line : Bytes → Line
  no_line line_waits : Line

-- A character that is read: the end of a line, or one that is written into it.
unfoldable pub next_char :
    (Bytes → ℕ → Mysock → Result (Line × Mysock))
    → ℕ
    → Bytes
    → ℕ
    → ℕ
    → Mysock
    → Result (Line × Mysock)
next_char more size line last_char this_char ctx =
    if last_char == 13 && this_char == 10
    then ok (got_line (take (length line - 1) line), ctx)
    else (do
      guard (ltb (length line) size) out_of_bounds
      more (line ++ this_char ∷ []) this_char ctx)

-- The result of a read of one character.
unfoldable pub next_read :
    (Bytes → ℕ → Mysock → Result (Line × Mysock))
    → ℕ
    → Bytes
    → ℕ
    → Returned
    → Bytes
    → Mysock
    → Result (Line × Mysock)
next_read more size line last_char waits char ctx = ok (line_waits, ctx)
next_read more size line last_char (failed errno) char ctx = ok (no_line, ctx)
next_read more size line last_char (returned zero) char ctx = do
  guard (ltb (length line) size) out_of_bounds
  ok (got_line line, ctx)
next_read more size line last_char (returned (suc n)) char ctx =
    next_char more size line last_char (first_byte char) ctx

-- The loop of get_nvt_line, in a buffer of `size` characters; a round for each that is read.
unfoldable pub nvt_loop : Memcpy → ℕ → ℕ → Bytes → ℕ → Mysock → Result (Line × Mysock)
nvt_loop memcpy zero size line last_char ctx = fault no_rounds
nvt_loop memcpy (suc fuel) size line last_char ctx = do
  got ← myread memcpy (some ctx) 1
  next_read (λ l c ctx'. nvt_loop memcpy fuel size l c ctx') size line last_char got.0 got.1
      (elim got.2 [ none ↦ ctx | some ctx' ↦ ctx' ])

-- get_nvt_line, of client.c and of server.c.
unfoldable pub get_nvt_line : Memcpy → ℕ → ℕ → Mysock → Result (Line × Mysock)
get_nvt_line memcpy fuel size ctx = nvt_loop memcpy fuel size [] 0 ctx

-- strrchr(text, c): what is before the last `c`, and what is behind it.
unfoldable pub cut_last : ℕ → Bytes → Option (Bytes × Bytes)
cut_last c [] = none
cut_last c (b ∷ bs) = elim (cut_last c bs) [
  | some (front, back) ↦ some (b ∷ front, back)
  | none ↦ if b == c then some ([], bs) else none
]

-- The text between the last two commas of a response.
unfoldable pub length_text : Bytes → Option Bytes
length_text line = elim (cut_last 44 line) [
  | none ↦ none
  | some (front, resp) ↦ elim (cut_last 44 front) [
    | none ↦ none
    | some (name, lenstr) ↦ some lenstr
  ]
]

-- What the client has from the system: whether it is quiet, whether fopen succeeds, and what fwrite
-- does to a file that holds the first bytes with the second: none where it fails, other than by a
-- signal, and else how many it writes. After a signal it is called again, so the call that counts
-- is the last one.
pub record Store : Type 0 where
  pub quiet : Bool
  pub opens : Bool
  pub fwrite : Bytes → Bytes → Option ℕ

-- The file, and errcnd, after what a read gave is written.
unfoldable pub write_out : Store → Bytes → Bytes → Bool → Bytes × Bool
write_out store file bytes errcnd =
    if store.quiet then (file, errcnd) else elim (store.fwrite file bytes) [
      | none ↦ (file, true)
      | some n ↦ (file ++ take n bytes, errcnd)
    ]

-- The loop of the client that copies `left` bytes from the mysocket to the file: how many are
-- missing, the bytes of the file, and errcnd.
unfoldable pub save_loop :
    Memcpy → Store → ℕ → ℕ → Mysock → Bytes → Bool → Result (ℕ × Bytes × Bool × Mysock)
save_loop memcpy store fuel zero ctx file errcnd = ok (0, file, errcnd, ctx)
save_loop memcpy store zero (suc left) ctx file errcnd = fault no_rounds
save_loop memcpy store (suc fuel) (suc left) ctx file errcnd = do
  got ← myread memcpy (some ctx) (min (suc left) 1000)
  elim got.2 [
    | none ↦ ok (suc left, file, true, ctx)
    | some ctx' ↦ elim got.0 [
      | waits ↦ ok (suc left, file, errcnd, ctx')
      | failed errno ↦ ok (suc left, file, true, ctx')
      | returned n ↦ elim n [
        | zero ↦ ok (suc left, file, errcnd, ctx')
        | suc k ↦
            let out = write_out store file got.1 errcnd in
            save_loop memcpy store fuel (suc left - suc k) ctx' out.0 out.1
      ]
    ]
  ]

-- How one request of the client ends: a file, with errcnd, a file that lacks bytes, no file, an
-- error that the server reports, or a response without two commas, or none.
pub data Answer : Type 0 where
  saved : Bytes → Bool → Answer
  incomplete : Bytes → ℕ → Answer
  no_file refused malformed unanswered : Answer

-- The client once it has sent a request. `scan` is sscanf of "%d"; none for -1, the length of an
-- error.
unfoldable pub receive_answer :
    Memcpy → Store → (Bytes → Option ℕ) → ℕ → Mysock → Result (Answer × Mysock)
receive_answer memcpy store scan fuel ctx = do
  first ← get_nvt_line memcpy fuel 1000 ctx
  elim first.0 [
    | no_line ↦ ok (unanswered, first.1)
    | line_waits ↦ ok (unanswered, first.1)
    | got_line line ↦ elim (length_text (c_string line)) [
      | none ↦ ok (malformed, first.1)
      | some lenstr ↦ elim (scan lenstr) [
        | none ↦ ok (refused, first.1)
        | some length ↦ if not store.opens then ok (no_file, first.1) else (do
          rest ← save_loop memcpy store fuel length first.1 [] false
          ok (
            elim rest.0 [ zero ↦ saved rest.1 rest.2 | suc k ↦ incomplete rest.1 (suc k) ],
            rest.3,
          ))
      ]
    ]
  ]

-- isspace
abbrev pub is_space : ℕ → Bool
is_space c = c == 32 || leb 9 c && leb c 13

-- A line without the spaces at its end.
unfoldable pub strip_end : Bytes → Bytes
strip_end [] = []
strip_end (b ∷ bs) = elim (strip_end bs) [
  | [] ↦ if is_space b then [] else b ∷ []
  | c ∷ cs ↦ b ∷ c ∷ cs
]

-- The request that the client sends for a line of its input; a line that has no more than one
-- character is passed over.
unfoldable pub request_text : Bytes → Option Bytes
request_text line =
    let name = strip_end line in if ltb 1 (length name) then some (name ++ 13 ∷ 10 ∷ []) else none

-- access and open of a name, lseek and read of the open file.
pub record Files (F : Type 0) : Type 0 where
  pub can_read : F → Bytes → Bool
  pub open_file : F → Bytes → Bool × F
  pub file_size : F → ℕ
  pub read_file : F → ℕ → Option Bytes × F

-- The response: the name, the number and the text between commas.
unfoldable pub response : Bytes → Bytes → Bytes → Bytes
response line number text = line ++ 44 ∷ number ++ 44 ∷ text ++ 13 ∷ 10 ∷ []

module _ {F : Type 0} (files : Files F) where
  -- What read gives of the file is sent, and then what follows.
  unfoldable pub send_bytes :
      (F → ℕ → Mysock → Result (Bool × F × Mysock))
      → Option Bytes
      → F
      → ℕ
      → Mysock
      → Result (Bool × F × Mysock)
  send_bytes more none f node ctx = ok (false, f, ctx)
  send_bytes more (some []) f node ctx = ok (true, f, ctx)
  send_bytes more (some (b ∷ bs)) f node ctx = do
    put ← mywrite node (some ctx) (b ∷ bs)
    elim put.0 [
      | failed errno ↦ ok (false, f, ctx)
      | waits ↦ ok (false, f, ctx)
      | returned n ↦ elim put.1 [ none ↦ ok (false, f, ctx) | some ctx' ↦ more f (suc node) ctx' ]
    ]

  -- The loop of the server that sends the file; the packets are put at addresses from `node` on.
  unfoldable pub send_file : ℕ → F → ℕ → Mysock → Result (Bool × F × Mysock)
  send_file zero f node ctx = fault no_rounds
  send_file (suc fuel) f node ctx =
      let got = files.read_file f 5000 in
      send_bytes (λ f' n ctx'. send_file fuel f' n ctx') got.0 got.1 node ctx

  -- The response is written, and then the file if it is open.
  unfoldable pub respond : ℕ → Bool → Bytes → F → ℕ → Mysock → Result (Bool × F × Mysock)
  respond fuel opened resp f node ctx = do
    guard (ltb (length resp) 5000) out_of_bounds
    put ← mywrite node (some ctx) resp
    elim put.0 [
      | failed errno ↦ ok (false, f, ctx)
      | waits ↦ ok (false, f, ctx)
      | returned n ↦ elim put.1 [
        | none ↦ ok (false, f, ctx)
        | some ctx' ↦ if opened then send_file fuel f (suc node) ctx' else ok (true, f, ctx')
      ]
    ]

  -- process_line; `print` is what sprintf makes of a number, `denied` and `unopened` are the two
  -- texts of an error.
  unfoldable pub process_line :
      (ℕ → Bytes) → Bytes → Bytes → ℕ → Bytes → F → ℕ → Mysock → Result (Bool × F × Mysock)
  process_line print denied unopened fuel line f node ctx =
      if not (ltb 0 (length line) && files.can_read f line)
      then respond fuel false (response line (45 ∷ 49 ∷ []) denied) f node ctx
      else (let (opened, f') = files.open_file f line in
          if opened
          then respond fuel true (response line (print (files.file_size f')) (79 ∷ 107 ∷ [])) f'
              node ctx
          else respond fuel false (response line (45 ∷ 49 ∷ []) unopened) f' node ctx)

  -- do_connection, for this many requests: lines are answered until one is empty or cannot be
  -- read. The packets of a request are put at addresses from its own entry of `nodes` on.
  unfoldable pub do_connection :
      Memcpy → (ℕ → Bytes) → Bytes → Bytes → ℕ → List ℕ → F → Mysock → Result (F × Mysock)
  do_connection memcpy print denied unopened fuel [] f ctx = fault no_rounds
  do_connection memcpy print denied unopened fuel (node ∷ nodes) f ctx = do
    request ← get_nvt_line memcpy fuel 256 ctx
    elim request.0 [
      | no_line ↦ ok (f, request.1)
      | line_waits ↦ ok (f, request.1)
      | got_line text ↦
          let line = c_string text in
          if ltb 0 (length line)
          then (do
            answered ← process_line print denied unopened fuel line f node request.1
            elim answered.0 [
              | false ↦ ok (answered.1, answered.2)
              | true ↦ do_connection memcpy print denied unopened fuel nodes answered.1 answered.2
            ])
          else ok (f, request.1)
    ]
