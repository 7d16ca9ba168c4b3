-- ===== src/Tcp/FileTransfer/Examples.antt =====
-- A file of one byte.
use computer_network.Prelude.{
  ℕ, ◌+◌, ◌-◌, ◌≡◌, refl, true, false, List, [], ◌∷◌, ◌++◌, Option, none, some, arith, length,
}
use computer_network.Prelude.Result.{fault, out_of_bounds}
use computer_network.Tcp.Segment.{Bytes}
use computer_network.Tcp.Queue.{moving}
use computer_network.Tcp.Api.Opened.{sent_mysock, sent_mysock-IsSending}
use computer_network.Tcp.FileTransfer.{Files, Store, response, get_nvt_line}
use computer_network.Tcp.FileTransfer.Overflow.{get_nvt_line-long}

-- A file is what is left of it to read, and is read at once.
abbrev one_file : Files Bytes
one_file = record {
  can_read = λ f line. true;
  open_file = λ f line. (true, f);
  file_size = λ f. length f;
  read_file = λ f n. (some f, []);
}

abbrev whole : Bytes → Bytes
whole f = f

abbrev one_digit : ℕ → Bytes
one_digit n = (n + 48) ∷ []

abbrev scan_digit : Bytes → Option ℕ
scan_digit [] = none
scan_digit (d ∷ ds) = some (d - 48)

abbrev whole_store : Store
whole_store = record { quiet = false; opens = true; fwrite = λ file bytes. some (length bytes) }

-- The file "f", which holds 7.
abbrev arriving : Bytes
arriving = response (102 ∷ []) (49 ∷ []) (79 ∷ 107 ∷ []) ++ 7 ∷ []

get_nvt_line-long_example :
    get_nvt_line moving 9 2 (sent_mysock (7 ∷ 8 ∷ 9 ∷ [])) ≡ fault out_of_bounds
get_nvt_line-long_example =
    get_nvt_line-long 9 2 (sent_mysock (7 ∷ 8 ∷ 9 ∷ [])) ((7 ∷ 8 ∷ 9 ∷ []) ∷ []) [] (7 ∷ 8 ∷ 9 ∷ [])
      [] (sent_mysock-IsSending (7 ∷ 8 ∷ 9 ∷ []) (omega arith)) refl
      ((λ k. omega arith), ((λ k. omega arith), ((λ k. omega arith), tt))) (omega arith)
      (omega arith)
