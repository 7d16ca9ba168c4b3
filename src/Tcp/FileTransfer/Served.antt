-- ===== src/Tcp/FileTransfer/Served.antt =====
-- What the server writes for a file, and the whole transfer.
use computer_network.Prelude.{ℕ, ◌≤◌, ◌≡◌, ◌≢◌, false, List, [], ◌++◌, none, some}
use computer_network.Tcp.Segment.{Bytes}
use computer_network.Tcp.Api.{Mysock}
use computer_network.Tcp.Api.Closing.{Holds}
use computer_network.Tcp.FileTransfer.{Files}

-- A mysocket that may be written to: these packets are in its queue, and the addresses from `node`
-- on are free.
pub record IsWritable (ctx : Mysock) (packets : List Bytes) (node : ℕ) : Type 0 where
  pub single : ctx.net.listening ≡ false
  pub unclosed : ctx.close_requested ≡ false
  pub held : Holds ctx.app_recv_queue packets
  pub free : (k : ℕ) → node ≤ k → ctx.app_recv_queue.heap k ≡ none

module _ {F : Type 0} (files : Files F) where
  -- read(2) of an open file: some of what follows the position, and nothing at the end.
  abbrev pub IsFile : (F → Bytes) → Type 0
  IsFile ahead =
      (f : F)
      → (bytes : Bytes) × (f' : F) × (files.read_file f 5000 ≡ (some bytes, f'))
        × (ahead f ≡ bytes ++ ahead f')
        × (ahead f ≢ [] → bytes ≢ [])
