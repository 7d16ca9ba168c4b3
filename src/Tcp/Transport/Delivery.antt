-- ===== src/Tcp/Transport/Delivery.antt =====
-- The bytes of the application reach the network cut into segments, in order and numbered.
use computer_network.Prelude.{
  ℕ, ◌+◌, ◌%◌, ◌^◌, ◌≤◌, ◌<◌, ◌≡◌, true, false, List, [], ◌∷◌, ◌++◌, length, ltb, if◌then◌else◌,
}
use computer_network.Tcp.Segment.{Bytes, htonl}
use computer_network.Tcp.Context.{stcp_mss, Context, Output, network_send}

-- Segments that carry the bytes in order, none empty or above the maximum, each numbered by the
-- first of its bytes.
abbrev pub IsSegmented : ℕ → Bytes → List Output → Type 0
IsSegmented seq data' [] = data' ≡ []
IsSegmented seq data' (network_send h p ∷ outs) =
    (h.th_seq ≡ htonl seq)
    × (0 < length p)
    × (length p ≤ stcp_mss)
    × (rest : Bytes) × (data' ≡ p ++ rest)
    × IsSegmented ((seq + length p) % 2 ^ 32) rest outs
IsSegmented seq data' (_ ∷ outs) = true ≡ false

-- The size of the next segment, of at least one byte.
abbrev chunk : ℕ → ℕ
chunk n = if ltb stcp_mss n then stcp_mss else n
