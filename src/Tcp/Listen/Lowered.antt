-- ===== src/Tcp/Listen/Lowered.antt =====
-- A backlog that is lowered.
use computer_network.Prelude.{
  ℕ, zero, suc, ◌+◌, ◌%◌, ◌^◌, ◌≤◌, ◌<◌, ◌≡◌, refl, Bool, false, List, [], ◌∷◌, none, some, arith,
  take, ltb,
}
use computer_network.Prelude.Result.{fault, assertion}
use computer_network.Tcp.Listen.{
  ConnectRequest, ListenQueue, find_sd, mysock_passive_connection_complete, mysock_set_backlog,
}

find_sd-take :
    (sd : ℕ) (rs : List ConnectRequest) (k n : ℕ)
    → find_sd sd rs ≡ some k
    → n ≤ k
    → find_sd sd (take n rs) ≡ none
unfolding find_sd
find_sd-take sd rs k zero h le = refl
find_sd-take sd [] k (suc n) h le = refl
find_sd-take sd (r ∷ rs) zero (suc n) h le = absurd (omega arith)
find_sd-take sd (r ∷ rs) (suc k) (suc n) h le = ground (arith, find_sd-take sd rs k n)

-- When mylisten lowers the backlog below the slot of a connection that is being established, the
-- assertion fails that looks for the connection once it is established.
pub lowered_backlog_fails :
    (q : ListenQueue) (sd k backlog : ℕ) (moved : Bool)
    → find_sd sd q.connection_queue ≡ some k
    → k < q.max_len
    → backlog + 1 ≤ k
    → backlog + 1 < 2 ^ 32
    → mysock_passive_connection_complete sd (mysock_set_backlog backlog moved (some q))
      ≡ fault assertion
unfolding mysock_passive_connection_complete mysock_set_backlog
lowered_backlog_fails q sd k backlog moved at inside low small =
    let fits : (backlog + 1) % 2 ^ 32 ≡ backlog + 1 = omega arith in
    let lower : ltb q.max_len (backlog + 1) ≡ false = ground arith in
    rw
      (
        fits,
        lower,
        mysock_passive_connection_complete,
        find_sd-take sd q.connection_queue k (backlog + 1) at low,
      )
      refl
