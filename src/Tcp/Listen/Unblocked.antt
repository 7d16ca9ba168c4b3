-- ===== src/Tcp/Listen/Unblocked.antt =====
-- The contexts of the pending connections, whose `blocking` keeps a connection from completing twice.
use computer_network.Prelude.{
  ℕ, ◌+◌, ◌≤◌, ◌<◌, ◌≡◌, ◌≢◌, inl, inr, refl, sym, ap, ◌∙◌, subst, Bool, false, List, [], none,
  some, arith, Bool-cases, ◌^◌, ◌==◌, if◌then◌else◌,
}
use computer_network.Prelude.Result.{ok}
use computer_network.Tcp.Listen.{
  ListenQueue, slot_sd, find_sd, mysock_enqueue_connection, accepted, mysock_dequeue_connection,
  mysock_set_backlog,
}
use computer_network.Tcp.Listen.Slots.{find_sd-some}
use computer_network.Tcp.Listen.Pending.{IsListening, slots_all}
use computer_network.Tcp.Listen.Reachable.{
  IsReachable, listening, raised, requested, established, taken, IsReachable-IsListening,
}
use computer_network.Tcp.Api.{Mysock, stcp_unblock_application}
use computer_network.Tcp.Listen.Contexts.{
  IsDone, IsDone-kept, IsDone-last, blocking_apart, unblocked, requested_keeps, raised_keeps,
  accepted_keeps,
}

abbrev pub place : ℕ → Mysock → (ℕ → Mysock) → ℕ → Mysock
place sd ctx contexts n = if n == sd then ctx else contexts n

-- The contexts by descriptor, and the queue, that a listening socket gets to by mylisten, with a
-- backlog that is not lowered and slots that stay where they are, by SYNs, whose new descriptor is
-- in no slot, by calls of stcp_unblock_application for a passive context, and by myaccept.
pub data IsServed : (ℕ → Mysock) → ListenQueue → Type 0 where
  served_listen :
      (contexts : ℕ → Mysock) (backlog : ℕ) (moved : Bool)
      → backlog + 1 < 2 ^ 32
      → IsServed contexts (mysock_set_backlog backlog moved none)
  served_raise :
      (contexts : ℕ → Mysock) (q : ListenQueue) (backlog : ℕ)
      → IsServed contexts q
      → backlog + 1 < 2 ^ 32
      → q.max_len ≤ backlog + 1
      → IsServed contexts (mysock_set_backlog backlog false (some q))
  served_full :
      (contexts : ℕ → Mysock) (packet peer : List ℕ) (user_data : ℕ) (b : Bool) (q q' : ListenQueue)
      → IsServed contexts q
      → mysock_enqueue_connection packet peer user_data none q ≡ ok (b, q')
      → IsServed contexts q'
  served_syn :
      (contexts : ℕ → Mysock) (packet peer : List ℕ) (user_data sd : ℕ) (ctx : Mysock) (b : Bool)
      (q q' : ListenQueue)
      → IsServed contexts q
      → ((k : ℕ) → slot_sd k q.connection_queue ≢ some sd)
      → mysock_enqueue_connection packet peer user_data (some sd) q ≡ ok (b, q')
      → IsServed (place sd ctx contexts) q'
  served_unblock :
      (contexts : ℕ → Mysock) (errno sd : ℕ) (ctx' : Mysock) (q q' : ListenQueue)
      → IsServed contexts q
      → (contexts sd).my_sd ≡ sd
      → (contexts sd).net.is_active ≡ false
      → stcp_unblock_application errno (contexts sd) q ≡ ok (ctx', q')
      → IsServed (place sd ctx' contexts) q'
  served_accept :
      (contexts : ℕ → Mysock) (sd : ℕ) (q q' : ListenQueue)
      → IsServed contexts q
      → mysock_dequeue_connection q ≡ ok (accepted sd q')
      → IsServed contexts q'

placed :
    (sd : ℕ) (ctx : Mysock) (contexts : ℕ → Mysock) (n : ℕ)
    → n ≢ sd
    → (place sd ctx contexts n).blocking ≡ (contexts n).blocking
placed sd ctx contexts n other = ground (arith, other)

placed_done :
    (sd : ℕ) (ctx : Mysock) (contexts : ℕ → Mysock) (n : ℕ)
    → ctx.blocking ≡ false
    → (contexts n).blocking ≡ false
    → (place sd ctx contexts n).blocking ≡ false
placed_done sd ctx contexts n done done' = elim (Bool-cases (n == sd)) [
  | inl same ↦ rw same done
  | inr other ↦ rw other done'
]

IsServed-IsDone :
    (contexts : ℕ → Mysock) (q : ListenQueue)
    → IsServed contexts q
    → IsReachable q × IsDone contexts q.connection_queue q.completed_queue
unfolding mysock_set_backlog
IsServed-IsDone _ _ (served_listen contexts backlog moved small) =
    (listening backlog moved small, none_done moved)
  where
    none_done :
        (m : Bool)
        → IsDone contexts
            (mysock_set_backlog backlog m none).connection_queue
            (mysock_set_backlog backlog m none).completed_queue
    none_done m =
        subst (IsDone contexts (mysock_set_backlog backlog m none).connection_queue) {x = []}
          (ground arith) tt
IsServed-IsDone _ _ (served_raise contexts q backlog s small more) =
    let (r, d) = IsServed-IsDone contexts q s in
    let (entries, keeps) = raised_keeps q backlog (IsReachable-IsListening q r) in
    let q' = mysock_set_backlog backlog false (some q) in
    (
      raised q backlog r small more,
      subst (IsDone contexts q'.connection_queue) (sym entries) (
          IsDone-kept contexts contexts q.connection_queue q'.connection_queue q.completed_queue
            (λ k sd held done. (keeps k sd held, done)) d),
    )
IsServed-IsDone _ _ (served_full contexts packet peer user_data b q q' s e) =
    let (r, d) = IsServed-IsDone contexts q s in
    let (entries, keeps) =
      requested_keeps packet peer user_data none b q q' (IsReachable-IsListening q r) e in
    (
      requested packet peer user_data none b q q' r e,
      subst (IsDone contexts q'.connection_queue) (sym entries) (
          IsDone-kept contexts contexts q.connection_queue q'.connection_queue q.completed_queue
            (λ k sd held done. (keeps k sd held, done)) d),
    )
IsServed-IsDone _ _ (served_syn contexts packet peer user_data sd ctx b q q' s fresh e) =
    let (r, d) = IsServed-IsDone contexts q s in
    let (entries, keeps) =
      requested_keeps packet peer user_data (some sd) b q q' (IsReachable-IsListening q r) e in
    let contexts' = place sd ctx contexts in
    (
      requested packet peer user_data (some sd) b q q' r e,
      subst (IsDone contexts' q'.connection_queue) (sym entries) (
          IsDone-kept contexts contexts' q.connection_queue q'.connection_queue q.completed_queue
            (λ k sd' held done. (
              keeps k sd' held,
              placed sd ctx contexts sd' (λ same. fresh k (held ∙ ap some same)) ∙ done,
            ))
            d),
    )
IsServed-IsDone _ _ (served_unblock contexts errno sd ctx' q q' s own passive e) =
    let (r, d) = IsServed-IsDone contexts q s in
    let (k, at, blocks, done, completes, slots_are, entries) =
      unblocked errno sd (contexts sd) ctx' q q' own passive e in
    let w = IsReachable-IsListening q r in
    let held : slot_sd k q.connection_queue ≡ some sd =
      find_sd-some sd q.connection_queue k (ap (find_sd sd) (sym (slots_all q w)) ∙ at) in
    let apart = blocking_apart contexts q.connection_queue q.completed_queue k sd held blocks d in
    let contexts' = place sd ctx' contexts in
    let d' =
      IsDone-kept contexts contexts' q.connection_queue q.connection_queue q.completed_queue
        (λ j sd' held' done'. (held', placed_done sd ctx' contexts sd' done done')) d in
    (
      established sd k q q' r at apart completes,
      rw (slots_are, entries)
          (IsDone-last contexts' q.connection_queue q.completed_queue k sd held
            (ground (arith, done)) d'),
    )
IsServed-IsDone _ _ (served_accept contexts sd q q' s e) =
    let (r, d) = IsServed-IsDone contexts q s in
    (
      taken sd q q' r e,
      accepted_keeps contexts sd q q' q.completed_queue refl (IsReachable-IsListening q r).completed
          d e,
    )

-- After any calls on a listening socket whose backlog is never lowered and whose slots are not
-- moved, where a new connection gets a descriptor that no slot has, the count of pending
-- connections is the number of slots with a descriptor, every completed entry is a slot of its own
-- with a descriptor, and there is a slot for each connection of the backlog. That no connection
-- completes twice follows from the assertion in stcp_unblock_application.
pub IsServed-IsListening :
    (contexts : ℕ → Mysock) (q : ListenQueue) → IsServed contexts q → IsListening q
IsServed-IsListening contexts q s = IsReachable-IsListening q (IsServed-IsDone contexts q s).0
