-- ===== src/Tcp/Listen/Reachable.antt =====
-- What holds of the pending connections after any calls on a listening socket.
use computer_network.Prelude.{
  ℕ, ◌+◌, ◌-◌, ◌≤◌, ◌<◌, ◌≡◌, ◌≢◌, ◌⊎◌, inl, inr, refl, sym, ap, ◌∙◌, subst, Bool, false, List, [],
  ◌∷◌, ◌++◌, Option, none, some, arith, All, All-append, ◌^◌,
}
use computer_network.Prelude.Result.{ok}
use computer_network.Tcp.Listen.{
  ConnectRequest, invalid_request, ListenQueue, set_slot, slot_sd, find_sd, slots,
  mysock_enqueue_connection, mysock_passive_connection_complete, waiting, accepted,
  mysock_dequeue_connection, mysock_set_backlog,
}
use computer_network.Tcp.Listen.Slots.{
  used-le, length-set_slot, used-set_slot, slot_sd-some, find_sd-some,
}
use computer_network.Tcp.Listen.Backlog.{raised-IsListening, mysock_set_backlog-IsListening}
use computer_network.Tcp.Listen.Pending.{
  IsCompleted, IsListening, IsCompleted-set_slot, slots_all, requested_total,
}

-- A call of myaccept waits or takes a connection, and no assertion fails.
taken_total :
    (q : ListenQueue)
    → IsListening q
    → (mysock_dequeue_connection q ≡ ok waiting)
      ⊎ ((sd : ℕ) × (q' : ListenQueue) × (mysock_dequeue_connection q ≡ ok (accepted sd q'))
          × IsListening q')
unfolding mysock_dequeue_connection
taken_total q w = taken q.completed_queue refl
  where
    taken :
        (entries : List (Option ℕ))
        → q.completed_queue ≡ entries
        → (mysock_dequeue_connection q ≡ ok waiting)
          ⊎ ((sd : ℕ) × (q' : ListenQueue) × (mysock_dequeue_connection q ≡ ok (accepted sd q'))
              × IsListening q')
    taken [] e = inl (ground (arith, e))
    taken (entry ∷ more) e =
        let (k, at, sd, held, apart, c) = subst (IsCompleted q.connection_queue) e w.completed in
        let (inside, busy) = slot_sd-some k sd q.connection_queue held in
        inr (
          sd,
          record q {
            cur_len = q.cur_len - 1;
            connection_queue = set_slot k invalid_request q.connection_queue;
            completed_queue = more;
          },
          ground (arith, e, at, held, busy, w.counted),
          record {
            size = length-set_slot k invalid_request q.connection_queue ∙ w.size;
            counted =
                ground (
                  arith,
                  used-set_slot k invalid_request q.connection_queue inside,
                  w.counted,
                  held,
                );
            completed = IsCompleted-set_slot k invalid_request q.connection_queue more apart c;
          },
        )

-- The queues that a socket gets to by mylisten, with a backlog that is not lowered and slots that
-- stay where they are, by SYNs, by connections that are established, each once, and by myaccept.
pub data IsReachable : ListenQueue → Type 0 where
  listening :
      (backlog : ℕ) (moved : Bool)
      → backlog + 1 < 2 ^ 32
      → IsReachable (mysock_set_backlog backlog moved none)
  raised :
      (q : ListenQueue) (backlog : ℕ)
      → IsReachable q
      → backlog + 1 < 2 ^ 32
      → q.max_len ≤ backlog + 1
      → IsReachable (mysock_set_backlog backlog false (some q))
  requested :
      (packet peer : List ℕ) (user_data : ℕ) (new_sd : Option ℕ) (b : Bool) (q q' : ListenQueue)
      → IsReachable q
      → mysock_enqueue_connection packet peer user_data new_sd q ≡ ok (b, q')
      → IsReachable q'
  established :
      (sd k : ℕ) (q q' : ListenQueue)
      → IsReachable q
      → find_sd sd (slots q) ≡ some k
      → All (λ entry. entry ≢ some k) q.completed_queue
      → mysock_passive_connection_complete sd q ≡ ok q'
      → IsReachable q'
  taken :
      (sd : ℕ) (q q' : ListenQueue)
      → IsReachable q
      → mysock_dequeue_connection q ≡ ok (accepted sd q')
      → IsReachable q'

-- An established connection is put behind the completed entries.
IsCompleted-last :
    (rs : List ConnectRequest) (entries : List (Option ℕ)) (k sd : ℕ)
    → slot_sd k rs ≡ some sd
    → All (λ entry. entry ≢ some k) entries
    → IsCompleted rs entries
    → IsCompleted rs (entries ++ some k ∷ [])
IsCompleted-last rs [] k sd held apart c = (k, refl, sd, held, tt, tt)
IsCompleted-last rs (entry ∷ entries) k sd held apart (j, at, sd', held', others, c) = (
  j,
  at,
  sd',
  held',
  All-append (λ other. other ≢ some j) entries (some k ∷ []) others
      ((λ e. apart.0 (at ∙ sym e)), tt),
  IsCompleted-last rs entries k sd held apart.1 c,
)

established-IsListening :
    (sd k : ℕ) (q q' : ListenQueue)
    → IsListening q
    → find_sd sd (slots q) ≡ some k
    → All (λ entry. entry ≢ some k) q.completed_queue
    → mysock_passive_connection_complete sd q ≡ ok q'
    → IsListening q'
unfolding mysock_passive_connection_complete
established-IsListening sd k q q' w at apart e =
    let held = find_sd-some sd q.connection_queue k (ap (find_sd sd) (sym (slots_all q w)) ∙ at) in
    let same : record q { completed_queue = q.completed_queue ++ some k ∷ [] } ≡ q' =
      ground (arith, at, e) in
    subst IsListening same (record {
      size = w.size;
      counted = w.counted;
      completed = IsCompleted-last q.connection_queue q.completed_queue k sd held apart w.completed;
    })

requested-IsListening :
    (packet peer : List ℕ) (user_data : ℕ) (new_sd : Option ℕ) (b : Bool) (q q' : ListenQueue)
    → IsListening q
    → mysock_enqueue_connection packet peer user_data new_sd q ≡ ok (b, q')
    → IsListening q'
requested-IsListening packet peer user_data new_sd b q q' w e =
    let (b', q'', done, w') = requested_total packet peer user_data new_sd q w in
    let same : q'' ≡ q' = ground (arith, done, e) in subst IsListening same w'

taken-IsListening :
    (sd : ℕ) (q q' : ListenQueue)
    → IsListening q
    → mysock_dequeue_connection q ≡ ok (accepted sd q')
    → IsListening q'
taken-IsListening sd q q' w e = elim (taken_total q w) [
  | inl waits ↦ ground (arith, waits, e)
  | inr (sd', q'', done, w') ↦
      let same : q'' ≡ q' = ground (arith, done, e) in subst IsListening same w'
]

-- What holds of the queue after these calls.
pub IsReachable-IsListening : (q : ListenQueue) → IsReachable q → IsListening q
IsReachable-IsListening _ (listening backlog moved small) =
    mysock_set_backlog-IsListening backlog moved small
IsReachable-IsListening _ (raised q backlog r small more) =
    raised-IsListening q backlog (IsReachable-IsListening q r) small more
IsReachable-IsListening _ (requested packet peer user_data new_sd b q q' r e) =
    requested-IsListening packet peer user_data new_sd b q q' (IsReachable-IsListening q r) e
IsReachable-IsListening _ (established sd k q q' r at apart e) =
    established-IsListening sd k q q' (IsReachable-IsListening q r) at apart e
IsReachable-IsListening _ (taken sd q q' r e) =
    taken-IsListening sd q q' (IsReachable-IsListening q r) e

-- After any calls on such a socket, a SYN is queued or dropped and myaccept waits or takes a
-- connection, without an assertion that fails, and there are at most `max_len` pending connections.
pub IsReachable-served :
    (q : ListenQueue) (packet peer : List ℕ) (user_data : ℕ) (new_sd : Option ℕ)
    → IsReachable q
    → ((b : Bool) × (q' : ListenQueue) × (mysock_enqueue_connection packet peer user_data new_sd q
          ≡ ok (b, q')))
      × ((mysock_dequeue_connection q ≡ ok waiting)
          ⊎ ((sd : ℕ) × (q' : ListenQueue) × (mysock_dequeue_connection q ≡ ok (accepted sd q'))))
      × (q.cur_len ≤ q.max_len)
IsReachable-served q packet peer user_data new_sd r =
    let w = IsReachable-IsListening q r in
    let (b, q', done, _) = requested_total packet peer user_data new_sd q w in
    (
      (b, q', done),
      elim (taken_total q w) [
        | inl waits ↦ inl waits
        | inr (sd, q'', done', _) ↦ inr (sd, q'', done')
      ],
      omega (arith, w.size, w.counted, used-le q.connection_queue),
    )
