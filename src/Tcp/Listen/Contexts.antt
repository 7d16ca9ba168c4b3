-- ===== src/Tcp/Listen/Contexts.antt =====
-- What the calls on a listening socket do to the contexts and slots of its completed connections.
use computer_network.Prelude.{
  ℕ, ◌+◌, ◌≡◌, ◌≢◌, inl, inr, refl, sym, ap, ◌∙◌, subst, Bool, true, false, List, [], ◌∷◌, ◌++◌,
  ◌-◌, ◌%◌, replicate, Option, none, some, arith, All, Bool-cases, Option-cases, ◌^◌, ltb,
}
use computer_network.Prelude.Result.{ok}
use computer_network.Tcp.Listen.{
  ConnectRequest, invalid_request, ListenQueue, set_slot, slot_sd, find_sd, free_slot, slots,
  mysock_enqueue_connection, mysock_passive_connection_complete, accepted,
  mysock_dequeue_connection, mysock_set_backlog,
}
use computer_network.Tcp.Listen.Slots.{slot_sd-set_slot, free_slot-some}
use computer_network.Tcp.Listen.Backlog.{slot_sd-append}
use computer_network.Tcp.Listen.Pending.{IsCompleted, IsListening, is_lost, slots_all}
use computer_network.Tcp.Api.{Mysock, stcp_unblock_application}

-- The contexts of the completed entries do not block.
abbrev pub IsDone : (ℕ → Mysock) → List ConnectRequest → List (Option ℕ) → Type 0
IsDone contexts rs [] = Unit {0}
IsDone contexts rs (entry ∷ more) =
    (k : ℕ) × (entry ≡ some k)
    × (sd : ℕ) × (slot_sd k rs ≡ some sd)
    × ((contexts sd).blocking ≡ false)
    × IsDone contexts rs more

-- Slots that keep their descriptors, and contexts that are not made to block.
pub IsDone-kept :
    (contexts contexts' : ℕ → Mysock) (rs rs' : List ConnectRequest) (entries : List (Option ℕ))
    → ((k sd : ℕ)
        → slot_sd k rs ≡ some sd
        → (contexts sd).blocking ≡ false
        → (slot_sd k rs' ≡ some sd) × ((contexts' sd).blocking ≡ false))
    → IsDone contexts rs entries
    → IsDone contexts' rs' entries
IsDone-kept contexts contexts' rs rs' [] keep d = tt
IsDone-kept contexts contexts' rs rs' (entry ∷ more) keep (k, at, sd, held, done, d) =
    let (held', done') = keep k sd held done in
    (k, at, sd, held', done', IsDone-kept contexts contexts' rs rs' more keep d)

IsDone-set_slot :
    (contexts : ℕ → Mysock) (k : ℕ) (r : ConnectRequest) (rs : List ConnectRequest)
    (entries : List (Option ℕ))
    → All (λ entry. entry ≢ some k) entries
    → IsDone contexts rs entries
    → IsDone contexts (set_slot k r rs) entries
IsDone-set_slot contexts k r rs [] apart d = tt
IsDone-set_slot contexts k r rs (entry ∷ more) apart (j, at, sd, held, done, d) = (
  j,
  at,
  sd,
  slot_sd-set_slot j k r rs (λ e. apart.0 (at ∙ ap some e)) ∙ held,
  done,
  IsDone-set_slot contexts k r rs more apart.1 d,
)

pub IsDone-last :
    (contexts : ℕ → Mysock) (rs : List ConnectRequest) (entries : List (Option ℕ)) (k sd : ℕ)
    → slot_sd k rs ≡ some sd
    → (contexts sd).blocking ≡ false
    → IsDone contexts rs entries
    → IsDone contexts rs (entries ++ some k ∷ [])
IsDone-last contexts rs [] k sd held done d = (k, refl, sd, held, done, tt)
IsDone-last contexts rs (entry ∷ more) k sd held done (j, at, sd', held', done', d) =
    (j, at, sd', held', done', IsDone-last contexts rs more k sd held done d)

blocking_differs :
    (contexts : ℕ → Mysock) (rs : List ConnectRequest) (k j sd sd' : ℕ)
    → slot_sd k rs ≡ some sd
    → (contexts sd).blocking ≡ true
    → slot_sd j rs ≡ some sd'
    → (contexts sd').blocking ≡ false
    → some j ≢ some k
blocking_differs contexts rs k j sd sd' held blocks held' done e =
    let same : sd' ≡ sd = ground (arith, held, held', e) in
    let not_blocking : (contexts sd).blocking ≡ false =
      subst (λ n. (contexts n).blocking ≡ false) same done in
    ground (arith, blocks, not_blocking)

-- A connection whose context blocks is no completed entry.
pub blocking_apart :
    (contexts : ℕ → Mysock) (rs : List ConnectRequest) (entries : List (Option ℕ)) (k sd : ℕ)
    → slot_sd k rs ≡ some sd
    → (contexts sd).blocking ≡ true
    → IsDone contexts rs entries
    → All (λ entry. entry ≢ some k) entries
blocking_apart contexts rs [] k sd held blocks d = tt
blocking_apart contexts rs (entry ∷ more) k sd held blocks (j, at, sd', held', done, d) = (
  (λ e. blocking_differs contexts rs k j sd sd' held blocks held' done (sym at ∙ e)),
  blocking_apart contexts rs more k sd held blocks d,
)

-- stcp_unblock_application for a passive context.
pub unblocked :
    (errno sd : ℕ) (ctx ctx' : Mysock) (q q' : ListenQueue)
    → ctx.my_sd ≡ sd
    → ctx.net.is_active ≡ false
    → stcp_unblock_application errno ctx q ≡ ok (ctx', q')
    → (k : ℕ) × (find_sd sd (slots q) ≡ some k)
      × (ctx.blocking ≡ true)
      × (ctx'.blocking ≡ false)
      × (mysock_passive_connection_complete sd q ≡ ok q')
      × (q'.connection_queue ≡ q.connection_queue)
      × (q'.completed_queue ≡ q.completed_queue ++ some k ∷ [])
unfolding stcp_unblock_application mysock_passive_connection_complete
unblocked errno sd ctx ctx' q q' own passive e = elim (Option-cases (find_sd sd (slots q))) [
  | inl missing ↦ absurd (elim (Bool-cases ctx.blocking) [
    | inl blocks ↦ ground (arith, own, passive, e, missing, blocks)
    | inr not_blocking ↦ ground (arith, e, not_blocking)
  ])
  | inr (k, at) ↦ elim (Bool-cases ctx.blocking) [
    | inl blocks ↦ (
      k,
      at,
      blocks,
      ground (arith, own, passive, e, at, blocks),
      ground (arith, own, passive, e, at, blocks),
      ground (arith, own, passive, e, at, blocks),
      ground (arith, own, passive, e, at, blocks),
    )
    | inr not_blocking ↦ absurd (ground (arith, e, not_blocking))
  ]
]

-- A SYN changes no slot that has a descriptor.
pub requested_keeps :
    (packet peer : List ℕ) (user_data : ℕ) (new_sd : Option ℕ) (b : Bool) (q q' : ListenQueue)
    → IsListening q
    → mysock_enqueue_connection packet peer user_data new_sd q ≡ ok (b, q')
    → (q'.completed_queue ≡ q.completed_queue)
      × ((j sd : ℕ)
          → slot_sd j q.connection_queue ≡ some sd
          → slot_sd j q'.connection_queue ≡ some sd)
unfolding mysock_enqueue_connection
requested_keeps packet peer user_data new_sd b q q' w e =
    elim (Bool-cases (is_lost packet peer q)) [
      | inl lost ↦ unchanged (ground (arith, e, lost))
      | inr new ↦ elim (Bool-cases (ltb q.cur_len q.max_len)) [
        | inr full ↦ unchanged (ground (arith, e, new, full))
        | inl room ↦ elim (Option-cases (free_slot (slots q))) [
          | inl all ↦ absurd (ground (arith, e, new, room, all))
          | inr (k, at) ↦
              let (inside, free) =
                free_slot-some q.connection_queue k (ap free_slot (sym (slots_all q w)) ∙ at) in
              elim (Option-cases new_sd) [
                | inl refused ↦
                    filled k invalid_request free (ground (arith, e, new, room, at, refused))
                      (ground (arith, e, new, room, at, refused))
                | inr (sd, given) ↦
                    filled k (record { peer_addr = peer; sd = some sd; user_data = user_data }) free
                      (ground (arith, e, new, room, at, given))
                      (ground (arith, e, new, room, at, given))
              ]
        ]
      ]
    ]
  where
    unchanged :
        q ≡ q'
        → (q'.completed_queue ≡ q.completed_queue)
          × ((j sd : ℕ)
              → slot_sd j q.connection_queue ≡ some sd
              → slot_sd j q'.connection_queue ≡ some sd)
    unchanged same = (
      ap (λ p. p.completed_queue) (sym same),
      λ j sd held. ap (λ p. slot_sd j p.connection_queue) (sym same) ∙ held,
    )

    filled :
        (k : ℕ) (r : ConnectRequest)
        → slot_sd k q.connection_queue ≡ none
        → q'.connection_queue ≡ set_slot k r q.connection_queue
        → q'.completed_queue ≡ q.completed_queue
        → (q'.completed_queue ≡ q.completed_queue)
          × ((j sd : ℕ)
              → slot_sd j q.connection_queue ≡ some sd
              → slot_sd j q'.connection_queue ≡ some sd)
    filled k r free slots_are entries = (
      entries,
      λ j sd held.
          ap (slot_sd j) slots_are
          ∙ slot_sd-set_slot j k r q.connection_queue
              (λ e. ground (arith, free, held, ap (λ n. slot_sd n q.connection_queue) e))
          ∙ held,
    )

-- A backlog that is raised keeps the slots that have a descriptor.
pub raised_keeps :
    (q : ListenQueue) (backlog : ℕ)
    → IsListening q
    → ((mysock_set_backlog backlog false (some q)).completed_queue ≡ q.completed_queue)
      × ((j sd : ℕ)
          → slot_sd j q.connection_queue ≡ some sd
          → slot_sd j (mysock_set_backlog backlog false (some q)).connection_queue ≡ some sd)
unfolding mysock_set_backlog
raised_keeps q backlog w = elim (Bool-cases (ltb q.max_len ((backlog + 1) % 2 ^ 32))) [
  | inl grows ↦ (
    ground (arith, grows),
    λ j sd held.
        rw (grows, slots_all q w)
          (slot_sd-append j sd q.connection_queue
            (replicate ((backlog + 1) % 2 ^ 32 - q.max_len) invalid_request) held),
  )
  | inr same ↦ (ground (arith, same), λ j sd held. rw same held)
]

-- myaccept takes the first completed entry away, and its slot.
pub accepted_keeps :
    (contexts : ℕ → Mysock) (sd : ℕ) (q q' : ListenQueue) (entries : List (Option ℕ))
    → q.completed_queue ≡ entries
    → IsCompleted q.connection_queue entries
    → IsDone contexts q.connection_queue entries
    → mysock_dequeue_connection q ≡ ok (accepted sd q')
    → IsDone contexts q'.connection_queue q'.completed_queue
unfolding mysock_dequeue_connection
accepted_keeps contexts sd q q' [] is_empty c d e = absurd (ground (arith, is_empty, e))
accepted_keeps contexts sd q q' (entry ∷ more) is_more (k, at, sd1, held, apart, c)
      (j, at', sd2, held', done, d) e =
    let slots_are : q'.connection_queue ≡ set_slot k invalid_request q.connection_queue =
      ground (arith, is_more, at, held, e) in
    let entries_are : q'.completed_queue ≡ more = ground (arith, is_more, at, held, e) in
    rw (slots_are, entries_are)
      (IsDone-set_slot contexts k invalid_request q.connection_queue more apart d)
