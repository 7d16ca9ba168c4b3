-- ===== src/Tcp/Listen/Pending.antt =====
-- What holds of the pending connections after any calls.
use computer_network.Prelude.{
  ℕ, ◌+◌, ◌<◌, ◌≡◌, ◌≢◌, inl, inr, refl, sym, ap, ◌∙◌, Bool, true, false, not, ◌||◌, List, [], ◌∷◌,
  Option, none, some, arith, All, Bool-cases, Option-cases, length, take_all, ltb,
}
use computer_network.Prelude.Result.{ok}
use computer_network.Tcp.Listen.{
  ConnectRequest, invalid_request, ListenQueue, set_slot, slot_sd, is_queued, free_slot, slots,
  has_syn, mysock_enqueue_connection,
}
use computer_network.Tcp.Listen.Slots.{
  count, used, length-set_slot, used-set_slot, slot_sd-set_slot, free_slot-some, free_slot-none,
}

-- The entries are different slots that have a descriptor.
abbrev pub IsCompleted : List ConnectRequest → List (Option ℕ) → Type 0
IsCompleted rs [] = Unit {0}
IsCompleted rs (entry ∷ more) =
    (k : ℕ) × (entry ≡ some k)
    × (sd : ℕ) × (slot_sd k rs ≡ some sd)
    × All (λ other. other ≢ some k) more
    × IsCompleted rs more

-- All slots are in use by the queue, `cur_len` of them have a descriptor, and every completed entry
-- is one of these.
pub record IsListening (q : ListenQueue) : Type 0 where
  pub size : length q.connection_queue ≡ q.max_len
  pub counted : q.cur_len ≡ used q.connection_queue
  pub completed : IsCompleted q.connection_queue q.completed_queue

pub slots_all : (q : ListenQueue) → IsListening q → slots q ≡ q.connection_queue
slots_all q w = take_all q.max_len q.connection_queue (omega (arith, w.size))

pub IsCompleted-set_slot :
    (k : ℕ) (r : ConnectRequest) (rs : List ConnectRequest) (entries : List (Option ℕ))
    → All (λ entry. entry ≢ some k) entries
    → IsCompleted rs entries
    → IsCompleted (set_slot k r rs) entries
IsCompleted-set_slot k r rs [] apart c = tt
IsCompleted-set_slot k r rs (entry ∷ more) apart (j, at, sd, held, others, c) = (
  j,
  at,
  sd,
  slot_sd-set_slot j k r rs (λ e. apart.0 (at ∙ ap some e)) ∙ held,
  others,
  IsCompleted-set_slot k r rs more apart.1 c,
)

slot_differs :
    (k j sd : ℕ) (rs : List ConnectRequest)
    → slot_sd k rs ≡ none
    → slot_sd j rs ≡ some sd
    → some j ≢ some k
slot_differs k j sd rs free held e = ground (arith, e, free, held)

-- A free slot is no completed entry.
free_apart :
    (k : ℕ) (rs : List ConnectRequest) (entries : List (Option ℕ))
    → slot_sd k rs ≡ none
    → IsCompleted rs entries
    → All (λ entry. entry ≢ some k) entries
free_apart k rs [] free c = tt
free_apart k rs (entry ∷ more) free (j, at, sd, held, others, c) =
    (λ e. slot_differs k j sd rs free held (sym at ∙ e), free_apart k rs more free c)

filled-IsListening :
    (q : ListenQueue) (k : ℕ) (r : ConnectRequest) (cur_len : ℕ)
    → IsListening q
    → k < length q.connection_queue
    → slot_sd k q.connection_queue ≡ none
    → cur_len ≡ q.cur_len + count r.sd
    → IsListening
        (record q { cur_len = cur_len; connection_queue = set_slot k r q.connection_queue })
filled-IsListening q k r cur_len w inside free e = record {
  size = length-set_slot k r q.connection_queue ∙ w.size;
  counted = ground (arith, used-set_slot k r q.connection_queue inside, w.counted, free);
  completed =
      IsCompleted-set_slot k r q.connection_queue q.completed_queue
        (free_apart k q.connection_queue q.completed_queue free w.completed) w.completed;
}

abbrev pub is_lost : List ℕ → List ℕ → ListenQueue → Bool
is_lost packet peer q = ltb (length packet) 20 || not (has_syn packet) || is_queued peer (slots q)

filled_total :
    (packet peer : List ℕ) (user_data : ℕ) (new_sd : Option ℕ) (q : ListenQueue) (k : ℕ)
    → IsListening q
    → is_lost packet peer q ≡ false
    → ltb q.cur_len q.max_len ≡ true
    → free_slot (slots q) ≡ some k
    → k < length q.connection_queue
    → slot_sd k q.connection_queue ≡ none
    → (b : Bool) × (q' : ListenQueue) × (mysock_enqueue_connection packet peer user_data new_sd q
        ≡ ok (b, q'))
      × IsListening q'
unfolding mysock_enqueue_connection
filled_total packet peer user_data none q k w new room at inside free = (
  false,
  record q { connection_queue = set_slot k invalid_request q.connection_queue },
  ground (arith, new, room, at),
  filled-IsListening q k invalid_request q.cur_len w inside free (omega arith),
)
filled_total packet peer user_data (some sd) q k w new room at inside free =
    let r : ConnectRequest = record { peer_addr = peer; sd = some sd; user_data = user_data } in
    (
      true,
      record q { cur_len = q.cur_len + 1; connection_queue = set_slot k r q.connection_queue },
      ground (arith, new, room, at),
      filled-IsListening q k r (q.cur_len + 1) w inside free refl,
    )

-- A SYN is queued or dropped, and no assertion fails.
pub requested_total :
    (packet peer : List ℕ) (user_data : ℕ) (new_sd : Option ℕ) (q : ListenQueue)
    → IsListening q
    → (b : Bool) × (q' : ListenQueue) × (mysock_enqueue_connection packet peer user_data new_sd q
        ≡ ok (b, q'))
      × IsListening q'
unfolding mysock_enqueue_connection
requested_total packet peer user_data new_sd q w = elim (Bool-cases (is_lost packet peer q)) [
  | inl lost ↦ (false, q, ground (arith, lost), w)
  | inr new ↦ elim (Bool-cases (ltb q.cur_len q.max_len)) [
    | inr full ↦ (false, q, ground (arith, new, full), w)
    | inl room ↦ elim (Option-cases (free_slot (slots q))) [
      | inl all ↦ absurd (
          ground (
            arith,
            room,
            w.size,
            w.counted,
            free_slot-none q.connection_queue (ap free_slot (sym (slots_all q w)) ∙ all),
          ))
      | inr (k, at) ↦
          let (inside, free) =
            free_slot-some q.connection_queue k (ap free_slot (sym (slots_all q w)) ∙ at) in
          filled_total packet peer user_data new_sd q k w new room at inside free
    ]
  ]
]
