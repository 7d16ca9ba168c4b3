-- ===== src/Tcp/Listen/Backlog.antt =====
-- A backlog that is set for the first time, or raised.
use computer_network.Prelude.{
  ℕ, zero, suc, ◌+◌, ◌-◌, ◌≤◌, ◌<◌, ◌≡◌, inl, inr, refl, ap, Bool, true, false, List, [], ◌∷◌, ◌++◌,
  Option, none, some, arith, replicate, ◌%◌, ◌^◌, Bool-cases, length, length-append,
  length-replicate, ltb,
}
use computer_network.Tcp.Listen.{
  ConnectRequest, invalid_request, no_queue, ListenQueue, slot_sd, slots, mysock_set_backlog,
}
use computer_network.Tcp.Listen.Slots.{used}
use computer_network.Tcp.Listen.Pending.{IsCompleted, IsListening, slots_all}

used-append : (xs ys : List ConnectRequest) → used (xs ++ ys) ≡ used xs + used ys
used-append [] ys = omega arith
used-append (x ∷ xs) ys = omega (arith, used-append xs ys)

used-replicate : (n : ℕ) → used (replicate n invalid_request) ≡ 0
used-replicate zero = refl
used-replicate (suc n) = omega (arith, used-replicate n)

pub slot_sd-append :
    (k sd : ℕ) (xs ys : List ConnectRequest)
    → slot_sd k xs ≡ some sd
    → slot_sd k (xs ++ ys) ≡ some sd
slot_sd-append k sd [] ys h = ground arith
slot_sd-append zero sd (x ∷ xs) ys h = h
slot_sd-append (suc k) sd (x ∷ xs) ys h = slot_sd-append k sd xs ys h

IsCompleted-append :
    (rs more : List ConnectRequest) (entries : List (Option ℕ))
    → IsCompleted rs entries
    → IsCompleted (rs ++ more) entries
IsCompleted-append rs more [] c = tt
IsCompleted-append rs more (entry ∷ entries) (k, at, sd, held, apart, c) =
    (k, at, sd, slot_sd-append k sd rs more held, apart, IsCompleted-append rs more entries c)

grown-IsListening :
    (q : ListenQueue) (max_len : ℕ)
    → IsListening q
    → q.max_len ≤ max_len
    → IsListening (record q {
      max_len = max_len;
      connection_queue = slots q ++ replicate (max_len - q.max_len) invalid_request;
    })
grown-IsListening q max_len w le =
    let rs = replicate (max_len - q.max_len) invalid_request in
    record {
      size = omega (
        arith,
        length-append (slots q) rs,
        length-replicate (max_len - q.max_len) invalid_request,
        ap length (slots_all q w),
        w.size,
      );
      counted = omega (
        arith,
        used-append (slots q) rs,
        used-replicate (max_len - q.max_len),
        ap used (slots_all q w),
        w.counted,
      );
      completed =
          rw (slots_all q w)
            (IsCompleted-append q.connection_queue rs q.completed_queue w.completed);
    }

pub raised-IsListening :
    (q : ListenQueue) (backlog : ℕ)
    → IsListening q
    → backlog + 1 < 2 ^ 32
    → q.max_len ≤ backlog + 1
    → IsListening (mysock_set_backlog backlog false (some q))
unfolding mysock_set_backlog
raised-IsListening q backlog w small more =
    let fits : (backlog + 1) % 2 ^ 32 ≡ backlog + 1 = omega arith in
    elim (Bool-cases (ltb q.max_len (backlog + 1))) [
      | inl grows ↦ rw (fits, grows) (grown-IsListening q (backlog + 1) w (ground arith))
      | inr same ↦
          rw (fits, same)
            (record {
              size = ground (arith, w.size, same);
              counted = w.counted;
              completed = w.completed;
            })
    ]

pub mysock_set_backlog-IsListening :
    (backlog : ℕ) (moved : Bool)
    → backlog + 1 < 2 ^ 32
    → IsListening (mysock_set_backlog backlog moved none)
unfolding mysock_set_backlog
mysock_set_backlog-IsListening backlog false small =
    raised-IsListening no_queue backlog (record { size = refl; counted = refl; completed = tt })
      small (omega arith)
mysock_set_backlog-IsListening backlog true small =
    raised-IsListening no_queue backlog (record { size = refl; counted = refl; completed = tt })
      small (omega arith)
