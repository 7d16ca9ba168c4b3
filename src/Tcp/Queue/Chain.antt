-- ===== src/Tcp/Queue/Chain.antt =====
-- The nodes of a queue, at different addresses, each leading to the next.
use computer_network.Prelude.{
  ℕ, ◌≡◌, ◌≢◌, refl, sym, ap, List, [], ◌∷◌, ◌++◌, Option, none, some, arith, All, All-append,
}
use computer_network.Tcp.Queue.{Node, Heap, store}

-- The nodes from an address on, with the packets that they hold; the last leads nowhere.
abbrev pub IsChain : Heap → Option ℕ → List (ℕ × List ℕ) → Type 0
IsChain heap p [] = p ≡ none
IsChain heap p ((a, d) ∷ rest) =
    (p ≡ some a)
    × All (λ n. n.0 ≢ a) rest
    × (next : Option ℕ) × (heap a ≡ some (record { data_bytes = d; next = next }))
    × IsChain heap next rest

-- The address of the last node.
abbrev pub last_of : List (ℕ × List ℕ) → Option ℕ
last_of [] = none
last_of ((a, d) ∷ []) = some a
last_of ((a, d) ∷ n ∷ rest) = last_of (n ∷ rest)

pub IsChain-store :
    (heap : Heap) (a : ℕ) (content : Option Node) (p : Option ℕ) (nodes : List (ℕ × List ℕ))
    → All (λ n. n.0 ≢ a) nodes
    → IsChain heap p nodes
    → IsChain (store a content heap) p nodes
IsChain-store heap a content p [] w c = c
IsChain-store heap a content p ((b, d) ∷ rest) w (at, new, next, here, c) =
    (at, new, next, ground (arith, w.0), IsChain-store heap a content next rest w.1 c)

-- An address that holds nothing is not in a chain.
pub IsChain-fresh :
    (heap : Heap) (a : ℕ) (p : Option ℕ) (nodes : List (ℕ × List ℕ))
    → heap a ≡ none
    → IsChain heap p nodes
    → All (λ n. n.0 ≢ a) nodes
IsChain-fresh heap a p [] fresh c = tt
IsChain-fresh heap a p ((b, d) ∷ rest) fresh (at, new, next, here, c) =
    (λ e. ground (arith, ap heap e), IsChain-fresh heap a next rest fresh c)

last_of_differs :
    (a : ℕ) (nodes : List (ℕ × List ℕ)) (last : ℕ)
    → All (λ n. n.0 ≢ a) nodes
    → last_of nodes ≡ some last
    → last ≢ a
last_of_differs a [] last w e = ground arith
last_of_differs a ((b, d) ∷ []) last w e = ground (arith, w.0)
last_of_differs a ((b, d) ∷ n ∷ rest) last w e = last_of_differs a (n ∷ rest) last w.1 e

-- A node is linked behind the last one.
pub IsChain-append :
    (heap : Heap) (p : Option ℕ) (x : ℕ × List ℕ) (nodes : List (ℕ × List ℕ)) (last new : ℕ)
    (packet : List ℕ)
    → IsChain heap p (x ∷ nodes)
    → last_of (x ∷ nodes) ≡ some last
    → heap new ≡ some (record { data_bytes = packet; next = none })
    → All (λ n. n.0 ≢ new) (x ∷ nodes)
    → (tail : Node) × (heap last ≡ some tail)
      × (tail.next ≡ none)
      × IsChain
          (store last (some (record tail { next = some new })) heap)
          p
          ((x ∷ nodes) ++ (new, packet) ∷ [])
IsChain-append heap p (a, d) [] last new packet (at, apart, next, here, e) l fresh w = (
  record { data_bytes = d; next = next },
  ground (arith, here, l),
  e,
  (
    at,
    ((λ k. w.0 (sym k)), tt),
    some new,
    ground (arith, l),
    (refl, tt, none, ground (arith, fresh, l, w.0), refl),
  ),
)
IsChain-append heap p (a, d) (y ∷ nodes) last new packet (at, apart, next, here, c) l fresh w =
    let (tail, held, end, chain) = IsChain-append heap next y nodes last new packet c l fresh w.1 in
    let differs = last_of_differs a (y ∷ nodes) last apart l in
    (
      tail,
      held,
      end,
      (
        at,
        All-append (λ n. n.0 ≢ a) (y ∷ nodes) ((new, packet) ∷ []) apart (λ k. w.0 (sym k), tt),
        next,
        ground (arith, here, differs),
        chain,
      ),
    )
