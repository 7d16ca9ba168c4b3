-- ===== src/Router/ArpCache/Queue.antt =====
-- The queue of requests: no two for one address, and none lost by an operation on another.
use computer_network.Prelude.{
  ℕ, ◌<◌, ◌≡◌, refl, subst, inl, inr, ◌≢◌, Bool, List, [], ◌∷◌, Option, none, some, arith, All,
  ◌==◌, Bool-cases, if◌then◌else◌,
}
use computer_network.Router.Instance.{Bytes, ArpRequest, ArpCache}
use computer_network.Router.ArpCache.{find_request, update_request, add_packet, unlink}

abbrev pub Distinct : List ArpRequest → Type 0
Distinct [] = Unit {0}
Distinct (r ∷ rs) = All (λ q. q.ip ≢ r.ip) rs × All (λ q. q.address ≢ r.address) rs × Distinct rs

-- Requests have their own IP each, their own address each, and no address that calloc has yet to
-- return.
pub record IsQueue (c : ArpCache) : Type 0 where
  pub distinct : Distinct c.requests
  pub allocated : All (λ r. r.address < c.fresh) c.requests

pub add_packet-ip : (p : Bytes) (i : Option Bytes) (r : ArpRequest) → (add_packet p i r).ip ≡ r.ip
add_packet-ip p none r = refl
add_packet-ip [] (some i) r = refl
add_packet-ip (b ∷ bs) (some i) r = refl

pub add_packet-address :
    (p : Bytes) (i : Option Bytes) (r : ArpRequest) → (add_packet p i r).address ≡ r.address
add_packet-address p none r = refl
add_packet-address [] (some i) r = refl
add_packet-address (b ∷ bs) (some i) r = refl

pub find_request-All :
    (P : ArpRequest → Type 0) (i : ℕ) (rs : List ArpRequest) (r : ArpRequest)
    → All P rs
    → find_request i rs ≡ some r
    → P r
unfolding find_request
find_request-All P i [] r h e = cc
find_request-All P i (q ∷ rs) r h e = elim (Bool-cases (q.ip == i)) [
  | inl t ↦ let same : q ≡ r = ground arith in subst P same h.0
  | inr t ↦ find_request-All P i rs r h.1 (ground arith)
]

pub find_request-ip :
    (i : ℕ) (rs : List ArpRequest) (r : ArpRequest) → find_request i rs ≡ some r → r.ip ≡ i
unfolding find_request
find_request-ip i [] r e = cc
find_request-ip i (q ∷ rs) r e = ground (arith, find_request-ip i rs r)

-- A write that keeps the IP and the address of the request.
module _ (f : ArpRequest → ArpRequest) (keep_ip : (r : ArpRequest) → (f r).ip ≡ r.ip)
    (keep_address : (r : ArpRequest) → (f r).address ≡ r.address) where
  All-update_request :
      (P : ArpRequest → Type 0) (a : ℕ) (rs : List ArpRequest)
      → ((r : ArpRequest) → P r → P (f r))
      → All P rs
      → All P (update_request a f rs)
  unfolding update_request
  All-update_request P a [] k h = tt
  All-update_request P a (r ∷ rs) k h = elim (Bool-cases (r.address == a)) [
    | inl e ↦ rw e (k r h.0, h.1)
    | inr e ↦ rw e (h.0, All-update_request P a rs k h.1)
  ]

  pub Distinct-update_request :
      (a : ℕ) (rs : List ArpRequest) → Distinct rs → Distinct (update_request a f rs)
  unfolding update_request
  Distinct-update_request a [] d = tt
  Distinct-update_request a (r ∷ rs) d = elim (Bool-cases (r.address == a)) [
    | inl e ↦ rw (e, keep_ip r, keep_address r) d
    | inr e ↦ rw e (
      All-update_request (λ q. q.ip ≢ r.ip) a rs (λ q h. rw (keep_ip q) h) d.0,
      All-update_request (λ q. q.address ≢ r.address) a rs (λ q h. rw (keep_address q) h) d.1,
      Distinct-update_request a rs d.2,
    )
  ]

  pub allocated-update_request :
      (n a : ℕ) (rs : List ArpRequest)
      → All (λ r. r.address < n) rs
      → All (λ r. r.address < n) (update_request a f rs)
  allocated-update_request n a rs =
      All-update_request (λ r. r.address < n) a rs (λ q h. rw (keep_address q) h)

  -- The request that the write is to is found as written, any other as it was.
  pub find_request-update_request :
      (i j : ℕ) (rs : List ArpRequest) (r : ArpRequest)
      → Distinct rs
      → find_request i rs ≡ some r
      → find_request j (update_request r.address f rs)
        ≡ (if i == j then some (f r) else find_request j rs)
  unfolding find_request update_request
  find_request-update_request i j [] r d h = cc
  find_request-update_request i j (q ∷ rs) r d h = elim (Bool-cases (q.ip == i)) [
    | inl e ↦ ground (arith, keep_ip q)
    | inr e ↦
        let found : find_request i rs ≡ some r = ground arith in
        ground (
          arith,
          find_request-All (λ x. x.address ≢ q.address) i rs r d.1 found,
          find_request-ip i rs r found,
          find_request-update_request i j rs r d.2 found,
        )
  ]

module _ (test : ArpRequest → Bool) where
  pub All-unlink :
      (P : ArpRequest → Type 0) (rs : List ArpRequest) → All P rs → All P (unlink test rs)
  unfolding unlink
  All-unlink P [] h = tt
  All-unlink P (r ∷ rs) h = elim (Bool-cases (test r)) [
    | inl e ↦ rw e h.1
    | inr e ↦ rw e (h.0, All-unlink P rs h.1)
  ]

  pub Distinct-unlink : (rs : List ArpRequest) → Distinct rs → Distinct (unlink test rs)
  unfolding unlink
  Distinct-unlink [] d = tt
  Distinct-unlink (r ∷ rs) d = elim (Bool-cases (test r)) [
    | inl e ↦ rw e d.2
    | inr e ↦ rw e (All-unlink _ rs d.0, All-unlink _ rs d.1, Distinct-unlink rs d.2)
  ]

pub find_request-absent :
    (i : ℕ) (rs : List ArpRequest) → All (λ q. q.ip ≢ i) rs → find_request i rs ≡ none
unfolding find_request
find_request-absent i [] h = refl
find_request-absent i (q ∷ rs) h = ground (arith, find_request-absent i rs h.1)

pub find_request-none :
    (i : ℕ) (rs : List ArpRequest) → find_request i rs ≡ none → All (λ q. q.ip ≢ i) rs
unfolding find_request
find_request-none i [] h = tt
find_request-none i (q ∷ rs) h = ground (arith, find_request-none i rs)

pub find_request-unlink :
    (i j : ℕ) (rs : List ArpRequest)
    → Distinct rs
    → find_request j (unlink (λ r. r.ip == i) rs) ≡ (if i == j then none else find_request j rs)
unfolding find_request unlink
find_request-unlink i j [] d = ground arith
find_request-unlink i j (q ∷ rs) d = elim (Bool-cases (q.ip == i)) [
  | inl e ↦ ground (arith, find_request-absent q.ip rs d.0)
  | inr e ↦ ground (arith, find_request-unlink i j rs d.2)
]

pub find_request-unlink_address :
    (i j : ℕ) (rs : List ArpRequest) (r : ArpRequest)
    → Distinct rs
    → find_request i rs ≡ some r
    → find_request j (unlink (λ q. q.address == r.address) rs)
      ≡ (if i == j then none else find_request j rs)
unfolding find_request unlink
find_request-unlink_address i j [] r d h = cc
find_request-unlink_address i j (q ∷ rs) r d h = elim (Bool-cases (q.ip == i)) [
  | inl e ↦ ground (arith, find_request-absent q.ip rs d.0)
  | inr e ↦
      let found : find_request i rs ≡ some r = ground arith in
      ground (
        arith,
        find_request-All (λ x. x.address ≢ q.address) i rs r d.1 found,
        find_request-unlink_address i j rs r d.2 found,
      )
]
