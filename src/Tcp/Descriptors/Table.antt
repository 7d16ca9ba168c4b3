-- ===== src/Tcp/Descriptors/Table.antt =====
-- A new descriptor.
use computer_network.Prelude.{
  ℕ, zero, suc, ◌+◌, ◌≡◌, ◌≢◌, ◌⊎◌, inl, inr, All, ap, refl, arith, [], ◌∷◌, none, some,
}
use computer_network.Tcp.Descriptors.{
  MysockContext, Descriptors, place_context, mysock_new_mysocket, mysock_get_context,
}

-- The table after a context is put into it.
pub record IsPlaced (address k : ℕ) (table : Descriptors) (sd : ℕ) (table' : Descriptors)
    : Type 0 where
  pub fresh : mysock_get_context sd table ≡ none
  pub got : mysock_get_context sd table' ≡ some (record { address = address; my_sd = k + sd })
  pub others : (j : ℕ) → j ≢ sd → mysock_get_context j table' ≡ mysock_get_context j table

IsPlaced-here :
    (address k : ℕ) (rest : Descriptors)
    → IsPlaced address k (none ∷ rest) 0 (some (record { address = address; my_sd = k }) ∷ rest)
unfolding mysock_get_context
IsPlaced-here address k rest = record {
  fresh = refl;
  got = ground arith;
  others = λ j differs. skip j differs;
}
  where
    skip :
        (j : ℕ)
        → j ≢ 0
        → mysock_get_context j (some (record { address = address; my_sd = k }) ∷ rest)
          ≡ mysock_get_context j (none ∷ rest)
    skip zero differs = absurd (differs refl)
    skip (suc j) differs = refl

IsPlaced-later :
    (address k : ℕ) (ctx : MysockContext) (rest table' : Descriptors) (n : ℕ)
    → IsPlaced address (suc k) rest n table'
    → IsPlaced address k (some ctx ∷ rest) (suc n) (some ctx ∷ table')
unfolding mysock_get_context
IsPlaced-later address k ctx rest table' n p = record {
  fresh = p.fresh;
  got = ground (arith, p.got);
  others = skip;
}
  where
    skip :
        (j : ℕ)
        → j ≢ suc n
        → mysock_get_context j (some ctx ∷ table') ≡ mysock_get_context j (some ctx ∷ rest)
    skip zero differs = refl
    skip (suc j) differs = p.others j (λ e. differs (ap suc e))

place_total :
    (address k : ℕ) (table : Descriptors)
    → ((place_context address k table ≡ none) × All (λ entry. entry ≢ none) table)
      ⊎ ((n : ℕ) × (table' : Descriptors) × (place_context address k table ≡ some (k + n, table'))
          × IsPlaced address k table n table')
unfolding place_context
place_total address k [] = inl (refl, tt)
place_total address k (none ∷ rest) = inr (0, _, ground arith, IsPlaced-here address k rest)
place_total address k (some ctx ∷ rest) = elim (place_total address (suc k) rest) [
  | inl (e, w) ↦ inl (ground (arith, e), (ground arith, w))
  | inr (n, table', e, p) ↦
      inr
        (suc n, some ctx ∷ table', ground (arith, e), IsPlaced-later address k ctx rest table' n p)
]

-- A new mysocket gets a descriptor that was free, with which its context is found and which the
-- context carries, and the other descriptors stay; it gets none only where all are taken.
pub mysock_new_mysocket-IsPlaced :
    (address : ℕ) (table : Descriptors)
    → ((mysock_new_mysocket address table ≡ none) × All (λ entry. entry ≢ none) table)
      ⊎ ((sd : ℕ) × (table' : Descriptors) × (mysock_new_mysocket address table ≡ some (sd, table'))
          × IsPlaced address 0 table sd table')
unfolding mysock_new_mysocket
mysock_new_mysocket-IsPlaced address table = elim (place_total address 0 table) [
  | inl full ↦ inl full
  | inr (n, table', e, p) ↦ inr (n, table', ground (arith, e), p)
]
