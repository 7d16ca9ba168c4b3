-- ===== src/Router/ArpCache/Entries.antt =====
-- The table of mappings: what a lookup finds after an insertion and after expiry.
use computer_network.Prelude.{
  ℕ, suc, ◌+◌, ◌≤◌, ◌≡◌, refl, ap, subst, inl, inr, Bool, true, false, List, [], ◌∷◌, Option, none,
  some, arith, take, length, All, ◌==◌, Bool-cases, if◌then◌else◌,
}
use computer_network.Router.Instance.{Bytes, ArpEntry, ArpCache}
use computer_network.Router.ArpCache.{
  arpcache_to, serves, lookup_loop, sr_arpcache_lookup, fill_slot, sr_arpcache_insert, expire,
}

-- No valid entry maps the address.
abbrev pub IsUnmapped : ℕ → List ArpEntry → Type 0
IsUnmapped ip = All (λ e. serves ip e ≡ false)

-- Some entry is not valid.
abbrev pub has_room : List ArpEntry → Bool
has_room [] = false
has_room (e ∷ es) = if e.valid then has_room es else true

lookup_loop-IsUnmapped :
    (ip : ℕ) (entry : Option ArpEntry) (es : List ArpEntry)
    → IsUnmapped ip es
    → lookup_loop ip entry es ≡ entry
unfolding lookup_loop
lookup_loop-IsUnmapped ip entry [] h = refl
lookup_loop-IsUnmapped ip entry (e ∷ es) h = rw h.0 (lookup_loop-IsUnmapped ip entry es h.1)

lookup_loop-fill_slot :
    (ip : ℕ) (entry : Option ArpEntry) (new : ArpEntry) (es : List ArpEntry)
    → serves ip new ≡ true
    → IsUnmapped ip es
    → has_room es ≡ true
    → lookup_loop ip entry (fill_slot new es) ≡ some new
unfolding lookup_loop fill_slot
lookup_loop-fill_slot ip entry new [] s u r = cc
lookup_loop-fill_slot ip entry new (e ∷ es) s u r = ground (
  arith,
  lookup_loop-IsUnmapped ip (some new) es u.1,
  lookup_loop-fill_slot ip entry new es s u.1,
)

-- Other addresses are looked up as before.
lookup_loop-fill_slot_ne :
    (ip : ℕ) (entry : Option ArpEntry) (new : ArpEntry) (es : List ArpEntry)
    → serves ip new ≡ false
    → lookup_loop ip entry (fill_slot new es) ≡ lookup_loop ip entry es
unfolding lookup_loop fill_slot
lookup_loop-fill_slot_ne ip entry new [] s = refl
lookup_loop-fill_slot_ne ip entry new (e ∷ es) s =
    ground (arith, lookup_loop-fill_slot_ne ip (if serves ip e then some e else entry) new es s)

fill_slot-full : (new : ArpEntry) (es : List ArpEntry) → has_room es ≡ false → fill_slot new es ≡ es
unfolding fill_slot
fill_slot-full new [] h = refl
fill_slot-full new (e ∷ es) h = ground (arith, fill_slot-full new es)

length-fill_slot : (new : ArpEntry) (es : List ArpEntry) → length (fill_slot new es) ≡ length es
unfolding fill_slot
length-fill_slot new [] = refl
length-fill_slot new (e ∷ es) = ground (arith, length-fill_slot new es)

pub length-expire : (t : ℕ) (es : List ArpEntry) → length (expire t es) ≡ length es
unfolding expire
length-expire t [] = refl
length-expire t (e ∷ es) = ap suc (length-expire t es)

pub length-insert :
    (now : ℕ) (c : ArpCache) (mac : Bytes) (ip : ℕ)
    → length (sr_arpcache_insert now c mac ip).0.entries ≡ length c.entries
unfolding sr_arpcache_insert
length-insert now c mac ip = length-fill_slot _ c.entries

-- After an insertion into a table with room that does not map the address yet, a lookup returns
-- the inserted mapping, stamped with the time; every other address is looked up as before.
pub lookup-insert :
    (now : ℕ) (c : ArpCache) (mac : Bytes) (ip j : ℕ)
    → IsUnmapped ip c.entries
    → has_room c.entries ≡ true
    → sr_arpcache_lookup (sr_arpcache_insert now c mac ip).0 j ≡ (
        if ip == j
        then some (record { mac = take 6 mac; ip = ip; added = now; valid = true })
        else sr_arpcache_lookup c j)
unfolding sr_arpcache_lookup sr_arpcache_insert
lookup-insert now c mac ip j u r =
    let new : ArpEntry = record { mac = take 6 mac; ip = ip; added = now; valid = true } in
    elim (Bool-cases (ip == j)) [
      | inl e ↦
          let same : ip ≡ j = ground arith in
          rw (← same)
            (ground (arith, lookup_loop-fill_slot ip none new c.entries (ground arith) u r))
      | inr e ↦ rw e (lookup_loop-fill_slot_ne j none new c.entries (ground arith))
    ]

-- After an insertion into a full table every address is looked up as before: the mapping is lost.
pub insert_full :
    (now : ℕ) (c : ArpCache) (mac : Bytes) (ip j : ℕ)
    → has_room c.entries ≡ false
    → sr_arpcache_lookup (sr_arpcache_insert now c mac ip).0 j ≡ sr_arpcache_lookup c j
unfolding sr_arpcache_lookup sr_arpcache_insert
insert_full now c mac ip j h = rw (fill_slot-full _ c.entries h)

-- What a lookup returns is valid, maps the address and stands in the table.
abbrev GoodEntry : (ArpEntry → Type 0) → ℕ → Option ArpEntry → Type 0
GoodEntry P ip none = Unit
GoodEntry P ip (some e) = (e.valid ≡ true) × (e.ip ≡ ip) × P e

lookup_loop-GoodEntry :
    (P : ArpEntry → Type 0) (ip : ℕ) (entry : Option ArpEntry) (es : List ArpEntry)
    → All P es
    → GoodEntry P ip entry
    → GoodEntry P ip (lookup_loop ip entry es)
unfolding lookup_loop
lookup_loop-GoodEntry P ip entry [] h g = g
lookup_loop-GoodEntry P ip entry (e ∷ es) h g =
    lookup_loop-GoodEntry P ip (if serves ip e then some e else entry) es h.1
      (elim (Bool-cases (serves ip e)) [
        | inl s ↦ rw s (ground arith, ground arith, h.0)
        | inr s ↦ rw s g
      ])

expire-fresh :
    (t : ℕ) (es : List ArpEntry)
    → All (λ e. e.valid ≡ true → t ≤ e.added + arpcache_to) (expire t es)
unfolding expire
expire-fresh t [] = tt
expire-fresh t (e ∷ es) = (λ h. ground arith, expire-fresh t es)

-- After the sweep at a time, a lookup returns only a valid mapping of the address that is at most
-- 15 seconds old.
pub lookup-expire :
    (t : ℕ) (c : ArpCache) (ip : ℕ) (e : ArpEntry)
    → sr_arpcache_lookup (record c { entries = expire t c.entries }) ip ≡ some e
    → (e.valid ≡ true) × (e.ip ≡ ip) × (t ≤ e.added + arpcache_to)
unfolding sr_arpcache_lookup
lookup-expire t c ip e h =
    let Fresh : ArpEntry → Type 0 = λ e. e.valid ≡ true → t ≤ e.added + arpcache_to in
    let good =
      subst (GoodEntry Fresh ip) h
        (lookup_loop-GoodEntry Fresh ip none (expire t c.entries) (expire-fresh t c.entries) tt) in
    (good.0, good.1, good.2 good.0)
