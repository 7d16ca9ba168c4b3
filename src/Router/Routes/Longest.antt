-- ===== src/Router/Routes/Longest.antt =====
-- The search finds the matching route of the longest prefix.
use computer_network.Prelude.{
  ℕ, ◌≤◌, ◌<◌, ◌≡◌, refl, ap, ◌⊎◌, inl, inr, true, false, List, [], ◌∷◌, ◌++◌, Option, none, some,
  arith, All, ltb, ◌&&◌, Bool-cases,
}
use computer_network.Router.Instance.{Route}
use computer_network.Router.Routes.{matches_route, match_loop, longest_match}

-- No route of the list that matches has a mask above `m`.
abbrev pub NoneAbove : ℕ → ℕ → List Route → Type 0
NoneAbove destination_ip m = All (λ r. matches_route destination_ip r ≡ true → r.mask ≤ m)

-- The route stands in the table and matches; no matching route has a larger mask, and those
-- before it have smaller ones or do not match.
pub record IsLongest (destination_ip : ℕ) (rs : List Route) (r : Route) : Type 0 where
  pub before : List Route
  pub after : List Route
  pub splits : rs ≡ before ++ r ∷ after
  pub hit : matches_route destination_ip r ≡ true
  pub nonzero : 0 < r.mask
  pub earlier : All (λ q. matches_route destination_ip q ≡ true → q.mask < r.mask) before
  pub later : NoneAbove destination_ip r.mask after

record LoopFound (destination_ip l : ℕ) (rs : List Route) (r : Route) : Type 0 where
  longest : IsLongest destination_ip rs r
  above : l < r.mask

-- A route in front that does not beat the one found further on.
IsLongest-cons :
    {d : ℕ} {rs : List Route} {q : Route} (r : Route)
    → (matches_route d r ≡ true → r.mask < q.mask)
    → IsLongest d rs q
    → IsLongest d (r ∷ rs) q
IsLongest-cons r lower f = record {
  before = r ∷ f.before;
  after = f.after;
  splits = ap (◌∷◌ r) f.splits;
  hit = f.hit;
  nonzero = f.nonzero;
  earlier = (lower, f.earlier);
  later = f.later;
}

abbrev LoopEnds : ℕ → ℕ → Option Route → List Route → Type 0
LoopEnds d l m rs =
    ((match_loop d l m rs ≡ m) × NoneAbove d l rs)
    ⊎ ((r : Route) × (match_loop d l m rs ≡ some r) × LoopFound d l rs r)

-- The route is taken, and the rest of the table is searched above its mask.
taken :
    (d l : ℕ) (r : Route) (rs : List Route)
    → matches_route d r ≡ true
    → l < r.mask
    → LoopEnds d r.mask (some r) rs
    → (q : Route) × (match_loop d r.mask (some r) rs ≡ some q) × LoopFound d l (r ∷ rs) q
taken d l r rs hit above (inl (e, lower)) = (
  r,
  e,
  record {
    longest = record {
      before = [];
      after = rs;
      splits = refl;
      hit = hit;
      nonzero = omega arith;
      earlier = tt;
      later = lower;
    };
    above = above;
  },
)
taken d l r rs hit above (inr (q, e, f)) = (
  q,
  e,
  record { longest = IsLongest-cons r (λ _. f.above) f.longest; above = omega (arith, f.above) },
)

-- The route is passed over.
passed :
    (d l : ℕ) (m : Option Route) (r : Route) (rs : List Route)
    → (matches_route d r ≡ true → r.mask ≤ l)
    → LoopEnds d l m rs
    → ((match_loop d l m rs ≡ m) × NoneAbove d l (r ∷ rs))
      ⊎ ((q : Route) × (match_loop d l m rs ≡ some q) × LoopFound d l (r ∷ rs) q)
passed d l m r rs low (inl (e, lower)) = inl (e, (low, lower))
passed d l m r rs low (inr (q, e, f)) = inr (
  q,
  e,
  record {
    longest = IsLongest-cons r (λ h. omega (arith, low h, f.above)) f.longest;
    above = f.above;
  },
)

match_loop_take :
    (d l : ℕ) (m : Option Route) (r : Route) (rs : List Route)
    → matches_route d r ≡ true
    → l < r.mask
    → match_loop d l m (r ∷ rs) ≡ match_loop d r.mask (some r) rs
unfolding match_loop
match_loop_take d l m r rs h k = ground arith

match_loop_pass :
    (d l : ℕ) (m : Option Route) (r : Route) (rs : List Route)
    → (matches_route d r && ltb l r.mask) ≡ false
    → match_loop d l m (r ∷ rs) ≡ match_loop d l m rs
unfolding match_loop
match_loop_pass d l m r rs h = ground arith

match_loop_cases : (d l : ℕ) (m : Option Route) (rs : List Route) → LoopEnds d l m rs
match_loop_cases d l m [] = unfold match_loop in inl (refl, tt)
match_loop_cases d l m (r ∷ rs) = elim (Bool-cases (matches_route d r && ltb l r.mask)) [
  | inl e ↦
      let hit : matches_route d r ≡ true = ground arith in
      let above : l < r.mask = ground arith in
      rw (match_loop_take d l m r rs hit above)
        (inr (taken d l r rs hit above (match_loop_cases d r.mask (some r) rs)))
  | inr e ↦
      rw (match_loop_pass d l m r rs e)
        (passed d l m r rs (λ h. ground arith) (match_loop_cases d l m rs))
]

-- The search returns a route exactly as longest prefix match demands: it matches, no matching
-- route has a larger mask, and of the largest the first is taken; it returns none only where no
-- matching route has a mask other than 0.
pub longest_match-IsLongest :
    (d : ℕ) (rs : List Route)
    → ((longest_match d rs ≡ none) × NoneAbove d 0 rs)
      ⊎ ((r : Route) × (longest_match d rs ≡ some r) × IsLongest d rs r)
unfolding longest_match
longest_match-IsLongest d rs = elim (match_loop_cases d 0 none rs) [
  | inl e ↦ inl e
  | inr (r, e, f) ↦ inr (r, e, f.longest)
]

-- In a table of routes with mask 0, such as the default route 0.0.0.0/0, no route is found.
pub longest_match-default :
    (d : ℕ) (rs : List Route) → All (λ r. r.mask ≡ 0) rs → longest_match d rs ≡ none
unfolding longest_match match_loop
longest_match-default d [] h = refl
longest_match-default d (r ∷ rs) h = ground (arith, longest_match-default d rs h.1)
