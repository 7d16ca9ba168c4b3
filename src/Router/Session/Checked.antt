-- ===== src/Router/Session/Checked.antt =====
-- The routing table that VNSHWINFO has let through.
use computer_network.Prelude.{
  ℕ, ◌≡◌, ◌≢◌, ◌↔◌, refl, subst, true, ◌&&◌, inl, inr, Bool-cases, Option-cases, List, [], ◌∷◌,
  Option, none, some, arith, All, length, leb, ltb,
}
use computer_network.Prelude.Buffer.{load32}
use computer_network.Prelude.Result.{ok}
use computer_network.Router.Instance.{Bytes, Interface, Route, Instance}
use computer_network.Router.Interfaces.{find_name, sr_get_interface}
use computer_network.Router.Routes.{matches_route, match_loop, longest_match}
use computer_network.Router.Session.{
  Server, Session, go_on, Step, vnshwinfo, has_interface, count_missing, sr_verify_routing_table,
  handle_hwinfo, handle_command, handle_message,
}
use computer_network.Tcp.Segment.{htonl}

-- Every route leaves by an interface of the router.
abbrev pub HasInterfaces : Instance → Type 0
HasInterfaces sr = All (λ r. has_interface sr.if_list r ≡ true) sr.routing_table

all_found :
    (is : List Interface) (rs : List Route)
    → count_missing is rs ≡ 0
    → All (λ r. has_interface is r ≡ true) rs
unfolding count_missing
all_found is [] e = tt
all_found is (r ∷ rs) e = elim (Bool-cases (has_interface is r)) [
  | inl here ↦ (here, all_found is rs (ground (arith, e, here)))
  | inr missing ↦ absurd (ground (arith, e, missing))
]

count_missing_zero :
    (is : List Interface) (rs : List Route)
    → All (λ r. has_interface is r ≡ true) rs
    → count_missing is rs ≡ 0
unfolding count_missing
count_missing_zero is [] h = refl
count_missing_zero is (r ∷ rs) h = rw (count_missing, h.0) (count_missing_zero is rs h.1)

verify_lists :
    (sr : Instance) (is : List Interface) (rs : List Route)
    → (sr_verify_routing_table (record sr { if_list = is; routing_table = rs }) ≡ 0)
      ↔ ((is ≢ []) × (rs ≢ []) × All (λ r. has_interface is r ≡ true) rs)
unfolding sr_verify_routing_table
verify_lists sr [] rs = (λ e. absurd (omega arith), λ h. absurd (h.0 refl))
verify_lists sr (i ∷ is) [] = (λ e. absurd (omega arith), λ h. absurd (h.1 refl))
verify_lists sr (i ∷ is) (r ∷ rs) = (
  λ e. (λ k. ground (arith, k), λ k. ground (arith, k), all_found (i ∷ is) (r ∷ rs) e),
  λ h. count_missing_zero (i ∷ is) (r ∷ rs) h.2,
)

-- sr_verify_routing_table returns 0 exactly if there are interfaces and routes, and each route
-- leaves by the name of an interface.
pub sr_verify_routing_table_iff :
    (sr : Instance)
    → (sr_verify_routing_table sr ≡ 0)
      ↔ ((sr.if_list ≢ []) × (sr.routing_table ≢ []) × HasInterfaces sr)
sr_verify_routing_table_iff sr = verify_lists sr sr.if_list sr.routing_table

match_loop-All :
    {P : Route → Type 0} (ip l_match : ℕ) (rs : List Route) (best : Option Route) (r : Route)
    → ((b : Route) → best ≡ some b → P b)
    → All P rs
    → match_loop ip l_match best rs ≡ some r
    → P r
unfolding match_loop
match_loop-All ip l_match [] best r known h e = known r e
match_loop-All {P = P} ip l_match (x ∷ xs) best r known h e =
    elim (Bool-cases (matches_route ip x && ltb l_match x.mask)) [
      | inl better ↦
          match_loop-All {P = P} ip x.mask xs (some x) r (λ b k. subst P (ground (arith, k)) h.0)
            h.1 (ground (arith, e, better))
      | inr worse ↦ match_loop-All {P = P} ip l_match xs best r known h.1 (ground (arith, e, worse))
    ]

has_interface-some :
    (sr : Instance) (r : Route)
    → has_interface sr.if_list r ≡ true
    → (i : Interface) × (sr_get_interface sr r.interface ≡ some i)
has_interface-some sr r e = elim (Option-cases (find_name r.interface sr.if_list)) [
  | inl missing ↦ absurd (ground (arith, e, missing))
  | inr found ↦ found
]

module _ {W : Type 0} (s : Server W) (junk_frame : Bytes) (junk : Interface) (now fuel : ℕ)
    (c : Session) where
  handle_hwinfo_good :
      (m : Bytes) (sr : Instance) (w : W) (step : Step W)
      → handle_hwinfo s junk_frame junk now fuel c m sr w ≡ ok step
      → step.outcome ≡ go_on
      → sr_verify_routing_table step.sr ≡ 0
  unfolding handle_hwinfo
  handle_hwinfo_good m sr w step e good = ground (arith, e, good)

  handle_message_hwinfo :
      (m : Bytes) (sr : Instance) (w : W) (step : Step W)
      → htonl (load32 4 m) ≡ vnshwinfo
      → handle_message s junk_frame junk now fuel c 0 m sr w ≡ ok step
      → step.outcome ≡ go_on
      → sr_verify_routing_table step.sr ≡ 0
  unfolding handle_message handle_command
  handle_message_hwinfo m sr w step kind e good = elim (Bool-cases (leb 8 (length m))) [
    | inl long ↦ handle_hwinfo_good m sr w step (ground (arith, e, kind, long)) good
    | inr short ↦ absurd (ground (arith, e, short))
  ]

  -- Once a VNSHWINFO message has been accepted, the interface of any route that the longest prefix
  -- match finds exists.
  pub longest_match-handle_message :
      (m : Bytes) (sr : Instance) (w : W) (step : Step W) (ip : ℕ) (r : Route)
      → htonl (load32 4 m) ≡ vnshwinfo
      → handle_message s junk_frame junk now fuel c 0 m sr w ≡ ok step
      → step.outcome ≡ go_on
      → longest_match ip step.sr.routing_table ≡ some r
      → (i : Interface) × (sr_get_interface step.sr r.interface ≡ some i)
  unfolding longest_match
  longest_match-handle_message m sr w step ip r kind e good best =
      let checked =
        (sr_verify_routing_table_iff step.sr).0 (handle_message_hwinfo m sr w step kind e good) in
      has_interface-some step.sr r (
        match_loop-All {P = λ x. has_interface step.sr.if_list x ≡ true} ip 0 step.sr.routing_table
          none r (λ b k. absurd (ground (arith, k))) checked.2 best)
