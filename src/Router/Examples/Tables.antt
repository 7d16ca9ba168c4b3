-- ===== src/Router/Examples/Tables.antt =====
-- Routes, interfaces, checksums and the wire.
use computer_network.Prelude.{
  ℕ, ◌≤◌, ◌≡◌, refl, ◌⊎◌, true, List, [], ◌∷◌, Option, none, some, arith, All,
}
use computer_network.Router.Instance.{Bytes, Interface, Route}
use computer_network.Router.Routes.{Fields, matches_route, match_loop, longest_match, sr_load_rt}
use computer_network.Router.Routes.Longest.{IsLongest, NoneAbove, longest_match-IsLongest}
use computer_network.Router.Routes.Prefix.{longest_match-prefix, prefix_mask, mask_byte}
use computer_network.Router.Routes.Loading.{parse_lines, unless_empty, sr_load_rt_lem}
use computer_network.Router.Examples.World.{host_ip, to_host, to_far, resolved}

abbrev junk_interface : Interface
junk_interface = record { name = []; addr = []; ip = 77 }

abbrev table : List Route
table = to_far ∷ to_host ∷ []

longest_match-IsLongest_example :
    ((longest_match host_ip table ≡ none) × NoneAbove host_ip 0 table)
    ⊎ ((r : Route) × (longest_match host_ip table ≡ some r) × IsLongest host_ip table r)
longest_match-IsLongest_example = longest_match-IsLongest host_ip table

longest_match-prefix_example :
    All
      (λ q. matches_route host_ip q ≡ true → (k : ℕ) → k ≤ 32 → q.mask ≡ prefix_mask k → k ≤ 32)
      table
unfolding longest_match match_loop prefix_mask mask_byte
longest_match-prefix_example = longest_match-prefix host_ip table to_host 32 refl refl (omega arith)

-- A reader of lines that hold four bytes, and of addresses of one byte.
abbrev read_fields : Bytes → Fields → Fields
read_fields (a ∷ b ∷ c ∷ d) old = record { dest = a ∷ []; gw = b ∷ []; mask = c ∷ []; iface = d }
read_fields line old = old

abbrev read_ip : Bytes → Option ℕ
read_ip [] = none
read_ip (a ∷ _) = some a

abbrev no_fields : Fields
no_fields = record { dest = []; gw = []; mask = []; iface = [] }

sr_load_rt_lem_example :
    let (good, rs) = parse_lines read_fields read_ip no_fields ((1 ∷ 2 ∷ 3 ∷ []) ∷ [] ∷ []) in
    sr_load_rt read_fields read_ip no_fields (some ((1 ∷ 2 ∷ 3 ∷ []) ∷ [] ∷ [])) resolved
    ≡ (good, record resolved { routing_table = unless_empty rs resolved.routing_table })
sr_load_rt_lem_example =
    sr_load_rt_lem read_fields read_ip no_fields ((1 ∷ 2 ∷ 3 ∷ []) ∷ [] ∷ []) resolved
