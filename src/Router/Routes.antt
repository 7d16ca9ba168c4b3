-- ===== src/Router/Routes.antt =====
-- sr_rt.c and the search of the routing table that sr_router.c makes.
pub mod Longest
pub mod Prefix
pub mod Loading
use computer_network.Prelude.{
  ℕ, Bool, true, false, List, [], ◌∷◌, ◌++◌, Option, none, some, take, bit_and, ltb, ◌==◌, ◌&&◌,
  if◌then◌else◌,
}
use computer_network.Router.Instance.{Bytes, Route, Instance, iface_namelen}

-- `mask & destination == dest`
abbrev pub matches_route : ℕ → Route → Bool
matches_route destination_ip r = bit_and r.mask destination_ip == r.dest

-- The loop over the table, with `l_match` and `route_match`. Masks are compared as the
-- little-endian machine reads them.
unfoldable pub match_loop : ℕ → ℕ → Option Route → List Route → Option Route
match_loop destination_ip l_match route_match [] = route_match
match_loop destination_ip l_match route_match (r ∷ rs) =
    elim (matches_route destination_ip r && ltb l_match r.mask) [
      | true ↦ match_loop destination_ip r.mask (some r) rs
      | false ↦ match_loop destination_ip l_match route_match rs
    ]

unfoldable pub longest_match : ℕ → List Route → Option Route
longest_match destination_ip routing_table = match_loop destination_ip 0 none routing_table

unfoldable pub sr_add_rt_entry : Instance → ℕ → ℕ → ℕ → Bytes → Instance
sr_add_rt_entry sr dest gw mask if_name = record sr {
  routing_table =
      sr.routing_table
      ++ record { dest = dest; gw = gw; mask = mask; interface = take iface_namelen if_name } ∷ [];
}

-- The four buffers that sscanf fills from a line.
pub record Fields : Type 0 where
  pub dest : Bytes
  pub gw : Bytes
  pub mask : Bytes
  pub iface : Bytes

-- sscanf keeps in a buffer what it does not overwrite; inet_aton fails on what is no address.
module _ (sscanf : Bytes → Fields → Fields) (inet_aton : Bytes → Option ℕ) where
  -- The loop over the lines of the file, with the flag `clear_routing_table`; false is -1.
  unfoldable pub load_lines : Fields → Bool → List Bytes → Instance → Bool × Instance
  load_lines buffers cleared [] sr = (true, sr)
  load_lines buffers cleared (line ∷ lines) sr =
      let b = sscanf line buffers in
      elim (inet_aton b.dest) [
        | none ↦ (false, sr)
        | some dest ↦ elim (inet_aton b.gw) [
          | none ↦ (false, sr)
          | some gw ↦ elim (inet_aton b.mask) [
            | none ↦ (false, sr)
            | some mask ↦ load_lines b true lines (
                sr_add_rt_entry (if cleared then sr else record sr { routing_table = [] }) dest gw
                  mask b.iface)
          ]
        ]
      ]

  -- `file` is none where the file cannot be read, and the lines that fgets returns otherwise;
  -- `buffers` is what the stack holds before the first line.
  unfoldable pub sr_load_rt : Fields → Option (List Bytes) → Instance → Bool × Instance
  sr_load_rt buffers none sr = (false, sr)
  sr_load_rt buffers (some lines) sr = load_lines buffers false lines sr
