-- ===== src/Router/Routes/Loading.antt =====
-- What sr_load_rt leaves in the routing table.
use mathlib.Core.List.{append-nil, append_assoc}
use computer_network.Prelude.{
  ℕ, ◌≡◌, refl, ◌∙◌, Bool, true, false, List, [], ◌∷◌, ◌++◌, Option, none, some, arith, take,
  if◌then◌else◌, Option-cases, inl, inr,
}
use computer_network.Router.Instance.{Bytes, Route, Instance, iface_namelen}
use computer_network.Router.Routes.{Fields, load_lines, sr_load_rt, sr_add_rt_entry}

-- The new routes, or the old ones where there are none.
abbrev pub unless_empty : List Route → List Route → List Route
unless_empty [] old = old
unless_empty (r ∷ rs) old = r ∷ rs

module _ (sscanf : Bytes → Fields → Fields) (inet_aton : Bytes → Option ℕ) where
  -- The route that a line describes, if its three addresses are good.
  pub route_of : Fields → Option Route
  route_of b = elim (inet_aton b.dest) [
    | none ↦ none
    | some dest ↦ elim (inet_aton b.gw) [
      | none ↦ none
      | some gw ↦ elim (inet_aton b.mask) [
        | none ↦ none
        | some mask ↦
            some
              (record { dest = dest; gw = gw; mask = mask; interface = take iface_namelen b.iface })
      ]
    ]
  ]

  -- The routes up to the first bad line, and whether there is no bad line.
  pub parse_lines : Fields → List Bytes → Bool × List Route
  parse_lines b [] = (true, [])
  parse_lines b (line ∷ lines) = elim (route_of (sscanf line b)) [
    | none ↦ (false, [])
    | some r ↦ let (good, rs) = parse_lines (sscanf line b) lines in (good, r ∷ rs)
  ]

  -- One line, good or bad.
  load_lines-bad :
      (b : Fields) (cleared : Bool) (line : Bytes) (lines : List Bytes) (sr : Instance)
      → route_of (sscanf line b) ≡ none
      → load_lines sscanf inet_aton b cleared (line ∷ lines) sr ≡ (false, sr)
  unfolding load_lines route_of
  load_lines-bad b cleared line lines sr h = ground arith

  load_lines-good :
      (b : Fields) (cleared : Bool) (line : Bytes) (lines : List Bytes) (sr : Instance) (r : Route)
      → route_of (sscanf line b) ≡ some r
      → load_lines sscanf inet_aton b cleared (line ∷ lines) sr
        ≡ load_lines sscanf inet_aton
            (sscanf line b)
            true
            lines
            (record sr { routing_table = (if cleared then sr.routing_table else []) ++ r ∷ [] })
  unfolding load_lines route_of sr_add_rt_entry
  load_lines-good b true line lines sr r h = ground arith
  load_lines-good b false line lines sr r h = ground arith

  parse_lines-bad :
      (b : Fields) (line : Bytes) (lines : List Bytes)
      → route_of (sscanf line b) ≡ none
      → parse_lines b (line ∷ lines) ≡ (false, [])
  unfolding parse_lines
  parse_lines-bad b line lines h = ground arith

  parse_lines-good :
      (b : Fields) (line : Bytes) (lines : List Bytes) (r : Route)
      → route_of (sscanf line b) ≡ some r
      → let (good, rs) = parse_lines (sscanf line b) lines in
        parse_lines b (line ∷ lines) ≡ (good, r ∷ rs)
  unfolding parse_lines
  parse_lines-good b line lines r h = ground arith

  load_lines-eq-parse_lines :
      (b : Fields) (lines : List Bytes) (sr : Instance)
      → let (good, rs) = parse_lines b lines in
        load_lines sscanf inet_aton b true lines sr
        ≡ (good, record sr { routing_table = sr.routing_table ++ rs })
  load_lines-eq-parse_lines b [] sr = unfold load_lines parse_lines in rw append-nil
  load_lines-eq-parse_lines b (line ∷ lines) sr = elim (Option-cases (route_of (sscanf line b))) [
    | inl bad ↦
        rw (parse_lines-bad b line lines bad, load_lines-bad b true line lines sr bad, append-nil)
    | inr (r, good) ↦
        rw (parse_lines-good b line lines r good, load_lines-good b true line lines sr r good)
          (load_lines-eq-parse_lines (sscanf line b) lines _ ∙ simp append_assoc)
  ]

  -- Loading replaces the table by the routes of the lines before the first bad one, and reports
  -- success exactly when no line is bad; a table stays if not even the first line is good.
  pub sr_load_rt_lem :
      (b : Fields) (lines : List Bytes) (sr : Instance)
      → let (good, rs) = parse_lines b lines in
        sr_load_rt sscanf inet_aton b (some lines) sr
        ≡ (good, record sr { routing_table = unless_empty rs sr.routing_table })
  unfolding sr_load_rt
  sr_load_rt_lem b [] sr = unfold load_lines parse_lines in refl
  sr_load_rt_lem b (line ∷ lines) sr = elim (Option-cases (route_of (sscanf line b))) [
    | inl bad ↦ rw (parse_lines-bad b line lines bad, load_lines-bad b false line lines sr bad)
    | inr (r, good) ↦
        rw (parse_lines-good b line lines r good, load_lines-good b false line lines sr r good)
          (load_lines-eq-parse_lines (sscanf line b) lines _)
  ]
