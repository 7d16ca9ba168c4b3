-- ===== src/Router/Interfaces.antt =====
-- sr_if.c: the list of interfaces.
pub mod Lookup
use computer_network.Prelude.{
  ℕ, Bool, List, [], ◌∷◌, ◌++◌, Option, none, some, take, bytes_eq, ◌==◌, if◌then◌else◌,
}
use computer_network.Prelude.Result.{Result, ok, fault, assertion}
use computer_network.Router.Instance.{Bytes, Interface, Instance, iface_namelen}

-- !strncmp(a, b, sr_IFACE_NAMELEN)
abbrev pub same_name : Bytes → Bytes → Bool
same_name a b = bytes_eq (take iface_namelen a) (take iface_namelen b)

-- The walks over the list.
unfoldable pub find_name : Bytes → List Interface → Option Interface
find_name name [] = none
find_name name (i ∷ is) = if same_name i.name name then some i else find_name name is

unfoldable pub find_ip : ℕ → List Interface → Option Interface
find_ip ip_address [] = none
find_ip ip_address (i ∷ is) = if ip_address == i.ip then some i else find_ip ip_address is

unfoldable pub find_eth : Bytes → List Interface → Option Interface
find_eth eth_address [] = none
find_eth eth_address (i ∷ is) =
    if bytes_eq i.addr eth_address then some i else find_eth eth_address is

abbrev pub sr_get_interface : Instance → Bytes → Option Interface
sr_get_interface sr name = find_name name sr.if_list

abbrev pub get_interface_from_ip : Instance → ℕ → Option Interface
get_interface_from_ip sr ip_address = find_ip ip_address sr.if_list

abbrev pub get_interface_from_eth : Instance → Bytes → Option Interface
get_interface_from_eth sr eth_address = find_eth eth_address sr.if_list

-- malloc leaves `addr` and `ip` as they lie in memory: `junk`.
unfoldable pub sr_add_interface : Interface → Instance → Bytes → Instance
sr_add_interface junk sr name = record sr {
  if_list = sr.if_list ++ record junk { name = take iface_namelen name } ∷ [];
}

-- A change of the last interface; the list must not be empty.
unfoldable pub change_last : (Interface → Interface) → List Interface → Option (List Interface)
change_last f [] = none
change_last f (i ∷ []) = some (f i ∷ [])
change_last f (i ∷ j ∷ is) = elim (change_last f (j ∷ is)) [
  | none ↦ none
  | some is' ↦ some (i ∷ is')
]

unfoldable pub set_last : (Interface → Interface) → Instance → Result Instance
set_last f sr = elim (change_last f sr.if_list) [
  | none ↦ fault assertion
  | some is ↦ ok (record sr { if_list = is })
]

unfoldable pub sr_set_ether_addr : Instance → Bytes → Result Instance
sr_set_ether_addr sr addr = set_last (λ i. record i { addr = take 6 addr }) sr

unfoldable pub sr_set_ether_ip : Instance → ℕ → Result Instance
sr_set_ether_ip sr ip_nbo = set_last (λ i. record i { ip = ip_nbo }) sr
