-- ===== src/Router/Hardware/Described.antt =====
-- The interfaces that a description leaves.
use mathlib.Core.List.{append-nil, append_assoc}
use computer_network.Prelude.{
  ℕ, ◌^◌, ◌≤◌, ◌<◌, ◌≡◌, ◌≢◌, refl, sym, ap, ◌∙◌, List, [], ◌∷◌, ◌++◌, arith, take, take_all,
  length, All,
}
use computer_network.Prelude.Text.{c_string}
use computer_network.Prelude.Text.Laws.{c_string-append, take-append}
use computer_network.Prelude.Buffer.{load32, slice, le_value, le_bytes}
use computer_network.Prelude.Result.{ok}
use computer_network.Router.Instance.{Bytes, Interface, Instance, iface_namelen}
use computer_network.Router.Interfaces.{sr_add_interface, sr_set_ether_addr, sr_set_ether_ip}
use computer_network.Router.Interfaces.Lookup.{set_last_lem}
use computer_network.Router.Hardware.{
  HwEntry, hw_interface, hw_ether, hw_ethip, handle_hw_entry, sr_handle_hwinfo,
}

-- The entries for one interface, each value filled up by `pad`.
abbrev pub entries_for : Bytes → Interface → List HwEntry → List HwEntry
entries_for pad i rest =
    record { key = hw_interface; value = i.name ++ 0 ∷ pad }
    ∷ record { key = hw_ether; value = i.addr ++ pad }
    ∷ record { key = hw_ethip; value = le_bytes 4 i.ip ++ pad }
    ∷ rest

abbrev pub describe : Bytes → List Interface → List HwEntry
describe pad [] = []
describe pad (i ∷ is) = entries_for pad i (describe pad is)

-- What the entries can hold: a name of at most 32 bytes, none a NUL, six bytes and 32 bits.
pub record IsDescribable (i : Interface) : Type 0 where
  pub text : All (λ b. b ≢ 0) i.name
  pub fits : length i.name ≤ 32
  pub mac : length i.addr ≡ 6
  pub word : i.ip < 2 ^ 32

load32-le_bytes : (ip : ℕ) (pad : Bytes) → ip < 2 ^ 32 → load32 0 (le_bytes 4 ip ++ pad) ≡ ip
unfolding load32 slice le_value le_bytes
load32-le_bytes ip pad h = omega arith

-- What the entries for an interface hold is that interface.
read_back : Bytes → Interface → Interface
read_back pad i = record {
  name = take iface_namelen (c_string (i.name ++ 0 ∷ pad));
  addr = take 6 (i.addr ++ pad);
  ip = load32 0 (le_bytes 4 i.ip ++ pad);
}

read_back_same : (pad : Bytes) (i : Interface) → IsDescribable i → read_back pad i ≡ i
unfolding read_back
read_back_same pad i d =
    rw
      (
        c_string-append i.name pad d.text,
        take_all 32 i.name d.fits,
        take-append 6 i.addr pad (sym d.mac),
        load32-le_bytes i.ip pad d.word,
      )
      refl

three_entries :
    (junk : Interface) (pad : Bytes) (i : Interface) (rest : List HwEntry) (sr : Instance)
    → sr_handle_hwinfo junk (entries_for pad i rest) sr
      ≡ sr_handle_hwinfo junk rest (record sr { if_list = sr.if_list ++ read_back pad i ∷ [] })
unfolding sr_handle_hwinfo handle_hw_entry sr_add_interface sr_set_ether_addr sr_set_ether_ip
    read_back
three_entries junk pad i rest sr =
    let j : Interface = record junk { name = take iface_namelen (c_string (i.name ++ 0 ∷ pad)) } in
    let k : Interface = record j { addr = take 6 (i.addr ++ pad) } in
    let ip = load32 0 (le_bytes 4 i.ip ++ pad) in
    let named : Instance = record sr { if_list = sr.if_list ++ j ∷ [] } in
    let addressed : Instance = record sr { if_list = sr.if_list ++ k ∷ [] } in
    rw
      (
        set_last_lem (λ i'. record i' { addr = take 6 (i.addr ++ pad) }) named sr.if_list j refl,
        set_last_lem (λ i'. record i' { ip = ip }) addressed sr.if_list k refl,
      )
      refl

-- Whatever malloc leaves in memory, the entries that describe interfaces whose names have at most
-- 32 bytes, none of them NUL, whose addresses have six bytes and whose IPs have 32 bits append
-- exactly these interfaces, in their order.
pub sr_handle_hwinfo-describe :
    (junk : Interface) (pad : Bytes) (is : List Interface) (sr : Instance)
    → All IsDescribable is
    → sr_handle_hwinfo junk (describe pad is) sr ≡ ok (record sr { if_list = sr.if_list ++ is })
sr_handle_hwinfo-describe junk pad [] sr h = unfold sr_handle_hwinfo in rw append-nil
sr_handle_hwinfo-describe junk pad (i ∷ is) sr h =
    rw (three_entries junk pad i (describe pad is) sr, read_back_same pad i h.0)
      (sr_handle_hwinfo-describe junk pad is (record sr { if_list = sr.if_list ++ i ∷ [] }) h.1
        ∙ ap (λ l. ok (record sr { if_list = l })) (append_assoc sr.if_list (i ∷ []) is))
