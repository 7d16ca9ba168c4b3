-- ===== src/Router/Hardware.antt =====
-- sr_handle_hwinfo of sr_vns_comm.c: the interfaces that the server describes.
pub mod Described
use computer_network.Prelude.{ℕ, Bool, List, [], ◌∷◌, ◌==◌, if◌then◌else◌}
use computer_network.Prelude.Buffer.{load32}
use computer_network.Prelude.Text.{c_string}
use computer_network.Prelude.Result.{Result, ok, fault, ◌>>=◌}
use computer_network.Router.Instance.{Bytes, Interface, Instance}
use computer_network.Router.Interfaces.{sr_add_interface, sr_set_ether_addr, sr_set_ether_ip}

-- c_hw_entry, its key in host byte order.
pub record HwEntry : Type 0 where
  pub key : ℕ
  pub value : Bytes

-- HWINTERFACE
abbrev pub hw_interface : ℕ
hw_interface = 1

-- HWETHER
abbrev pub hw_ether : ℕ
hw_ether = 32

-- HWETHIP
abbrev pub hw_ethip : ℕ
hw_ethip = 64

-- One case of the switch; keys that are not named only print.
unfoldable pub handle_hw_entry : Interface → HwEntry → Instance → Result Instance
handle_hw_entry junk e sr =
    if e.key == hw_interface
    then ok (sr_add_interface junk sr (c_string e.value))
    else if e.key == hw_ethip
    then sr_set_ether_ip sr (load32 0 e.value)
    else if e.key == hw_ether
    then sr_set_ether_addr sr e.value
    else ok sr

unfoldable pub sr_handle_hwinfo : Interface → List HwEntry → Instance → Result Instance
sr_handle_hwinfo junk [] sr = ok sr
sr_handle_hwinfo junk (e ∷ es) sr = do sr' ← handle_hw_entry junk e sr; sr_handle_hwinfo junk es sr'
