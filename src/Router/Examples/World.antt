-- ===== src/Router/Examples/World.antt =====
-- One router with the interface eth3, 10.0.1.1, and the host 10.0.1.100 behind it; its frames.
use computer_network.Prelude.{ℕ, true, false, [], ◌∷◌, replicate}
use computer_network.Prelude.Buffer.{store8, store32}
use computer_network.Router.Instance.{
  Bytes, Interface, Route, ArpEntry, ArpRequest, ArpCache, Instance,
}

abbrev pub own_mac : Bytes
own_mac = 2 ∷ 0 ∷ 0 ∷ 0 ∷ 0 ∷ 3 ∷ []

abbrev pub host_mac : Bytes
host_mac = 2 ∷ 0 ∷ 0 ∷ 0 ∷ 0 ∷ 100 ∷ []

abbrev pub eth3_name : Bytes
eth3_name = 101 ∷ 116 ∷ 104 ∷ 51 ∷ []

abbrev pub eth3 : Interface
eth3 = record { name = eth3_name; addr = own_mac; ip = 0x0101000a }

-- 10.0.1.100, as the little-endian machine reads it.
abbrev pub host_ip : ℕ
host_ip = 0x6401000a

-- 192.168.2.2
abbrev pub far_ip : ℕ
far_ip = 0x0202a8c0

abbrev pub to_host : Route
to_host = record { dest = host_ip; gw = host_ip; mask = 0xffffffff; interface = eth3_name }

-- 192.168.0.0/16 by way of the host.
abbrev pub to_far : Route
to_far = record { dest = 0xa8c0; gw = host_ip; mask = 0xffff; interface = eth3_name }

-- The subnet of eth3, its gateway the router itself.
abbrev pub to_own : Route
to_own = record { dest = 0xa8c0; gw = 0x0101000a; mask = 0xffff; interface = eth3_name }

abbrev pub host_entry : ArpEntry
host_entry = record { mac = host_mac; ip = host_ip; added = 5; valid = true }

abbrev pub own_entry : ArpEntry
own_entry = record { mac = own_mac; ip = 0x0101000a; added = 5; valid = true }

abbrev pub free_entry : ArpEntry
free_entry = record { mac = []; ip = 0; added = 0; valid = false }

abbrev pub waiting : ArpRequest
waiting = record { address = 7; ip = host_ip; sent = 0; times_sent = 0; packets = [] }

abbrev pub resolved_cache : ArpCache
resolved_cache = record { entries = free_entry ∷ host_entry ∷ []; requests = []; fresh = 1 }

abbrev pub waiting_cache : ArpCache
waiting_cache = record { entries = free_entry ∷ []; requests = waiting ∷ []; fresh = 8 }

abbrev pub resolved : Instance
resolved = record {
  if_list = eth3 ∷ [];
  routing_table = to_host ∷ to_far ∷ [];
  cache = resolved_cache;
  wire = [];
}

abbrev pub unresolved : Instance
unresolved = record {
  if_list = eth3 ∷ [];
  routing_table = to_host ∷ to_far ∷ [];
  cache = record { entries = free_entry ∷ []; requests = []; fresh = 1 };
  wire = [];
}

-- A network whose gateway address is that of the router.
abbrev pub own_gateway : Instance
own_gateway = record {
  if_list = eth3 ∷ [];
  routing_table = to_own ∷ [];
  cache = record { entries = own_entry ∷ []; requests = []; fresh = 1 };
  wire = [];
}

abbrev pub asking : Instance
asking = record { if_list = eth3 ∷ []; routing_table = []; cache = waiting_cache; wire = [] }

abbrev pub junk : Bytes
junk = replicate 70 0

-- UDP from 192.168.2.2 to the host.
abbrev pub udp : Bytes
udp =
    2 ∷ 0 ∷ 0 ∷ 0 ∷ 0 ∷ 3 ∷ 2 ∷ 0 ∷ 0 ∷ 0 ∷ 0 ∷ 100 ∷ 8 ∷ 0 ∷ 69 ∷ 0 ∷ 0 ∷ 28 ∷ 0 ∷ 0 ∷ 0 ∷ 0 ∷ 64
    ∷ 17 ∷ 172 ∷ 195 ∷ 192 ∷ 168 ∷ 2 ∷ 2 ∷ 10 ∷ 0 ∷ 1 ∷ 100 ∷ 0 ∷ 0 ∷ 0 ∷ 0 ∷ 0 ∷ 0 ∷ 0 ∷ 0 ∷ []

-- The same with a TTL of 1.
abbrev pub expiring : Bytes
expiring =
    2 ∷ 0 ∷ 0 ∷ 0 ∷ 0 ∷ 3 ∷ 2 ∷ 0 ∷ 0 ∷ 0 ∷ 0 ∷ 100 ∷ 8 ∷ 0 ∷ 69 ∷ 0 ∷ 0 ∷ 28 ∷ 0 ∷ 0 ∷ 0 ∷ 0 ∷ 1
    ∷ 17 ∷ 235 ∷ 195 ∷ 192 ∷ 168 ∷ 2 ∷ 2 ∷ 10 ∷ 0 ∷ 1 ∷ 100 ∷ 0 ∷ 0 ∷ 0 ∷ 0 ∷ 0 ∷ 0 ∷ 0 ∷ 0 ∷ []

-- The same with a TTL of 64 and an identification that makes the checksum 0xffff.
abbrev pub full_sum : Bytes
full_sum =
    2 ∷ 0 ∷ 0 ∷ 0 ∷ 0 ∷ 3 ∷ 2 ∷ 0 ∷ 0 ∷ 0 ∷ 0 ∷ 100 ∷ 8 ∷ 0 ∷ 69 ∷ 0 ∷ 0 ∷ 28 ∷ 172 ∷ 195 ∷ 0 ∷ 0
    ∷ 64 ∷ 17 ∷ 255 ∷ 255 ∷ 192 ∷ 168 ∷ 2 ∷ 2 ∷ 10 ∷ 0 ∷ 1 ∷ 100 ∷ 0 ∷ 0 ∷ 0 ∷ 0 ∷ 0 ∷ 0 ∷ 0 ∷ 0
    ∷ []

-- An echo request from the host to the router.
abbrev pub ping : Bytes
ping =
    2 ∷ 0 ∷ 0 ∷ 0 ∷ 0 ∷ 3 ∷ 2 ∷ 0 ∷ 0 ∷ 0 ∷ 0 ∷ 100 ∷ 8 ∷ 0 ∷ 69 ∷ 0 ∷ 0 ∷ 56 ∷ 0 ∷ 0 ∷ 0 ∷ 0 ∷ 64
    ∷ 1 ∷ 100 ∷ 97 ∷ 10 ∷ 0 ∷ 1 ∷ 100 ∷ 10 ∷ 0 ∷ 1 ∷ 1 ∷ 8 ∷ 0 ∷ 149 ∷ 155 ∷ 0 ∷ 1 ∷ 0 ∷ 1 ∷ 7 ∷ 7
    ∷ 7 ∷ 7 ∷ 7 ∷ 7 ∷ 7 ∷ 7 ∷ 7 ∷ 7 ∷ 7 ∷ 7 ∷ 7 ∷ 7 ∷ 7 ∷ 7 ∷ 7 ∷ 7 ∷ 7 ∷ 7 ∷ 7 ∷ 7 ∷ 7 ∷ 7 ∷ 7 ∷ 7
    ∷ 7 ∷ 7 ∷ []

-- The host asks for the address of the router.
abbrev pub who_has_router : Bytes
who_has_router =
    255 ∷ 255 ∷ 255 ∷ 255 ∷ 255 ∷ 255 ∷ 2 ∷ 0 ∷ 0 ∷ 0 ∷ 0 ∷ 100 ∷ 8 ∷ 6 ∷ 0 ∷ 1 ∷ 8 ∷ 0 ∷ 6 ∷ 4 ∷ 0
    ∷ 1 ∷ 2 ∷ 0 ∷ 0 ∷ 0 ∷ 0 ∷ 100 ∷ 10 ∷ 0 ∷ 1 ∷ 100 ∷ 0 ∷ 0 ∷ 0 ∷ 0 ∷ 0 ∷ 0 ∷ 10 ∷ 0 ∷ 1 ∷ 1 ∷ []

-- The host answers the router.
abbrev pub host_is_at : Bytes
host_is_at =
    2 ∷ 0 ∷ 0 ∷ 0 ∷ 0 ∷ 3 ∷ 2 ∷ 0 ∷ 0 ∷ 0 ∷ 0 ∷ 100 ∷ 8 ∷ 6 ∷ 0 ∷ 1 ∷ 8 ∷ 0 ∷ 6 ∷ 4 ∷ 0 ∷ 2 ∷ 2 ∷ 0
    ∷ 0 ∷ 0 ∷ 0 ∷ 100 ∷ 10 ∷ 0 ∷ 1 ∷ 100 ∷ 2 ∷ 0 ∷ 0 ∷ 0 ∷ 0 ∷ 3 ∷ 10 ∷ 0 ∷ 1 ∷ 1 ∷ []

-- An echo reply to the router.
abbrev pub pong : Bytes
pong = store8 34 0 ping

-- UDP from the host to the router.
abbrev pub to_router : Bytes
to_router = store32 26 host_ip (store32 30 0x0101000a udp)
