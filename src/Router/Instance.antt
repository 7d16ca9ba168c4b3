-- ===== src/Router/Instance.antt =====
-- The records of sr_if.h, sr_rt.h, sr_arpcache.h and sr_router.h: the state of one router.
use computer_network.Prelude.{ℕ, Bool, List}

-- A MAC address or a C string: its bytes, the terminating NUL left out.
abbrev pub Bytes : Type 0
Bytes = List ℕ

-- struct sr_if. `speed` is never set nor read.
pub record Interface : Type 0 where
  pub name : Bytes
  pub addr : Bytes
  pub ip : ℕ

-- struct sr_rt, with the `s_addr` of each in_addr.
pub record Route : Type 0 where
  pub dest : ℕ
  pub gw : ℕ
  pub mask : ℕ
  pub interface : Bytes

-- struct sr_packet
pub record Packet : Type 0 where
  pub buf : Bytes
  pub iface : Bytes

-- struct sr_arpentry
pub record ArpEntry : Type 0 where
  pub mac : Bytes
  pub ip : ℕ
  pub added : ℕ
  pub valid : Bool

-- struct sr_arpreq. `address` is where calloc put it: pointers to requests are compared.
pub record ArpRequest : Type 0 where
  pub address : ℕ
  pub ip : ℕ
  pub sent : ℕ
  pub times_sent : ℕ
  pub packets : List Packet

-- struct sr_arpcache; `fresh` is the address that the next calloc returns.
pub record ArpCache : Type 0 where
  pub entries : List ArpEntry
  pub requests : List ArpRequest
  pub fresh : ℕ

-- struct sr_instance. `wire` is what was written to the socket, newest first: each frame with
-- the name of the interface that it leaves by.
pub record Instance : Type 0 where
  pub if_list : List Interface
  pub routing_table : List Route
  pub cache : ArpCache
  pub wire : List (Bytes × Bytes)

-- sr_IFACE_NAMELEN
abbrev pub iface_namelen : ℕ
iface_namelen = 32

-- ETHER_ADDR_LEN
abbrev pub ether_addr_len : ℕ
ether_addr_len = 6
