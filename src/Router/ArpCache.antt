-- ===== src/Router/ArpCache.antt =====
-- sr_arpcache.c: the cache of IP to MAC mappings and the queue of outstanding requests. The clock
-- is an argument; the lock serialises the calls, and is left out. The two calls that send frames,
-- handle_arpreq and sr_arpcache_sweepreqs, are in Router/Requests.antt.
pub mod Entries
pub mod Queue
pub mod Promises
use computer_network.Prelude.{
  ℕ, suc, ◌+◌, Bool, true, false, List, [], ◌∷◌, Option, none, some, take, replicate, ltb, ◌==◌,
  ◌&&◌, not, length, if◌then◌else◌,
}
use computer_network.Router.Instance.{Bytes, ArpEntry, ArpRequest, ArpCache, Packet, iface_namelen}

-- SR_ARPCACHE_SZ and SR_ARPCACHE_TO
abbrev pub arpcache_sz : ℕ
arpcache_sz = 100

abbrev pub arpcache_to : ℕ
arpcache_to = 15

abbrev pub serves : ℕ → ArpEntry → Bool
serves ip e = e.valid && e.ip == ip

-- The loop keeps the last entry that it meets.
unfoldable pub lookup_loop : ℕ → Option ArpEntry → List ArpEntry → Option ArpEntry
lookup_loop ip entry [] = entry
lookup_loop ip entry (e ∷ es) = lookup_loop ip (if serves ip e then some e else entry) es

unfoldable pub sr_arpcache_lookup : ArpCache → ℕ → Option ArpEntry
sr_arpcache_lookup cache ip = lookup_loop ip none cache.entries

unfoldable pub find_request : ℕ → List ArpRequest → Option ArpRequest
find_request ip [] = none
find_request ip (r ∷ rs) = if r.ip == ip then some r else find_request ip rs

-- A write through a pointer to the request at an address.
unfoldable pub update_request : ℕ → (ArpRequest → ArpRequest) → List ArpRequest → List ArpRequest
update_request address f [] = []
update_request address f (r ∷ rs) =
    if r.address == address then f r ∷ rs else r ∷ update_request address f rs

-- The packet is put in front of those that wait, unless it is empty or `iface` is NULL.
abbrev pub add_packet : Bytes → Option Bytes → ArpRequest → ArpRequest
add_packet packet none r = r
add_packet [] (some iface) r = r
add_packet (b ∷ bs) (some iface) r = record r {
  packets = record { buf = b ∷ bs; iface = take iface_namelen iface } ∷ r.packets;
}

-- A request from calloc.
abbrev pub new_request : ℕ → ℕ → ArpRequest
new_request address ip = record {
  address = address;
  ip = ip;
  sent = 0;
  times_sent = 0;
  packets = [];
}

-- Returns the address of the request, new or old.
unfoldable pub sr_arpcache_queuereq : ArpCache → ℕ → Bytes → Option Bytes → ArpCache × ℕ
sr_arpcache_queuereq cache ip packet iface = elim (find_request ip cache.requests) [
  | none ↦ (
    record cache {
      requests = add_packet packet iface (new_request cache.fresh ip) ∷ cache.requests;
      fresh = suc cache.fresh;
    },
    cache.fresh,
  )
  | some r ↦ (
    record cache { requests = update_request r.address (add_packet packet iface) cache.requests },
    r.address,
  )
]

-- Unlinks the first request that passes a test.
unfoldable pub unlink : (ArpRequest → Bool) → List ArpRequest → List ArpRequest
unlink test [] = []
unlink test (r ∷ rs) = if test r then rs else r ∷ unlink test rs

-- The first entry that is not valid is overwritten; in a full table nothing is.
unfoldable pub fill_slot : ArpEntry → List ArpEntry → List ArpEntry
fill_slot new [] = []
fill_slot new (e ∷ es) = if not e.valid then new ∷ es else e ∷ fill_slot new es

unfoldable pub sr_arpcache_insert : ℕ → ArpCache → Bytes → ℕ → ArpCache × Option ArpRequest
sr_arpcache_insert now cache mac ip = (
  record cache {
    requests = unlink (λ r. r.ip == ip) cache.requests;
    entries =
        fill_slot (record { mac = take 6 mac; ip = ip; added = now; valid = true }) cache.entries;
  },
  find_request ip cache.requests,
)

unfoldable pub sr_arpreq_destroy : ArpCache → ℕ → ArpCache
sr_arpreq_destroy cache address = record cache {
  requests = unlink (λ r. r.address == address) cache.requests;
}

-- memset zeroes the table.
abbrev pub blank_entry : ArpEntry
blank_entry = record { mac = 0 ∷ 0 ∷ 0 ∷ 0 ∷ 0 ∷ 0 ∷ []; ip = 0; added = 0; valid = false }

unfoldable pub sr_arpcache_init : ℕ → ArpCache
sr_arpcache_init fresh = record {
  entries = replicate arpcache_sz blank_entry;
  requests = [];
  fresh = fresh;
}

-- The part of sr_arpcache_timeout that goes over the entries: difftime(curtime, added) > 15.
unfoldable pub expire : ℕ → List ArpEntry → List ArpEntry
expire curtime [] = []
expire curtime (e ∷ es) =
    (if e.valid && ltb (e.added + arpcache_to) curtime then record e { valid = false } else e)
    ∷ expire curtime es
