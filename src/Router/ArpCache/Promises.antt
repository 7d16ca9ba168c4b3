-- ===== src/Router/ArpCache/Promises.antt =====
-- What the calls on the request queue promise their callers, and the invariant of the whole cache
-- under any sequence of calls.
use computer_network.Prelude.{
  ℕ, suc, ◌≡◌, refl, inl, inr, Bool, List, [], ◌∷◌, Option, none, some, arith, length, All-map,
  ◌==◌, Option-cases, length-replicate, if◌then◌else◌,
}
use computer_network.Router.Instance.{Bytes, ArpRequest, ArpCache, ArpEntry}
use computer_network.Router.ArpCache.{
  arpcache_sz, blank_entry, find_request, update_request, add_packet, new_request,
  sr_arpcache_queuereq, unlink, sr_arpcache_insert, sr_arpreq_destroy, sr_arpcache_init, expire,
}
use computer_network.Router.ArpCache.Entries.{length-insert, length-expire}
use computer_network.Router.ArpCache.Queue.{
  IsQueue, add_packet-ip, add_packet-address, find_request-none, find_request-update_request,
  Distinct-update_request, allocated-update_request, All-unlink, Distinct-unlink,
  find_request-unlink, find_request-unlink_address,
}

-- The request for an address: the one in the queue, or a new one.
abbrev pub request_for : ArpCache → ℕ → ArpRequest
request_for c ip = elim (find_request ip c.requests) [ none ↦ new_request c.fresh ip | some r ↦ r ]

pub queuereq_new :
    (c : ArpCache) (ip : ℕ) (packet : Bytes) (iface : Option Bytes)
    → find_request ip c.requests ≡ none
    → sr_arpcache_queuereq c ip packet iface ≡ (
      record c {
        requests = add_packet packet iface (new_request c.fresh ip) ∷ c.requests;
        fresh = suc c.fresh;
      },
      c.fresh,
    )
unfolding sr_arpcache_queuereq
queuereq_new c ip packet iface e = rw (e, sr_arpcache_queuereq)

pub queuereq_old :
    (c : ArpCache) (ip : ℕ) (packet : Bytes) (iface : Option Bytes) (r : ArpRequest)
    → find_request ip c.requests ≡ some r
    → sr_arpcache_queuereq c ip packet iface ≡ (
      record c { requests = update_request r.address (add_packet packet iface) c.requests },
      r.address,
    )
unfolding sr_arpcache_queuereq
queuereq_old c ip packet iface r e = rw (e, sr_arpcache_queuereq)

pub queuereq-IsQueue :
    (c : ArpCache) (ip : ℕ) (packet : Bytes) (iface : Option Bytes)
    → IsQueue c
    → IsQueue (sr_arpcache_queuereq c ip packet iface).0
queuereq-IsQueue c ip packet iface q = elim (Option-cases (find_request ip c.requests)) [
  | inl e ↦ rw (queuereq_new c ip packet iface e) (record {
    distinct = (
      rw (add_packet-ip packet iface (new_request c.fresh ip)) (find_request-none ip c.requests e),
      rw (add_packet-address packet iface (new_request c.fresh ip))
          (All-map c.requests (λ r lt. omega arith) q.allocated),
      q.distinct,
    );
    allocated = (
      rw (add_packet-address packet iface (new_request c.fresh ip)) (omega arith),
      All-map c.requests (λ r lt. omega arith) q.allocated,
    );
  })
  | inr (r, e) ↦
      let ips = add_packet-ip packet iface in
      let addresses = add_packet-address packet iface in
      rw (queuereq_old c ip packet iface r e) (record {
        distinct =
            Distinct-update_request (add_packet packet iface) ips addresses r.address c.requests
              q.distinct;
        allocated =
            allocated-update_request (add_packet packet iface) ips addresses c.fresh r.address
              c.requests q.allocated;
      })
]

-- In a well-formed queue, queueing a packet for an address puts it in front of the packets of that
-- address's request, which is made if there is none; every other request stays as it is, and the
-- address returned is that of the request.
pub find_request-queuereq :
    (c : ArpCache) (ip j : ℕ) (packet : Bytes) (iface : Option Bytes)
    → IsQueue c
    → (find_request j (sr_arpcache_queuereq c ip packet iface).0.requests ≡ (
        if ip == j
        then some (add_packet packet iface (request_for c ip))
        else find_request j c.requests))
      × ((sr_arpcache_queuereq c ip packet iface).1 ≡ (request_for c ip).address)
unfolding find_request
find_request-queuereq c ip j packet iface q = elim (Option-cases (find_request ip c.requests)) [
  | inl e ↦
      rw (queuereq_new c ip packet iface e, e, request_for)
        (ground (arith, add_packet-ip packet iface (new_request c.fresh ip)), refl)
  | inr (r, e) ↦
      rw (queuereq_old c ip packet iface r e, e, request_for)
        (
          find_request-update_request (add_packet packet iface) (add_packet-ip packet iface)
              (add_packet-address packet iface) ip j c.requests r q.distinct e,
          refl,
        )
]

-- An insertion hands back the request that waited for the address, and takes it off a well-formed
-- queue; every other request stays.
pub find_request-insert :
    (now : ℕ) (c : ArpCache) (mac : Bytes) (ip j : ℕ)
    → IsQueue c
    → ((sr_arpcache_insert now c mac ip).1 ≡ find_request ip c.requests)
      × (find_request j (sr_arpcache_insert now c mac ip).0.requests
          ≡ (if ip == j then none else find_request j c.requests))
unfolding sr_arpcache_insert
find_request-insert now c mac ip j q = (refl, find_request-unlink ip j c.requests q.distinct)

-- Destroying a request takes it, and no other, off a well-formed queue.
pub find_request-destroy :
    (c : ArpCache) (i j : ℕ) (r : ArpRequest)
    → IsQueue c
    → find_request i c.requests ≡ some r
    → find_request j (sr_arpreq_destroy c r.address).requests
      ≡ (if i == j then none else find_request j c.requests)
unfolding sr_arpreq_destroy
find_request-destroy c i j r q e = find_request-unlink_address i j c.requests r q.distinct e

-- The calls that the router makes on its cache.
pub data CacheCall : Type 0 where
  queuereq : ℕ → Bytes → Option Bytes → CacheCall
  insert : ℕ → Bytes → ℕ → CacheCall
  destroy : ℕ → CacheCall
  timeout : ℕ → CacheCall

pub step : ArpCache → CacheCall → ArpCache
step c (queuereq ip packet iface) = (sr_arpcache_queuereq c ip packet iface).0
step c (insert now mac ip) = (sr_arpcache_insert now c mac ip).0
step c (destroy address) = sr_arpreq_destroy c address
step c (timeout now) = record c { entries = expire now c.entries }

pub run : ArpCache → List CacheCall → ArpCache
run c [] = c
run c (k ∷ ks) = run (step c k) ks

pub record IsCache (c : ArpCache) : Type 0 where
  pub queue : IsQueue c
  pub size : length c.entries ≡ arpcache_sz

entries-queuereq :
    (c : ArpCache) (ip : ℕ) (packet : Bytes) (iface : Option Bytes)
    → (sr_arpcache_queuereq c ip packet iface).0.entries ≡ c.entries
unfolding sr_arpcache_queuereq
entries-queuereq c ip packet iface = ground arith

unlink-IsQueue :
    (c : ArpCache) (test : ArpRequest → Bool) (es : List ArpEntry)
    → IsQueue c
    → IsQueue (record c { requests = unlink test c.requests; entries = es })
unlink-IsQueue c test es q = record {
  distinct = Distinct-unlink test c.requests q.distinct;
  allocated = All-unlink test _ c.requests q.allocated;
}

step-IsCache : (c : ArpCache) (k : CacheCall) → IsCache c → IsCache (step c k)
unfolding step sr_arpreq_destroy
step-IsCache c (queuereq ip packet iface) v = record {
  queue = queuereq-IsQueue c ip packet iface v.queue;
  size = rw (entries-queuereq c ip packet iface) v.size;
}
step-IsCache c (insert now mac ip) v = record {
  queue = unfold sr_arpcache_insert in unlink-IsQueue c _ _ v.queue;
  size = rw (length-insert now c mac ip) v.size;
}
step-IsCache c (destroy address) v = record {
  queue = unlink-IsQueue c _ c.entries v.queue;
  size = v.size;
}
step-IsCache c (timeout now) v = record {
  queue = record { distinct = v.queue.distinct; allocated = v.queue.allocated };
  size = rw (length-expire now c.entries) v.size;
}

run-IsCache_from : (c : ArpCache) (ks : List CacheCall) → IsCache c → IsCache (run c ks)
unfolding run
run-IsCache_from c [] v = v
run-IsCache_from c (k ∷ ks) v = run-IsCache_from (step c k) ks (step-IsCache c k v)

-- From sr_arpcache_init on, whatever calls are made, the table keeps its hundred entries and the
-- queue has one request for an address at most, each with memory of its own.
pub run-IsCache : (fresh : ℕ) (ks : List CacheCall) → IsCache (run (sr_arpcache_init fresh) ks)
unfolding sr_arpcache_init
run-IsCache fresh ks = run-IsCache_from _ ks (record {
  queue = record { distinct = tt; allocated = tt };
  size = length-replicate arpcache_sz blank_entry;
})
