-- ===== src/Tcp/Api/Connecting.antt =====
-- What the application learns of a connection attempt.
use computer_network.Prelude.{
  ℕ, ◌<◌, ◌≡◌, Bool, true, false, ◌||◌, inl, inr, Bool-cases, List, [], ◌∷◌, ◌++◌, Option, none,
  some, arith, ◌==◌, if◌then◌else◌,
}
use computer_network.Prelude.Result.{ok}
use computer_network.Tcp.Segment.{Bytes}
use computer_network.Tcp.Queue.Refine.{mysock_enqueue_buffer-IsQueue}
use computer_network.Tcp.Listen.{ListenQueue}
use computer_network.Tcp.Wire.{Sockaddr}
use computer_network.Tcp.Api.{
  Mysock, Returned, failed, eintr, eisconn, econnrefused, put, stcp_fin_received,
  stcp_unblock_application, transport_thread_end,
}
use computer_network.Tcp.Api.Closing.{Holds}
use computer_network.Tcp.Api.Calls.{mysock_bind_ephemeral, mysock_wait_for_connection, myconnect}

-- A context after the address of its peer is set.
abbrev named : Mysock → Sockaddr → ℕ → Bool → Mysock
named ctx name namelen bound = record ctx {
  net = record ctx.net {
    peer_addr = name;
    peer_addr_len = namelen;
    peer_addr_valid = true;
    is_active = true;
  };
  bound = bound;
}

myconnect_len :
    (bind_error : Option ℕ) (threads : Mysock → Mysock) (ctx ctx' : Mysock) (name : Sockaddr)
    (namelen : ℕ) (r : Returned)
    → ((c : Mysock) → (threads c).net.peer_addr_len ≡ c.net.peer_addr_len)
    → 0 < namelen
    → myconnect bind_error threads (some ctx) name namelen ≡ ok (r, some ctx')
    → 0 < ctx'.net.peer_addr_len
unfolding myconnect mysock_bind_ephemeral
myconnect_len bind_error threads ctx ctx' name namelen r keep some_len e =
    elim (Bool-cases ctx.bound) [
      | inl is_bound ↦
          ground (arith, e, some_len, is_bound, keep (named ctx name namelen ctx.bound))
      | inr unbound ↦ ground (arith, e, some_len, unbound, keep (named ctx name namelen true))
    ]

-- Once myconnect has been called on a mysocket, with an address of some length, each later call on
-- it fails with EISCONN and changes nothing, whatever the first one returned, if the threads leave
-- the length of the peer's address as it is.
pub myconnect-myconnect :
    (bind_error later_error : Option ℕ) (threads later_threads : Mysock → Mysock)
    (ctx ctx' : Mysock) (name later_name : Sockaddr) (namelen later_len : ℕ) (r : Returned)
    → ((c : Mysock) → (threads c).net.peer_addr_len ≡ c.net.peer_addr_len)
    → 0 < namelen
    → myconnect bind_error threads (some ctx) name namelen ≡ ok (r, some ctx')
    → myconnect later_error later_threads (some ctx') later_name later_len
      ≡ ok (failed eisconn, some ctx')
unfolding myconnect
myconnect-myconnect bind_error later_error threads later_threads ctx ctx' name later_name namelen
      later_len r keep some_len e =
    ground (arith, myconnect_len bind_error threads ctx ctx' name namelen r keep some_len e)

-- If transport_init ends while the application still waits in myconnect, the application is woken
-- up with an error: with the errno that transport_init leaves, or ECONNREFUSED where it leaves 0 or
-- EINTR; and the end of the data is in its queue.
pub mysock_wait_for_connection-transport_thread_end :
    (node errno : ℕ) (ctx : Mysock) (q : ListenQueue) (packets : List Bytes)
    → ctx.blocking ≡ true
    → ctx.net.is_active ≡ true
    → Holds ctx.app_send_queue packets
    → ctx.app_send_queue.heap node ≡ none
    → (ctx' : Mysock) × (transport_thread_end node errno ctx q ≡ ok (ctx', q))
      × (mysock_wait_for_connection ctx'
          ≡ failed (if errno == 0 || errno == eintr then econnrefused else errno))
      × Holds ctx'.app_send_queue (packets ++ [] ∷ [])
unfolding transport_thread_end stcp_unblock_application stcp_fin_received put
    mysock_wait_for_connection
mysock_wait_for_connection-transport_thread_end node errno ctx q packets waiting active held free =
    let c = ctx.app_send_queue in
    let (heap, pq, done, held') =
      mysock_enqueue_buffer-IsQueue node c.heap c.pq [] packets held free in
    let code = if errno == 0 || errno == eintr then econnrefused else errno in
    (
      record ctx {
        blocking = false;
        stcp_errno = code;
        app_send_queue = record { heap = heap; pq = pq };
      },
      ground (arith, waiting, active, done),
      ground arith,
      held',
    )
