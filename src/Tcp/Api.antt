-- ===== src/Tcp/Api.antt =====
-- The calls of the application, from mysock_api.c, and those by which the transport layer serves
-- them, from stcp_api.c. Each queue has the part of the heap that its nodes are in for itself; locks
-- and the signals to waiting threads are left out.
pub mod Reads
pub mod Closing
pub mod Calls
pub mod Connecting
pub mod Opened
mod Examples
use computer_network.Prelude.{
  ℕ, ◌+◌, ◌%◌, ◌/◌, Bool, true, false, not, ◌&&◌, ◌||◌, List, [], ◌∷◌, Option, none, some, length,
  ltb, ◌==◌, if◌then◌else◌,
}
use computer_network.Prelude.Result.{Result, ok, fault, guard, ◌>>=◌, ◌>>◌, assertion, null_deref}
use computer_network.Tcp.Segment.{Bytes}
use computer_network.Tcp.Queue.{
  PacketQueue, Heap, Dequeued, blocked, dequeued, is_none, mysock_enqueue_buffer,
  mysock_dequeue_buffer, Memcpy,
}
use computer_network.Tcp.Listen.{ListenQueue, mysock_passive_connection_complete}
use computer_network.Tcp.Wire.{Sockaddr, NetworkContext}

-- A queue and the heap that its nodes are in.
pub record Channel : Type 0 where
  pub heap : Heap
  pub pq : PacketQueue

-- mysock_context_t, but for its threads, locks and network_recv_queue; `net` holds is_active and
-- listening.
pub record Mysock : Type 0 where
  pub net : NetworkContext
  pub bound : Bool
  pub my_sd : ℕ
  pub listen_sd : Option ℕ
  pub blocking : Bool
  pub stcp_errno : ℕ
  pub close_requested : Bool
  pub eof : Bool
  pub network_recv_queue : Channel
  pub app_send_queue : Channel
  pub app_recv_queue : Channel

-- What a call of the application returns: -1 with this errno, or a value; or it goes on waiting.
pub data Returned : Type 0 where
  failed : ℕ → Returned
  returned : ℕ → Returned
  waits : Returned

abbrev pub eintr : ℕ
eintr = 4

abbrev pub ebadf : ℕ
ebadf = 9

abbrev pub einval : ℕ
einval = 22

abbrev pub eaddrnotavail : ℕ
eaddrnotavail = 99

abbrev pub econnaborted : ℕ
econnaborted = 103

abbrev pub eisconn : ℕ
eisconn = 106

abbrev pub enotconn : ℕ
enotconn = 107

abbrev pub econnrefused : ℕ
econnrefused = 111

-- A channel into which a packet is put, in a node at this address.
unfoldable pub put : ℕ → Channel → Bytes → Result Channel
put node c packet = do
  done ← mysock_enqueue_buffer node c.heap c.pq packet
  ok (record { heap = done.0; pq = done.1 })

-- What a call takes from a channel: the bytes, the length that it returns and what is left.
unfoldable pub take_from : Memcpy → Channel → ℕ → Bool → Result (Option (Bytes × ℕ × Channel))
take_from memcpy c max_len remove_partial = do
  got ← mysock_dequeue_buffer memcpy c.heap c.pq max_len remove_partial
  ok (elim got [
    | blocked ↦ none
    | dequeued bytes len heap pq ↦ some (bytes, len, record { heap = heap; pq = pq })
  ])

-- A round of stcp_wait_for_event before it waits: the events that it finds, and the context.
unfoldable pub find_events : ℕ → Mysock → ℕ × Mysock
find_events flags ctx =
    let app = if flags % 2 == 1 && not (is_none ctx.app_recv_queue.pq.head) then 1 else 0 in
    let net = if flags / 2 % 2 == 1 && not (is_none ctx.network_recv_queue.pq.head) then 2 else 0 in
    if ctx.close_requested && is_none ctx.app_recv_queue.pq.head
    then (app + net + 4, record ctx { close_requested = false })
    else (app + net, ctx)

-- How a wait for the condition ends: the context as other threads have left it, or the time that
-- was given is over.
pub data Wait : Type 0 where
  signalled : Mysock → Wait
  timed_out : Mysock → Wait

-- stcp_wait_for_event, as far as these waits take it: the events, or none where it waits on.
unfoldable pub stcp_wait_for_event : ℕ → List Wait → Mysock → Option ℕ × Mysock
stcp_wait_for_event flags [] ctx =
    let (rc, ctx') = find_events flags ctx in if rc == 0 then (none, ctx') else (some rc, ctx')
stcp_wait_for_event flags (timed_out later ∷ more) ctx =
    let (rc, ctx') = find_events flags ctx in if rc == 0 then (some 0, later) else (some rc, ctx')
stcp_wait_for_event flags (signalled later ∷ more) ctx =
    let rest = stcp_wait_for_event flags more later in
    let (rc, ctx') = find_events flags ctx in if rc == 0 then rest else (some rc, ctx')

-- stcp_app_recv: the bytes and the length; none where it waits.
unfoldable pub stcp_app_recv : Memcpy → ℕ → Mysock → Result (Option (Bytes × ℕ) × Mysock)
stcp_app_recv memcpy max_len ctx = do
  got ← take_from memcpy ctx.app_recv_queue max_len true
  ok (elim got [
    | none ↦ (none, ctx)
    | some (bytes, len, c) ↦ (some (bytes, len), record ctx { app_recv_queue = c })
  ])

-- stcp_app_send
unfoldable pub stcp_app_send : ℕ → Bytes → Mysock → Result Mysock
stcp_app_send node src ctx =
    if ltb 0 (length src)
    then (do c ← put node ctx.app_send_queue src; ok (record ctx { app_send_queue = c }))
    else ok ctx

-- stcp_fin_received, and what transport_thread_func does at its end.
unfoldable pub stcp_fin_received : ℕ → Mysock → Result Mysock
stcp_fin_received node ctx = do
  c ← put node ctx.app_send_queue []
  ok (record ctx { app_send_queue = c })

-- stcp_unblock_application with this errno; `q` is the queue of the listening socket.
unfoldable pub stcp_unblock_application : ℕ → Mysock → ListenQueue → Result (Mysock × ListenQueue)
stcp_unblock_application errno ctx q = do
  guard ctx.blocking assertion
  let ctx' : Mysock = record ctx {
    blocking = false;
    stcp_errno = if errno == eintr then 0 else errno;
  } in
      if ctx.net.is_active
      then ok (ctx', q)
      else (do q' ← mysock_passive_connection_complete ctx.my_sd q; ok (ctx', q'))

-- transport_thread_func, after transport_init has returned with this errno.
unfoldable pub transport_thread_end : ℕ → ℕ → Mysock → ListenQueue → Result (Mysock × ListenQueue)
transport_thread_end node errno ctx q = do
  done ←
      if ctx.blocking
      then stcp_unblock_application
          (if errno == 0 || errno == eintr
            then if ctx.net.is_active then econnrefused else econnaborted
            else errno)
          ctx q
      else ok (ctx, q)
  ctx' ← stcp_fin_received node done.0
  ok (ctx', done.1)

-- mywrite
unfoldable pub mywrite : ℕ → Option Mysock → Bytes → Result (Returned × Option Mysock)
mywrite node none buf = ok (failed ebadf, none)
mywrite node (some ctx) buf = if ctx.net.listening then ok (failed einval, some ctx) else (do
  guard (not ctx.close_requested) assertion
  c ← put node ctx.app_recv_queue buf
  ok (returned (length buf), some (record ctx { app_recv_queue = c })))

-- myread: what it returns, the bytes in the buffer, and the context.
unfoldable pub myread : Memcpy → Option Mysock → ℕ → Result (Returned × Bytes × Option Mysock)
myread memcpy none buf_len = ok (failed ebadf, [], none)
myread memcpy (some ctx) buf_len =
    if ctx.net.listening then ok (failed einval, [], some ctx) else (do
      guard (not ctx.close_requested) assertion
      (if ctx.eof then ok (returned 0, [], some ctx) else (do
        got ← take_from memcpy ctx.app_send_queue buf_len true
        ok (elim got [
          | none ↦ (waits, [], some ctx)
          | some (bytes, len, c) ↦
              (returned len, bytes, some (record ctx { app_send_queue = c; eof = len == 0 }))
        ]))))

-- The request of myclose, before it waits for the transport layer.
unfoldable pub request_close : Option Mysock → Returned × Option Mysock
request_close none = (failed ebadf, none)
request_close (some ctx) = (returned 0, some (record ctx { close_requested = true }))
