-- ===== src/Tcp/Api/Calls.antt =====
-- The calls of mysock_api.c that set a connection up. What the calls of the operating system return
-- is an argument: none where they succeed, or the errno.
use computer_network.Prelude.{
  ℕ, Bool, true, not, Option, none, some, take, min, ltb, ◌==◌, if◌then◌else◌,
}
use computer_network.Prelude.Result.{Result, ok, fault, guard, ◌>>=◌, ◌>>◌, assertion, null_deref}
use computer_network.Tcp.Segment.{Bytes}
use computer_network.Tcp.Listen.{
  ListenQueue, waiting, accepted, mysock_dequeue_connection, mysock_set_backlog,
}
use computer_network.Tcp.Wire.{Sockaddr}
use computer_network.Tcp.Network.{sockaddr_bytes}
use computer_network.Tcp.Api.{
  Mysock, Returned, failed, returned, waits, ebadf, einval, eaddrnotavail, eisconn, enotconn,
}

-- `-1` with errno, or a value.
abbrev pub outcome : Option ℕ → ℕ → Returned
outcome none value = returned value
outcome (some errno) value = failed errno

-- The same for an errno that is a field.
abbrev pub errno_outcome : ℕ → ℕ → Returned
errno_outcome errno value = if errno == 0 then returned value else failed errno

-- mybind
unfoldable pub mybind : Option ℕ → Option Mysock → Sockaddr → Result (Returned × Option Mysock)
mybind bind_error none addr = ok (failed ebadf, none)
mybind bind_error (some ctx) addr =
    if addr.sa_family == 2
    then (do
      guard (not ctx.net.listening) assertion
      ok (outcome bind_error 0, some (record ctx { bound = true })))
    else ok (failed eaddrnotavail, some ctx)

-- _mysock_bind_ephemeral
unfoldable pub mysock_bind_ephemeral : Option ℕ → Mysock → Result Mysock
mysock_bind_ephemeral bind_error ctx = do
  guard (not ctx.bound) assertion
  elim bind_error [ some errno ↦ fault assertion | none ↦ ok (record ctx { bound = true }) ]

-- _mysock_wait_for_connection, at the time when it looks.
unfoldable pub mysock_wait_for_connection : Mysock → Returned
mysock_wait_for_connection ctx = if ctx.blocking then waits else errno_outcome ctx.stcp_errno 0

-- myconnect; `threads` is what the receive thread and the transport layer do to the context while
-- it waits for the connection.
unfoldable pub myconnect :
    Option ℕ → (Mysock → Mysock) → Option Mysock → Sockaddr → ℕ → Result (Returned × Option Mysock)
myconnect bind_error threads none name namelen = ok (failed einval, none)
myconnect bind_error threads (some ctx) name namelen =
    if ctx.net.peer_addr_len == 0
    then (do
      let named : Mysock = record ctx {
        net = record ctx.net { peer_addr = name; peer_addr_len = namelen; peer_addr_valid = true };
      } in
          (do
            ctx1 ← if ctx.bound then ok named else mysock_bind_ephemeral bind_error named
            guard (not ctx1.net.listening) assertion
            let ctx2 = threads (record ctx1 { net = record ctx1.net { is_active = true } }) in
                ok (mysock_wait_for_connection ctx2, some ctx2)))
    else ok (failed eisconn, some ctx)

-- myaccept, of a socket with this descriptor and queue; `contexts` is the table of contexts. It
-- gives the address of the peer too.
unfoldable pub myaccept :
    (ℕ → Option Mysock)
    → ℕ
    → Option Mysock
    → ListenQueue
    → Result (Returned × Option Sockaddr × ListenQueue)
myaccept contexts sd none q = ok (failed ebadf, none, q)
myaccept contexts sd (some accept_ctx) q =
    if accept_ctx.net.listening
    then (do
      next ← mysock_dequeue_connection q
      elim next [
        | waiting ↦ ok (waits, none, q)
        | accepted new_sd q' ↦ elim (contexts new_sd) [
          | none ↦ fault assertion
          | some ctx ↦ elim ctx.listen_sd [
            | none ↦ fault assertion
            | some listen_sd ↦ do
              guard (if ctx.stcp_errno == 0 then ltb 0 ctx.net.peer_addr_len else true) assertion
              guard (listen_sd == sd) assertion
              ok (
                errno_outcome ctx.stcp_errno ctx.my_sd,
                if ctx.stcp_errno == 0 then some ctx.net.peer_addr else none,
                q',
              )
          ]
        ]
      ])
    else ok (failed einval, none, q)

-- mylisten; its first assertion reads the context before it is checked.
unfoldable pub mylisten :
    Option ℕ
    → Bool
    → Option Mysock
    → ℕ
    → Option ListenQueue
    → Result (Returned × Mysock × ListenQueue)
mylisten listen_error moved none backlog found = fault null_deref
mylisten listen_error moved (some ctx) backlog found = do
  guard ctx.bound assertion
  ok (
    outcome listen_error 0,
    record ctx { net = record ctx.net { listening = true } },
    mysock_set_backlog backlog moved found,
  )

-- mygetpeername: what it returns, what it copies to `name`, and `*namelen`.
unfoldable pub mygetpeername : Option Mysock → ℕ → Result (Returned × Bytes × ℕ)
mygetpeername none namelen = fault null_deref
mygetpeername (some ctx) namelen =
    let len = ctx.net.peer_addr_len in
    ok (
      if ltb 0 len then returned 0 else failed enotconn,
      take (min namelen len) (sockaddr_bytes ctx.net.peer_addr),
      len,
    )
