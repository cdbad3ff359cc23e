-- ===== src/ProxyServer/Connecting.antt =====
-- The handlers of proxy/proxy_server.cpp that lead from a new client to a connection: those of the
-- listener and the notifier, of `connect_to_server`, and of `make_server_connect_handler`.
use proxi.Base.{
  ℕ, List, [], ◌∷◌, ◌++◌, Option, none, some, Bool, true, false, ◌&&◌, Outcome, ok, fault,
  annotated, undefined, ◌>>=◌, ◌==◌, if◌then◌else◌,
}
use proxi.BufferedMessage
use proxi.EpollCore.{ctl_add}
use proxi.EpollQueue
use proxi.EpollQueue.{
  EpollElem, find_socket, new_elem, change_timeout, short_socket_timeout, long_socket_timeout,
}
use proxi.FdState
use proxi.FdState.{State, in_state, out_state, wait_state, error_state, hup_state, rdhup_state}
use proxi.FileDescriptor
use proxi.ProxyServer.Actions.{blank_request, read_request, send_404, call_connection}
use proxi.ProxyServer.Elems.{
  states, socket_at, connection_at, put_elem, put_connection, with_connections, control,
  update_state, update_handler, update, destroy, close, escape_client, set_active,
}
use proxi.ProxyServer.{
  ProxyServer, Os, OnConnection, at_socket, client_of, server_of, socket, connection, first_request,
  client_waits, connects, connected, in_progress, refused, unreachable, other_error,
}
use proxi.Resolver
use proxi.Resolver.{ResolvedIp, Extra}
use proxi.Text.{Bytes, equal}

-- `state.is(...)`
abbrev pub has_event : ℕ → List State → Bool
has_event state l = FdState.is state (states l)

-- What a `catch` of `annotated_exception` leaves.
abbrev pub or_caught {ℓ} : {A : Type ℓ} → Outcome A → A → Outcome A
or_caught (ok a) left = ok a
or_caught (fault annotated) left = ok left
or_caught (fault x) left = fault x

-- `on_resolve.find` and `on_resolve.erase`
unfoldable pub find_resolve : ℕ → Bytes → List ((ℕ × Bytes) × OnConnection) → Option OnConnection
find_resolve fd host [] = none
find_resolve fd host ((k, next) ∷ l) =
    if k.0 == fd && equal k.1 host then some next else find_resolve fd host l

unfoldable pub erase_resolve :
    ℕ → Bytes → List ((ℕ × Bytes) × OnConnection) → List ((ℕ × Bytes) × OnConnection)
erase_resolve fd host [] = []
erase_resolve fd host ((k, next) ∷ l) =
    if k.0 == fd && equal k.1 host then l else (k, next) ∷ erase_resolve fd host l

-- `on_resolve.erase(on_resolve.find(...))`: erasing the end of the map is undefined
unfoldable pub erase_found : ℕ → Bytes → ProxyServer → Outcome ProxyServer
erase_found fd host s = elim (find_resolve fd host s.on_resolve) [
  | none ↦ fault undefined
  | some next ↦ ok (record s { on_resolve = erase_resolve fd host s.on_resolve })
]

module _ (os : Os) where
  -- `queue.save_registration(socket, state, timeout)`
  unfoldable pub save_client : ℕ → ProxyServer → Outcome ProxyServer
  save_client fd s = do
    s' ← control os ctl_add fd (states (in_state ∷ [])) s
    elim (find_socket fd s.queue.sockets) [
      | none ↦ ok (record s' {
        queue = EpollQueue.save_socket s'.queue fd (states (in_state ∷ [])) short_socket_timeout;
      })
      | some e ↦
          destroy os (new_elem fd (states (in_state ∷ [])) short_socket_timeout s.queue.ticks) s'
    ]

  -- a new client: what an exception leaves is the client with the events that were set
  unfoldable pub accept_client : ℕ → ProxyServer → Outcome ProxyServer
  accept_client fd s = do
    e ← socket_at fd s
    left ←
        put_elem (at_socket fd) (record e { events = states (in_state ∷ rdhup_state ∷ []) })
          (record s { requests = s.requests ++ BufferedMessage.empty blank_request ∷ [] })
    or_caught
        (read_request os (at_socket fd) (BufferedMessage.empty blank_request) (socket fd)
          (first_request fd) s)
        left

  -- `listener_handler`
  unfoldable pub run_listens : ℕ → ProxyServer → Outcome ProxyServer
  run_listens state s = elim (has_event state (in_state ∷ [])) [
    | false ↦ ok s
    | true ↦ do
      e ← socket_at s.listener s
      elim (os.accept4 e.fd) [
        | none ↦ ok s
        | some fd ↦ elim (os.epoll_ctl ctl_add fd (states (in_state ∷ []))) [
          | false ↦ ok s
          | true ↦ save_client fd s >>= λ s'. accept_client fd s'
        ]
      ]
  ]

  -- The end of `notifier_handler`: the client and the new socket become a connection.
  unfoldable pub make_conn : ℕ → ℕ → ResolvedIp → ProxyServer → Outcome ProxyServer
  make_conn client destination ip s = do
    e ← socket_at client s
    s1 ← control os ctl_add destination (states (out_state ∷ [])) s
    let server : EpollElem = record {
      fd = destination;
      events = states (out_state ∷ []);
      timeout = 0;
      expires_in = 0;
    }
    let conn = EpollQueue.make_connection s1.queue e server short_socket_timeout
    let id = s1.queue.fresh
    let queue = EpollQueue.save_connection (EpollQueue.close_socket s1.queue client) conn
    s2 ←
        update os (client_of id) (states (rdhup_state ∷ [])) (client_waits ip.extra id)
          (record s1 { queue = queue })
    update_handler (server_of id)
        (connects id (Resolver.copy os.memory (Resolver.copy os.memory ip))) s2

  -- `notifier_handler` behind the call of `rt.get_ip`
  unfoldable pub resolved : ℕ → ResolvedIp → ProxyServer → Outcome ProxyServer
  resolved destination ip s =
      let client = ip.extra.socket in
      let host = ip.extra.host in
      elim (find_resolve client host s.on_resolve) [
        | none ↦ ok s
        | some next ↦ elim (Resolver.has_ip ip) [
          | false ↦
              send_404 os client (record s { on_resolve = erase_resolve client host s.on_resolve })
          | true ↦ elim (os.connect destination (Resolver.get_address ip)) [
            | connected ↦ make_conn client destination ip s
            | in_progress ↦ make_conn client destination ip s
            | refused ↦ do
              s' ← send_404 os client s
              ok (record s' { on_resolve = erase_resolve client host s'.on_resolve })
          ]
        ]
      ]

  -- `notifier_handler`
  unfoldable pub run_notifies : ℕ → ProxyServer → Outcome ProxyServer
  run_notifies state s = elim (has_event state (in_state ∷ [])) [
    | false ↦ ok s
    | true ↦ do
      e ← socket_at s.notifier s
      bytes ← FileDescriptor.read (os.read e.fd) 8
      elim os.new_socket [
        | none ↦ fault annotated
        | some destination ↦ do
          (ip, resolver) ← Resolver.get_ip s.resolver
          resolved destination ip (record s { resolver = resolver })
      ]
  ]

  -- the handler of `connect_to_server`
  unfoldable pub run_resolving : ℕ → Bytes → ℕ → ProxyServer → Outcome ProxyServer
  run_resolving sock host state s = elim (has_event state (rdhup_state ∷ [])) [
    | false ↦ ok s
    | true ↦ do e ← socket_at sock s; s' ← erase_found e.fd host s; close os (socket sock) s'
  ]

  -- the client's handler while the server is connected
  unfoldable pub run_client_waits : Extra → ℕ → ℕ → ProxyServer → Outcome ProxyServer
  run_client_waits extra conn state s = elim (has_event state (rdhup_state ∷ [])) [
    | false ↦ ok s
    | true ↦
        close os (connection conn)
          (record s { on_resolve = erase_resolve extra.socket extra.host s.on_resolve })
  ]

  -- the query is erased, and the client is told and leaves its connection, which is closed
  unfoldable pub give_up : Extra → ℕ → ProxyServer → Outcome ProxyServer
  give_up extra conn s = do
    s1 ← erase_found extra.socket extra.host s
    (it, s2) ← escape_client os conn s1
    s3 ← send_404 os it s2
    close os (connection conn) s3

  -- The branch of an error of the socket; `ip` is the handler's own copy.
  unfoldable pub try_next : ℕ → ResolvedIp → ℕ → ProxyServer → Outcome ProxyServer
  try_next conn ip server s =
      let ip' = Resolver.next_ip ip in
      elim (Resolver.has_ip ip') [
        | false ↦ give_up ip.extra conn s
        | true ↦ elim (os.connect server (Resolver.get_address ip')) [
          | connected ↦ ok s
          | in_progress ↦ ok s
          | refused ↦ give_up ip.extra conn s
        ]
      ]

  -- The branch of a connection that is made.
  unfoldable pub established : Extra → ℕ → ProxyServer → Outcome ProxyServer
  established extra conn s = elim (find_resolve extra.socket extra.host s.on_resolve) [
    | none ↦ fault undefined
    | some next ↦ do
      s1 ←
          update_state os (client_of conn) (states (wait_state ∷ []))
            (record s { on_resolve = erase_resolve extra.socket extra.host s.on_resolve })
      s2 ← update_state os (server_of conn) (states (wait_state ∷ [])) s1
      c ← connection_at conn s2
      call_connection os next conn (
          with_connections
            (put_connection (change_timeout c long_socket_timeout) s2.queue.connections) s2)
  ]

  -- The handler of `make_server_connect_handler`. The loop over events calls a copy of the handler,
  -- so that what `next_ip` does to the captured `ip` is lost with the copy.
  unfoldable pub run_connects : ℕ → ResolvedIp → ℕ → ProxyServer → Outcome ProxyServer
  run_connects conn captured state s = do
    c ← connection_at conn s
    s1 ← set_active (connection conn) s
    let ip = Resolver.copy os.memory captured
    elim (has_event state (rdhup_state ∷ [])) [
      | true ↦ give_up ip.extra conn s1
      | false ↦ elim (has_event state (hup_state ∷ error_state ∷ [])) [
        | true ↦ elim (os.socket_error c.server.fd) [
          | none ↦ fault annotated
          | some unreachable ↦ try_next conn ip c.server.fd s1
          | some other_error ↦ give_up ip.extra conn s1
        ]
        | false ↦ elim (has_event state (out_state ∷ [])) [
          | true ↦ established ip.extra conn s1
          | false ↦ ok s1
        ]
      ]
    ]
