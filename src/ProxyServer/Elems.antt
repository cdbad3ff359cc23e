-- ===== src/ProxyServer/Elems.antt =====
-- `epoll_elem` of proxy/epoll_queue/epoll_elem.cpp inside the server's queue: registering,
-- updating, moving and destroying elements, and closing what an iterator stands for. A place or an
-- iterator to what was erased is `fault undefined`.
use proxi.Base.{
  ℕ, List, [], ◌∷◌, none, some, true, false, Outcome, ok, fault, annotated, undefined, terminated,
  ◌>>=◌, ◌==◌, if◌then◌else◌,
}
use proxi.EpollCore.{Operation, ctl_del, ctl_mod, insert_handler, erase_handler}
use proxi.EpollQueue
use proxi.EpollQueue.{EpollElem, Connection, EpollQueue, find_socket}
use proxi.EpollQueue.Timer.{find_connection}
use proxi.FdState.{State, value_of}
use proxi.FdState
use proxi.ProxyServer.{
  ProxyServer, Os, Place, Owner, Handler, at_socket, client_of, server_of, socket, connection,
}

-- A state that the code writes as a list.
abbrev pub states : List State → ℕ
states = value_of

-- The default constructor, which a moved-from element is.
abbrev pub no_elem : EpollElem
no_elem = record { fd = 0; events = 0; timeout = 0; expires_in = 0 }

unfoldable pub put_socket : ℕ → EpollElem → List (ℕ × EpollElem) → List (ℕ × EpollElem)
put_socket fd e [] = []
put_socket fd e ((k, e') ∷ l) = if k == fd then (k, e) ∷ l else (k, e') ∷ put_socket fd e l

unfoldable pub put_connection : Connection → List Connection → List Connection
put_connection c [] = []
put_connection c (d ∷ l) = if d.id == c.id then c ∷ l else d ∷ put_connection c l

-- the connection behind an iterator
unfoldable pub connection_at : ℕ → ProxyServer → Outcome Connection
connection_at id s = elim (find_connection id s.queue.connections) [
  | none ↦ fault undefined
  | some c ↦ ok c
]

unfoldable pub socket_at : ℕ → ProxyServer → Outcome EpollElem
socket_at fd s = elim (find_socket fd s.queue.sockets) [ none ↦ fault undefined | some e ↦ ok e ]

unfoldable pub elem_at : Place → ProxyServer → Outcome EpollElem
unfolding socket_at connection_at
elem_at (at_socket fd) s = socket_at fd s
elem_at (client_of id) s = connection_at id s >>= λ c. ok c.client
elem_at (server_of id) s = connection_at id s >>= λ c. ok c.server

abbrev pub with_sockets : List (ℕ × EpollElem) → ProxyServer → ProxyServer
with_sockets l s = record s { queue = record s.queue { sockets = l } }

abbrev pub with_connections : List Connection → ProxyServer → ProxyServer
with_connections l s = record s { queue = record s.queue { connections = l } }

-- an assignment to the element at a place
unfoldable pub put_elem : Place → EpollElem → ProxyServer → Outcome ProxyServer
put_elem (at_socket fd) e s = do
  old ← socket_at fd s
  ok (with_sockets (put_socket fd e s.queue.sockets) s)
put_elem (client_of id) e s = do
  c ← connection_at id s
  ok (with_connections (put_connection (record c { client = e }) s.queue.connections) s)
put_elem (server_of id) e s = do
  c ← connection_at id s
  ok (with_connections (put_connection (record c { server = e }) s.queue.connections) s)

-- the client of a connection, moved away from it
unfoldable pub take_client : ℕ → ProxyServer → Outcome (EpollElem × ProxyServer)
take_client id s = do
  c ← connection_at id s
  s' ← put_elem (client_of id) no_elem s
  ok (c.client, s')

-- `update(handler)`
unfoldable pub update_handler : Place → Handler → ProxyServer → Outcome ProxyServer
update_handler p h s = do
  e ← elem_at p s
  ok (record s { handlers = insert_handler e.fd h (erase_handler e.fd s.handlers) })

module _ (os : Os) where
  -- `epoll_ctl`, and the exception behind it
  unfoldable pub control : Operation → ℕ → ℕ → ProxyServer → Outcome ProxyServer
  control op fd events s = if os.epoll_ctl op fd events then ok s else fault annotated

  -- `update(state)`
  unfoldable pub update_state : Place → ℕ → ProxyServer → Outcome ProxyServer
  update_state p state s = do
    e ← elem_at p s
    elim (FdState.ne e.events state) [
      | false ↦ ok s
      | true ↦ put_elem p (record e { events = state }) s >>= λ s'. control ctl_mod e.fd state s'
    ]

  -- `update(state, handler)`
  unfoldable pub update : Place → ℕ → Handler → ProxyServer → Outcome ProxyServer
  update p state h s = update_state p state s >>= λ s'. update_handler p h s'

  -- the destructor
  unfoldable pub destroy : EpollElem → ProxyServer → Outcome ProxyServer
  destroy e s =
      if e.fd == 0
      then ok s
      else if os.epoll_ctl ctl_del e.fd 0
      then ok (record s { handlers = erase_handler e.fd s.handlers })
      else fault terminated

  -- `queue.close(iterator)`; a connection destroys its members in the reverse of their order
  unfoldable pub close : Owner → ProxyServer → Outcome ProxyServer
  close (socket fd) s = do
    e ← socket_at fd s
    destroy e (record s { queue = EpollQueue.close_socket s.queue fd })
  close (connection id) s = do
    c ← connection_at id s
    s' ← destroy c.server (record s { queue = EpollQueue.close_connection s.queue id })
    destroy c.client s'

  -- `queue.save_registration(registration, timeout)`: an element whose key is there is destroyed
  unfoldable pub save_elem : EpollElem → ℕ → ProxyServer → Outcome ProxyServer
  save_elem e timeout s = elim (find_socket e.fd s.queue.sockets) [
    | none ↦ ok (record s { queue = EpollQueue.save_registration s.queue e timeout })
    | some old ↦ destroy e s
  ]

  -- `escape_client`, with the key of the iterator that it returns
  unfoldable pub escape_client : ℕ → ProxyServer → Outcome (ℕ × ProxyServer)
  escape_client id s = do
    (client, s') ← take_client id s
    s'' ← save_elem client EpollQueue.short_socket_timeout s'
    ok (client.fd, s'')

-- `queue.set_active(iterator)`
unfoldable pub set_active : Owner → ProxyServer → Outcome ProxyServer
set_active (socket fd) s = do
  e ← socket_at fd s
  ok (record s { queue = EpollQueue.set_active_socket s.queue fd })
set_active (connection id) s = do
  c ← connection_at id s
  ok (record s { queue = EpollQueue.set_active_connection s.queue id })
