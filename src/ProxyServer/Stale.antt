-- ===== src/ProxyServer/Stale.antt =====
-- What `connect_to_server` leaves for the answers that come later: the query, the handler of the
-- client, and an entry of `on_resolve`, where an entry that is there already stays.
use proxi.Base.{
  ℕ, ◌≡◌, refl, ◌∙◌, ap, subst, List, [], ◌∷◌, Option, none, some, true, Outcome, ok, ◌>>=◌,
  Returns, Returns-bind, arith, eq→==,
}
use proxi.EpollCore.{find_handler}
use proxi.EpollCore.Dispatch.{find-replaced_handler}
use proxi.EpollQueue.{EpollElem, find_socket, change_timeout, long_socket_timeout}
use proxi.FdState.{rdhup_state, wait_state}
use proxi.ProxyServer.Actions.{connect_to_server, insert_resolve, call_connection}
use proxi.ProxyServer.Connecting.{find_resolve, erase_resolve, established}
use proxi.ProxyServer.Elems.{
  states, put_elem, put_connection, put_socket, with_connections, control, socket_at, connection_at,
  elem_at, update_state, update_handler, update,
}
use proxi.ProxyServer.{
  ProxyServer, Os, Handler, OnConnection, at_socket, client_of, server_of, resolving,
}
use proxi.Resolver
use proxi.Resolver.{Extra}
use proxi.Text.Laws.{equal_refl}
use proxi.Text.{Bytes, equal}

-- The entry that was there, or else the new one.
abbrev pub first_of : Option OnConnection → OnConnection → OnConnection
first_of none next = next
first_of (some old) next = old

find-insert_resolve :
    (fd : ℕ) (host : Bytes) (next : OnConnection) (l : List ((ℕ × Bytes) × OnConnection))
    → equal host host ≡ true
    → find_resolve fd host (insert_resolve (fd, host) next l)
      ≡ some (first_of (find_resolve fd host l) next)
unfolding find_resolve insert_resolve
find-insert_resolve fd host next [] same = grind (arith, same, eq→== fd fd refl)
find-insert_resolve fd host next ((k, n) ∷ l) same =
    ground (arith, find-insert_resolve fd host next l same)

put_socket-fd :
    (sock : ℕ) (e e' : EpollElem) (l : List (ℕ × EpollElem))
    → find_socket sock l ≡ some e
    → find_socket sock (put_socket sock e' l) ≡ some e'
unfolding find_socket put_socket
put_socket-fd sock e e' [] h = cc
put_socket-fd sock e e' ((k, x) ∷ l) h = ground (arith, put_socket-fd sock e e' l)

-- What a client has behind `update`, besides its events: the new handler, and the rest of the
-- server as it was.
abbrev Waits : ℕ → Handler → ProxyServer → ProxyServer → Type 0
Waits fd h s s' =
    (find_handler fd s'.handlers ≡ some h)
    × (s'.on_resolve ≡ s.on_resolve)
    × (s'.resolver ≡ s.resolver)
    × (s'.notifier ≡ s.notifier)

update-Waits :
    (os : Os) (sock state : ℕ) (h : Handler) (e : EpollElem) (s : ProxyServer)
    → find_socket sock s.queue.sockets ≡ some e
    → Returns (Waits e.fd h s) (update os (at_socket sock) state h s)
unfolding update update_state update_handler put_elem control elem_at socket_at
update-Waits os sock state h e s there =
    let put = put_socket-fd sock e (record e { events = state }) s.queue.sockets there in
    let here = find-replaced_handler e.fd h s.handlers in grind (arith, there, put, here)

-- What the handler of a connected server does with the action that waits under a key.
abbrev pub goes_on : Os → Extra → ℕ → OnConnection → ProxyServer → Outcome ProxyServer
goes_on os extra conn next s = do
  s1 ←
      update_state os (client_of conn) (states (wait_state ∷ []))
        (record s { on_resolve = erase_resolve extra.socket extra.host s.on_resolve })
  s2 ← update_state os (server_of conn) (states (wait_state ∷ [])) s1
  c ← connection_at conn s2
  call_connection os next conn (
      with_connections (put_connection (change_timeout c long_socket_timeout) s2.queue.connections)
        s2)

-- What `connect_to_server` does, where it returns.
pub record Asks (fd sock : ℕ) (host : Bytes) (next : OnConnection) (s s1 : ProxyServer)
    : Type 0 where
  pub query :
      s1.resolver
      ≡ Resolver.resolve_host s.resolver (record {
        host = host;
        notifier = s.notifier;
        extra = record { socket = fd; host = host };
      })
  pub waits : find_handler fd s1.handlers ≡ some (resolving sock host)
  pub entry :
      find_resolve fd host s1.on_resolve ≡ some (first_of (find_resolve fd host s.on_resolve) next)

-- The query of a client, handed to the resolver.
abbrev hands_on : ℕ → Bytes → ProxyServer → ProxyServer
hands_on fd host s = record s {
  resolver =
      Resolver.resolve_host s.resolver (record {
        host = host;
        notifier = s.notifier;
        extra = record { socket = fd; host = host };
      });
}

connect_to_server-Asks :
    (os : Os) (sock : ℕ) (host : Bytes) (next : OnConnection) (e : EpollElem) (s : ProxyServer)
    → find_socket sock s.queue.sockets ≡ some e
    → Returns (Asks e.fd sock host next s) (connect_to_server os sock host next s)
unfolding connect_to_server socket_at
connect_to_server-Asks os sock host next e s there =
    let added = record s { on_resolve = insert_resolve (e.fd, host) next s.on_resolve } in
    let updated =
      update os (at_socket sock) (states (rdhup_state ∷ [])) (resolving sock host) added in
    let same = find-insert_resolve e.fd host next s.on_resolve (equal_refl host) in
    let done : connect_to_server os sock host next s
        ≡ (updated >>= λ s'. ok (hands_on e.fd host s')) =
      rw (connect_to_server, socket_at, there) refl in
    rw done (
      Returns-bind (Waits e.fd (resolving sock host) added) (Asks e.fd sock host next s) updated _
        (update-Waits os sock (states (rdhup_state ∷ [])) (resolving sock host) e added there)
        λ s' w. record {
          query = rw (w.2, w.3) refl;
          waits = w.0;
          entry = ap (find_resolve e.fd host) w.1 ∙ same;
        })

-- A client that asks for a host, where `connect_to_server` returns: its query is handed to the
-- resolver, and its handler waits for the answer. When the server is connected later, with the
-- entries of `on_resolve` as they were left, the handler goes on with the action that an earlier
-- client of this descriptor and host has left in `on_resolve`, if there is one, and with the
-- client's own action only if there is none.
pub connect_to_server-established :
    (os os' : Os) (sock conn : ℕ) (host : Bytes) (next : OnConnection) (e : EpollElem)
    (s s1 s2 : ProxyServer)
    → find_socket sock s.queue.sockets ≡ some e
    → connect_to_server os sock host next s ≡ ok s1
    → s2.on_resolve ≡ s1.on_resolve
    → (s1.resolver
        ≡ Resolver.resolve_host s.resolver (record {
          host = host;
          notifier = s.notifier;
          extra = record { socket = e.fd; host = host };
        }))
      × (find_handler e.fd s1.handlers ≡ some (resolving sock host))
      × (established os' (record { socket = e.fd; host = host }) conn s2
          ≡ goes_on os'
              (record { socket = e.fd; host = host })
              conn
              (first_of (find_resolve e.fd host s.on_resolve) next)
              s2)
unfolding established
connect_to_server-established os os' sock conn host next e s s1 s2 there runs same =
    let asks =
      subst (Returns (Asks e.fd sock host next s)) runs
        (connect_to_server-Asks os sock host next e s there) in
    let found = ap (find_resolve e.fd host) same ∙ asks.entry in
    (asks.query, asks.waits, rw (established, found) refl)
