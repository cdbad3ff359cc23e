-- ===== src/ProxyServer/Linked/Places.antt =====
-- The places of descriptors after each operation on the two containers.
use proxi.Base.{ℕ, ◌≡◌, ◌≢◌, refl, sym, subst, some, arith, eq→==}
use proxi.EpollQueue.Timer.{find_connection}
use proxi.EpollQueue.{
  EpollQueue, EpollElem, Connection, find_socket, erase_socket, erase_connection, touch_sockets,
  touch_connections, set_active_socket, set_active_connection, close_socket, close_connection,
}
use proxi.ProxyServer.Elems.{put_socket, put_connection, no_elem}
use proxi.ProxyServer.Linked.Finds.{
  find-put_socket, find-erase_socket, find-touch_sockets, find-erase_connection,
  clients-touch_connections, servers-touch_connections, find-put_connection,
}
use proxi.ProxyServer.Linked.Keys.{
  put_socket-KeysDiffer, erase_socket-KeysDiffer, touch_sockets-KeysDiffer,
  erase_connection-IdsDiffer, touch_connections-IdsDiffer, put_connection-IdsDiffer,
}
use proxi.ProxyServer.Linked.Shapes.{Same, Less}
use proxi.ProxyServer.Linked.{fd_at, Shape, Nowhere}
use proxi.ProxyServer.{Place, at_socket, client_of, server_of}

-- An element replaced by one with the same descriptor.
pub put_socket-Same :
    (q : EpollQueue) (k : ℕ) (e old : EpollElem)
    → find_socket k q.sockets ≡ some old
    → e.fd ≡ old.fd
    → Same q (record q { sockets = put_socket k e q.sockets })
put_socket-Same q k e old there same = record {
  places = places;
  keys = put_socket-KeysDiffer k e q.sockets;
  ids = λ d. d;
  fresh = refl;
}
  where
    places : (p : Place) → fd_at p (record q { sockets = put_socket k e q.sockets }) ≡ fd_at p q
    places (at_socket j) = grind (arith, find-put_socket k j e old q.sockets there, there, same)
    places (client_of id) = refl
    places (server_of id) = refl

pub put_connection-Same :
    (q : EpollQueue) (c old : Connection)
    → find_connection c.id q.connections ≡ some old
    → c.client.fd ≡ old.client.fd
    → c.server.fd ≡ old.server.fd
    → Same q (record q { connections = put_connection c q.connections })
put_connection-Same q c old there cs ss = record {
  places = places;
  keys = λ d. d;
  ids = put_connection-IdsDiffer c q.connections;
  fresh = refl;
}
  where
    places :
        (p : Place)
        → fd_at p (record q { connections = put_connection c q.connections }) ≡ fd_at p q
    places (at_socket j) = refl
    places (client_of id) =
        grind (arith, find-put_connection c old id q.connections there, there, cs)
    places (server_of id) =
        grind (arith, find-put_connection c old id q.connections there, there, ss)

pub set_active_socket-Same : (q : EpollQueue) (k : ℕ) → Same q (set_active_socket q k)
unfolding set_active_socket
set_active_socket-Same q k = record {
  places = places;
  keys = touch_sockets-KeysDiffer k q.ticks q.sockets;
  ids = λ d. d;
  fresh = refl;
}
  where
    places :
        (p : Place) → fd_at p (record q { sockets = touch_sockets q.ticks k q.sockets }) ≡ fd_at p q
    places (at_socket j) = find-touch_sockets k j q.ticks q.sockets
    places (client_of id) = refl
    places (server_of id) = refl

pub set_active_connection-Same : (q : EpollQueue) (id : ℕ) → Same q (set_active_connection q id)
unfolding set_active_connection
set_active_connection-Same q id = record {
  places = places;
  keys = λ d. d;
  ids = touch_connections-IdsDiffer id q.ticks q.connections;
  fresh = refl;
}
  where
    places :
        (p : Place)
        → fd_at p (record q { connections = touch_connections q.ticks id q.connections })
          ≡ fd_at p q
    places (at_socket j) = refl
    places (client_of j) = clients-touch_connections id j q.ticks q.connections
    places (server_of j) = servers-touch_connections id j q.ticks q.connections

-- What is closed is gone, and the rest stays.
pub close_socket-Less : (q : EpollQueue) (k : ℕ) → Shape q → Less q (close_socket q k)
unfolding close_socket
close_socket-Less q k g = record {
  back = back;
  sockets = λ j fd. back_any (at_socket j) fd;
  keys = erase_socket-KeysDiffer k q.sockets;
  ids = λ d. d;
  unused = λ id e. e;
  fresh = refl;
}
  where
    back_any :
        (p : Place) (fd : ℕ)
        → fd_at p (record q { sockets = erase_socket k q.sockets }) ≡ some fd
        → fd_at p q ≡ some fd
    back_any (at_socket j) fd e = grind (arith, find-erase_socket k j q.sockets g.keys, e)
    back_any (client_of id) fd e = e
    back_any (server_of id) fd e = e

    back :
        (p : Place) (fd : ℕ)
        → fd ≢ 0
        → fd_at p (record q { sockets = erase_socket k q.sockets }) ≡ some fd
        → fd_at p q ≡ some fd
    back p fd n e = back_any p fd e

pub close_socket_stays :
    (q : EpollQueue) (k : ℕ) (e : EpollElem) (fd : ℕ) (p : Place)
    → Shape q
    → find_socket k q.sockets ≡ some e
    → fd ≢ e.fd
    → fd_at p q ≡ some fd
    → fd_at p (close_socket q k) ≡ some fd
unfolding close_socket
close_socket_stays q k e fd (at_socket j) g there n h =
    grind (arith, find-erase_socket k j q.sockets g.keys, there, n, h)
close_socket_stays q k e fd (client_of j) g there n h = h
close_socket_stays q k e fd (server_of j) g there n h = h

pub close_connection-Less : (q : EpollQueue) (id : ℕ) → Shape q → Less q (close_connection q id)
unfolding close_connection
close_connection-Less q id g = record {
  back = back;
  sockets = λ j fd e. e;
  keys = λ d. d;
  ids = erase_connection-IdsDiffer id q.connections;
  unused = λ j e. grind (arith, find-erase_connection id j q.connections g.ids, e);
  fresh = refl;
}
  where
    back :
        (p : Place) (fd : ℕ)
        → fd ≢ 0
        → fd_at p (record q { connections = erase_connection id q.connections }) ≡ some fd
        → fd_at p q ≡ some fd
    back (at_socket j) fd n e = e
    back (client_of j) fd n e = grind (arith, find-erase_connection id j q.connections g.ids, e)
    back (server_of j) fd n e = grind (arith, find-erase_connection id j q.connections g.ids, e)

pub close_connection_stays :
    (q : EpollQueue) (id : ℕ) (c : Connection) (fd : ℕ) (p : Place)
    → Shape q
    → find_connection id q.connections ≡ some c
    → fd ≢ c.server.fd
    → fd ≢ c.client.fd
    → fd_at p q ≡ some fd
    → fd_at p (close_connection q id) ≡ some fd
unfolding close_connection
close_connection_stays q id c fd (at_socket j) g there n m h = h
close_connection_stays q id c fd (client_of j) g there n m h =
    grind (arith, find-erase_connection id j q.connections g.ids, there, m, h)
close_connection_stays q id c fd (server_of j) g there n m h =
    grind (arith, find-erase_connection id j q.connections g.ids, there, n, h)

-- A client that is moved out of its connection.
module _ (q : EpollQueue) (c : Connection)
    (there : find_connection c.id q.connections ≡ some c) where
  abbrev pub without : EpollQueue
  without = record q { connections = put_connection (record c { client = no_elem }) q.connections }

  pub without-Less : Less q without
  without-Less = record {
    back = back;
    sockets = λ j fd e. e;
    keys = λ d. d;
    ids = put_connection-IdsDiffer (record c { client = no_elem }) q.connections;
    unused = λ j e. grind (
      arith,
      find-put_connection (record c { client = no_elem }) c j q.connections there,
      e,
      there,
    );
    fresh = refl;
  }
    where
      back : (p : Place) (fd : ℕ) → fd ≢ 0 → fd_at p without ≡ some fd → fd_at p q ≡ some fd
      back (at_socket j) fd n e = e
      back (client_of j) fd n e = grind (
        arith,
        find-put_connection (record c { client = no_elem }) c j q.connections there,
        e,
        there,
        n,
      )
      back (server_of j) fd n e = grind (
        arith,
        find-put_connection (record c { client = no_elem }) c j q.connections there,
        e,
        there,
        n,
      )

  pub without_stays :
      (fd : ℕ) (p : Place) → fd ≢ c.client.fd → fd_at p q ≡ some fd → fd_at p without ≡ some fd
  without_stays fd (at_socket j) n e = e
  without_stays fd (client_of j) n e = grind (
    arith,
    find-put_connection (record c { client = no_elem }) c j q.connections there,
    e,
    there,
    n,
  )
  without_stays fd (server_of j) n e = grind (
    arith,
    find-put_connection (record c { client = no_elem }) c j q.connections there,
    e,
    there,
    n,
  )

  pub without-Nowhere : Shape q → Nowhere c.client.fd without
  without-Nowhere g n p e =
      let was = without-Less.back p c.client.fd n e in
      let here : fd_at (client_of c.id) q ≡ some c.client.fd = rw there refl in
      let same = g.unique (client_of c.id) p c.client.fd n here was in
      let now : fd_at (client_of c.id) without ≡ some 0 = grind (
        arith,
        find-put_connection (record c { client = no_elem }) c c.id q.connections there,
        eq→== c.id c.id refl,
      ) in
      let again = subst (λ p'. fd_at p' without ≡ some c.client.fd) (sym same) e in n (cc)
