-- ===== src/ProxyServer/Linked/Joins.antt =====
-- The places of descriptors when a client leaves the map of sockets for a new connection.
use proxi.Base.{ℕ, ◌≡◌, refl, sym, ◌∙◌, ap, subst, [], ◌∷◌, some, arith, eq→==}
use proxi.EpollQueue.{EpollElem, EpollQueue, Connection, find_socket, close_socket, save_connection}
use proxi.ProxyServer.Linked.Finds.{find-erase_socket, find-append_connection}
use proxi.ProxyServer.Linked.News.{save_connection-Shape, save_connection_stays}
use proxi.ProxyServer.Linked.Places.{close_socket-Less, close_socket_stays}
use proxi.ProxyServer.Linked.Shapes.{Less-Shape, Handled-move}
use proxi.ProxyServer.Linked.{fd_at, frame, Shape, Linked, LinkedBut, Nowhere}
use proxi.ProxyServer.{ProxyServer, at_socket, client_of}

module _ (client : ℕ) (e : EpollElem) (q : EpollQueue) (g : Shape q)
    (there : find_socket client q.sockets ≡ some e) where
  held : fd_at (at_socket client) q ≡ some e.fd
  held = rw there refl

  close_socket-Nowhere : Nowhere e.fd (close_socket q client)
  unfolding close_socket
  close_socket-Nowhere n p at =
      let was = (close_socket-Less q client g).back p e.fd n at in
      let same = g.unique p (at_socket client) e.fd n was held in
      let again = subst (λ p'. fd_at p' (close_socket q client) ≡ some e.fd) same at in
      grind
        (arith, find-erase_socket client client q.sockets g.keys, eq→== client client refl, again)

  -- What the connection is saved in.
  pub joined-Shape :
      (c : Connection)
      → c.client ≡ e
      → Nowhere c.server.fd q
      → Shape (save_connection (close_socket q client) c)
  joined-Shape c same nowhere =
      let q1 = close_socket q client in
      let less = close_socket-Less q client g in
      save_connection-Shape q1 c (Less-Shape q q1 less g)
        (subst (λ d. Nowhere d.fd q1) (sym same) close_socket-Nowhere)
        (λ n p at. nowhere n p (less.back p c.server.fd n at))
        (λ n eq.
          nowhere (λ z. n (eq ∙ z)) (at_socket client)
            (held ∙ ap (λ d. some d.fd) (sym same) ∙ ap some eq))

pub joined-LinkedBut :
    (client : ℕ) (e : EpollElem) (c : Connection) (s : ProxyServer)
    → find_socket client s.queue.sockets ≡ some e
    → c.client ≡ e
    → Nowhere c.server.fd s.queue
    → Linked s
    → LinkedBut (e.fd ∷ []) (record s { queue = save_connection (close_socket s.queue client) c })
joined-LinkedBut client e c s there same nowhere (shape, handled) =
    let q = s.queue in
    let q1 = close_socket q client in
    let shape1 = Less-Shape q q1 (close_socket-Less q client shape) shape in
    (
      joined-Shape client e q shape there c same nowhere,
      Handled-move [] (e.fd ∷ []) (frame s) q (save_connection q1 c) s.handlers (λ fd out. tt)
          (λ fd p n out at.
            save_connection_stays q1 c shape1 fd p
              (close_socket_stays q client e fd p shape there out.0 at))
          handled,
    )

-- Where the client is then.
pub joined_at :
    (client : ℕ) (e : EpollElem) (c : Connection) (q : EpollQueue)
    → find_socket client q.sockets ≡ some e
    → c.client ≡ e
    → Shape q
    → fd_at (client_of q.fresh) (save_connection (close_socket q client) c) ≡ some e.fd
unfolding save_connection close_socket
joined_at client e c q there same g = grind (
  arith,
  find-append_connection (record c { id = q.fresh }) q.fresh q.connections
      (g.unused q.fresh (omega arith)),
  eq→== q.fresh q.fresh refl,
  same,
)
