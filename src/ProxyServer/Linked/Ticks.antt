-- ===== src/ProxyServer/Linked/Ticks.antt =====
-- What the timer's handler keeps: it takes the elements whose time is over out of the two
-- containers, and destroys them.
use proxi.Base.{
  ℕ, ◌*◌, ◌≡◌, ◌≢◌, refl, sym, subst, List, [], ◌∷◌, ◌++◌, append-nil, some, Returns, Returns-bind,
  Returns-either, Returns-any, arith, leb, Bool-cases, Option-cases, inl, inr, All,
}
use proxi.EpollQueue.Timer.{
  KeysDiffer, find_connection, find-sweep_sockets, find-sweep_connections, find-sweep_absent,
  sweep_connections-IdsDiffer,
}
use proxi.EpollQueue.{
  EpollElem, Connection, EpollQueue, find_socket, sweep_sockets, sweep_connections, timer_handler,
  tick_interval,
}
use proxi.FdState.{in_state}
use proxi.FileDescriptor
use proxi.ProxyServer.Connecting.{has_event}
use proxi.ProxyServer.Elems.{destroy, socket_at}
use proxi.ProxyServer.Handlers.{
  expired_sockets, expired_connections, destroy_all, tick, run_ticks, number_of,
}
use proxi.ProxyServer.Linked.Ends.{destroy-LinkedBut}
use proxi.ProxyServer.Linked.Finds.{fd_of, client_fd, server_fd}
use proxi.ProxyServer.Linked.Shapes.{Less, Less-Shape, Handled-move}
use proxi.ProxyServer.Linked.{fd_at, frame, Shape, Linked, LinkedBut}
use proxi.ProxyServer.{ProxyServer, Os, Place, at_socket, client_of, server_of}
use proxi.Text.{add64}

abbrev fds : List EpollElem → List ℕ
fds [] = []
fds (e ∷ l) = e.fd ∷ fds l

All-split : (P : ℕ → Type 0) (a b : List ℕ) → All P (a ++ b) → All P a × All P b
All-split P [] b h = (tt, h)
All-split P (x ∷ a) b (p, h) = let (i, j) = All-split P a b h in ((p, i), j)

sweep_sockets-KeysDiffer :
    (ticks : ℕ) (l : List (ℕ × EpollElem)) → KeysDiffer l → KeysDiffer (sweep_sockets ticks l)
unfolding sweep_sockets
sweep_sockets-KeysDiffer ticks [] d = tt
sweep_sockets-KeysDiffer ticks ((k, e) ∷ l) d =
    ground (arith, d.0, find-sweep_absent ticks k l, sweep_sockets-KeysDiffer ticks l d.1)

abbrev Spares : ℕ → List EpollElem → Type 0
Spares fd l = All (λ x. fd ≢ x) (fds l)

module _ (ticks fd j : ℕ) where
  sockets_stay :
      (l : List (ℕ × EpollElem))
      → Spares fd (expired_sockets ticks l)
      → fd_of (find_socket j l) ≡ some fd
      → fd_of (find_socket j (sweep_sockets ticks l)) ≡ some fd
  unfolding find_socket sweep_sockets expired_sockets
  sockets_stay [] out h = h
  sockets_stay ((k, e) ∷ l) out h = elim (Bool-cases (leb e.expires_in ticks)) [
    | inl over ↦
        let gone : expired_sockets ticks ((k, e) ∷ l) ≡ e ∷ expired_sockets ticks l =
          rw (expired_sockets, over) refl in
        let out' : Spares fd (e ∷ expired_sockets ticks l) = subst (Spares fd) gone out in
        ground (arith, over, out'.0, sockets_stay l out'.1, h)
    | inr stays ↦
        let kept : expired_sockets ticks ((k, e) ∷ l) ≡ expired_sockets ticks l =
          rw (expired_sockets, stays) refl in
        let out' : Spares fd (expired_sockets ticks l) = subst (Spares fd) kept out in
        ground (arith, stays, sockets_stay l out', h)
  ]

  connections_stay :
      (l : List Connection)
      → Spares fd (expired_connections ticks l)
      → (client_fd (find_connection j l) ≡ some fd
          → client_fd (find_connection j (sweep_connections ticks l)) ≡ some fd)
        × (server_fd (find_connection j l) ≡ some fd
            → server_fd (find_connection j (sweep_connections ticks l)) ≡ some fd)
  unfolding find_connection sweep_connections expired_connections
  connections_stay [] out = (λ h. h, λ h. h)
  connections_stay (c ∷ l) out = elim (Bool-cases (leb c.expires_in ticks)) [
    | inl over ↦
        let gone : expired_connections ticks (c ∷ l)
            ≡ c.server ∷ c.client ∷ expired_connections ticks l =
          rw (expired_connections, over) refl in
        let out' = subst (Spares fd) gone out in
        let (client, server) = connections_stay l out'.1.1 in
        (
          λ h. ground (arith, over, out'.1.0, client, h),
          λ h. ground (arith, over, out'.0, server, h),
        )
    | inr stays ↦
        let kept : expired_connections ticks (c ∷ l) ≡ expired_connections ticks l =
          rw (expired_connections, stays) refl in
        let (client, server) = connections_stay l (subst (Spares fd) kept out) in
        (λ h. ground (arith, stays, client, h), λ h. ground (arith, stays, server, h))
  ]

-- What the timer leaves of the two containers.
module _ (a b now : ℕ) (q : EpollQueue) where
  abbrev swept : EpollQueue
  swept = record q {
    sockets = sweep_sockets a q.sockets;
    connections = sweep_connections b q.connections;
    ticks = now;
  }

  swept-Less : Shape q → Less q swept
  swept-Less g = record {
    back = λ p fd n. back p fd;
    sockets = λ j fd. back (at_socket j) fd;
    keys = sweep_sockets-KeysDiffer a q.sockets;
    ids = sweep_connections-IdsDiffer b q.connections;
    unused = λ j e. grind (arith, find-sweep_connections b j q.connections g.ids, e);
    fresh = refl;
  }
    where
      back : (p : Place) (fd : ℕ) → fd_at p swept ≡ some fd → fd_at p q ≡ some fd
      back (at_socket j) fd e = elim (Option-cases (find_socket j q.sockets)) [
        | inl gone ↦ absurd (grind (arith, find-sweep_sockets a j q.sockets g.keys, gone, e))
        | inr (d, there) ↦ grind (arith, find-sweep_sockets a j q.sockets g.keys, there, e)
      ]
      back (client_of j) fd e = elim (Option-cases (find_connection j q.connections)) [
        | inl gone ↦ absurd (grind (arith, find-sweep_connections b j q.connections g.ids, gone, e))
        | inr (d, there) ↦ grind (arith, find-sweep_connections b j q.connections g.ids, there, e)
      ]
      back (server_of j) fd e = elim (Option-cases (find_connection j q.connections)) [
        | inl gone ↦ absurd (grind (arith, find-sweep_connections b j q.connections g.ids, gone, e))
        | inr (d, there) ↦ grind (arith, find-sweep_connections b j q.connections g.ids, there, e)
      ]

  swept_stays :
      (fd : ℕ) (p : Place)
      → Spares fd (expired_sockets a q.sockets)
      → Spares fd (expired_connections b q.connections)
      → fd_at p q ≡ some fd
      → fd_at p swept ≡ some fd
  swept_stays fd (at_socket j) m n h = sockets_stay a fd j q.sockets m h
  swept_stays fd (client_of j) m n h = (connections_stay b fd j q.connections n).0 h
  swept_stays fd (server_of j) m n h = (connections_stay b fd j q.connections n).1 h

module _ (os : Os) where
  destroy_all-LinkedBut :
      (l : List EpollElem) (rest : List ℕ) (s : ProxyServer)
      → LinkedBut (fds l ++ rest) s
      → Returns (LinkedBut rest) (destroy_all os l s)
  unfolding destroy_all
  destroy_all-LinkedBut [] rest s h = h
  destroy_all-LinkedBut (e ∷ l) rest s h =
      Returns-bind (λ s'. LinkedBut (fds l ++ rest) s' × (s'.queue ≡ s.queue)) _ (destroy os e s) _
        (destroy-LinkedBut os (fds l ++ rest) e s h) (λ s' h'. destroy_all-LinkedBut l rest s' h'.0)

  pub tick-Linked : (ticked : ℕ) (s : ProxyServer) → Linked s → Returns Linked (tick os ticked s)
  unfolding tick timer_handler
  tick-Linked ticked s (shape, handled) =
      let a = add64 s.queue.ticks (ticked * tick_interval) in
      let b = add64 a ticked in
      let q = swept a b b s.queue in
      let s1 = record s { queue = q } in
      let sockets = expired_sockets a s.queue.sockets in
      let connections = expired_connections b s.queue.connections in
      let out = fds sockets ++ fds connections in
      let moved =
        Handled-move [] out (frame s) s.queue q s.handlers (λ fd o. tt)
          (λ fd p n o at.
            let (m, k) = All-split (λ x. fd ≢ x) (fds sockets) (fds connections) o in
            swept_stays a b b s.queue fd p m k at)
          handled in
      let shape1 = Less-Shape s.queue q (swept-Less a b b s.queue shape) shape in
      Returns-bind (LinkedBut (fds connections)) _ (destroy_all os sockets s1) _
        (destroy_all-LinkedBut sockets (fds connections) s1 (shape1, moved))
        (λ s2 h2.
          destroy_all-LinkedBut connections [] s2
            (subst (λ l. LinkedBut l s2) (sym (append-nil (fds connections))) h2))

  pub run_ticks-Linked :
      (state : ℕ) (s : ProxyServer) → Linked s → Returns Linked (run_ticks os state s)
  unfolding run_ticks
  run_ticks-Linked state s h =
      Returns-either Linked (has_event state (in_state ∷ [])) _ _
        (Returns-bind (λ e. Unit {0}) _ (socket_at s.timer s) _ (Returns-any _)
          (λ e u.
            Returns-bind (λ bytes. Unit {0}) _ (FileDescriptor.read (os.read e.fd) 8) _
              (Returns-any _) (λ bytes v. tick-Linked (number_of bytes) s h)))
        h
