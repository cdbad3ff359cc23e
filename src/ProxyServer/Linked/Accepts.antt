-- ===== src/ProxyServer/Linked/Accepts.antt =====
-- What the handlers of the listener and of the notifier keep, where the system gives descriptors that are not in use.
use proxi.Base.{
  ℕ, ◌≡◌, refl, ◌∙◌, subst, [], ◌∷◌, ◌++◌, some, Outcome, ok, fault, annotated, Returns,
  Returns-bind, Returns-either, Returns-any, Returns-each, Returns-maybe, Option-cases, inl, inr,
}
use proxi.BufferedMessage
use proxi.EpollCore.{ctl_add}
use proxi.EpollQueue.{
  EpollElem, find_socket, new_elem, save_socket, short_socket_timeout, make_connection,
  close_socket, save_connection,
}
use proxi.FdState.{in_state, out_state, rdhup_state}
use proxi.FileDescriptor
use proxi.ProxyServer.Actions.{blank_request, send_404}
use proxi.ProxyServer.Connecting.{
  has_event, or_caught, find_resolve, erase_resolve, save_client, accept_client, run_listens,
  make_conn, resolved, run_notifies,
}
use proxi.ProxyServer.Elems.{states, socket_at, elem_at, put_elem, control, update, destroy}
use proxi.ProxyServer.Linked.Acts.{weaken, read_request-Linked, send_404-settles}
use proxi.ProxyServer.Linked.Ends.{destroy-LinkedBut}
use proxi.ProxyServer.Linked.Joins.{joined-LinkedBut, joined_at}
use proxi.ProxyServer.Linked.Grows.{add_request}
use proxi.ProxyServer.Linked.Moves.{Alike, Alike-LinkedBut, socket_at-ok, put_elem-Alike}
use proxi.ProxyServer.Linked.Updates.{control-≡, update-LinkedBut, update_handler-LinkedBut}
use proxi.ProxyServer.Linked.News.{with_socket, with_socket-Shape, with_socket_stays}
use proxi.ProxyServer.Linked.Shapes.{Handled-move}
use proxi.ProxyServer.Linked.{frame, Linked, Nowhere, Gives}
use proxi.ProxyServer.{
  ProxyServer, Os, at_socket, client_of, server_of, client_waits, Connected, connected, in_progress,
  refused,
}
use proxi.Resolver
use proxi.Resolver.{ResolvedIp, Extra}

or_caught-Returns :
    (P : ProxyServer → Type 0) (o : Outcome ProxyServer) (left : ProxyServer)
    → Returns P o
    → P left
    → Returns P (or_caught o left)
or_caught-Returns P (ok a) left p q = p
or_caught-Returns P (fault annotated) left p q = q
or_caught-Returns P (fault _) left p q = tt

module _ (os : Os) where
  save_client-Linked :
      (fd : ℕ) (s : ProxyServer)
      → Nowhere fd s.queue
      → Linked s
      → Returns Linked (save_client os fd s)
  unfolding save_client save_socket new_elem
  save_client-Linked fd s nowhere h =
      Returns-bind (λ s'. s' ≡ s) _ (control os ctl_add fd (states (in_state ∷ [])) s) _
        (control-≡ os ctl_add fd (states (in_state ∷ [])) s)
        (λ s' same. elim (Option-cases (find_socket fd s.queue.sockets)) [
          | inl new ↦
              let e = new_elem fd (states (in_state ∷ [])) short_socket_timeout s.queue.ticks in
              let moved =
                Handled-move [] [] (frame s) s.queue (with_socket s.queue e new) s.handlers
                  (λ fd out. out) (λ fd p n out at. with_socket_stays s.queue e new fd p at) h.1 in
              rw (new, same) (with_socket-Shape s.queue e new h.0 nowhere, moved)
          | inr (old, there) ↦
              let e = new_elem fd (states (in_state ∷ [])) short_socket_timeout s.queue.ticks in
              rw (there, same)
                (Returns-each _ (destroy os e s) (λ s'' runs.
                  (subst (Returns (λ t. Linked t × (t.queue ≡ s.queue))) runs
                    (destroy-LinkedBut os [] e s (weaken fd s h))).0))
        ])

  accept_client-Linked :
      (fd : ℕ) (s : ProxyServer) → Linked s → Returns Linked (accept_client os fd s)
  unfolding accept_client elem_at socket_at
  accept_client-Linked fd s h =
      Returns-bind (λ e. socket_at fd s ≡ ok e) _ (socket_at fd s) _
        (Returns-each _ (socket_at fd s) (λ e r. r))
        (λ e there.
          let s1 = record s { requests = s.requests ++ BufferedMessage.empty blank_request ∷ [] } in
          let e' = record e { events = states (in_state ∷ rdhup_state ∷ []) } in
          Returns-bind Linked _ (put_elem (at_socket fd) e' s1) _
            (Returns-each _ (put_elem (at_socket fd) e' s1) (λ left runs.
              Alike-LinkedBut [] s1 left
                (subst (Returns (Alike s1)) runs (put_elem-Alike (at_socket fd) e' e s1 there refl))
                (add_request [] s h (BufferedMessage.empty blank_request))))
            (λ left h'.
              or_caught-Returns Linked _ left (read_request-Linked os (at_socket fd) _ _ _ s refl h)
                h'))

  pub run_listens-Linked :
      (state : ℕ) (s : ProxyServer)
      → Gives os s
      → Linked s
      → Returns Linked (run_listens os state s)
  unfolding run_listens
  run_listens-Linked state s gives h =
      Returns-either Linked (has_event state (in_state ∷ [])) _ _
        (Returns-bind (λ e. Unit {0}) _ (socket_at s.listener s) _ (Returns-any _)
          (λ e u. Returns-maybe Linked (os.accept4 e.fd) _ _ h (λ fd somebody.
            (Returns-either Linked (os.epoll_ctl ctl_add fd (states (in_state ∷ []))) _ _
              (Returns-bind Linked _ (save_client os fd s) _
                (save_client-Linked fd s (gives.0 e.fd fd somebody) h)
                (λ s' h'. accept_client-Linked fd s' h'))
              h))))
        h

  -- The client leaves the map of sockets for a new connection with the new socket.
  make_conn-Linked :
      (client destination : ℕ) (ip : ResolvedIp) (s : ProxyServer)
      → Nowhere destination s.queue
      → Linked s
      → Returns Linked (make_conn os client destination ip s)
  unfolding make_conn make_connection
  make_conn-Linked client destination ip s nowhere h =
      Returns-bind (λ e. find_socket client s.queue.sockets ≡ some e) _ (socket_at client s) _
        (Returns-each _ (socket_at client s) (λ e. socket_at-ok client s e))
        (λ e there.
          Returns-bind (λ s1. s1 ≡ s) _ (control os ctl_add destination (states (out_state ∷ [])) s)
            _ (control-≡ os ctl_add destination (states (out_state ∷ [])) s)
            (λ s1 same. rw same (
              let server : EpollElem = record {
                fd = destination;
                events = states (out_state ∷ []);
                timeout = 0;
                expires_in = 0;
              } in
              let conn = make_connection s.queue e server short_socket_timeout in
              let s2 = record s { queue = save_connection (close_socket s.queue client) conn } in
              let id = s.queue.fresh in
              let here = joined_at client e conn s.queue there refl h.0 in
              Returns-bind Linked _
                (update os (client_of id) (states (rdhup_state ∷ [])) (client_waits ip.extra id) s2)
                _
                (update-LinkedBut os (e.fd ∷ []) [] (client_of id) _ _ s2
                  (joined-LinkedBut client e conn s there refl nowhere h) (λ r. refl) tt tt
                  (λ fd other at n out. (λ eq. n (eq ∙ cc), tt)))
                (λ s3 h3.
                  update_handler-LinkedBut [] [] (server_of id) _ s3 h3 refl tt tt
                    (λ fd other at n out. out)))))

  pub by_connected :
      (c : Connected) (a b d : Outcome ProxyServer)
      → Returns Linked a
      → Returns Linked b
      → Returns Linked d
      → Returns Linked (elim c [ connected ↦ a | in_progress ↦ b | refused ↦ d ])
  by_connected connected a b d p q r = p
  by_connected in_progress a b d p q r = q
  by_connected refused a b d p q r = r

  resolved-Linked :
      (destination : ℕ) (ip : ResolvedIp) (s : ProxyServer)
      → Nowhere destination s.queue
      → Linked s
      → Returns Linked (resolved os destination ip s)
  unfolding resolved
  resolved-Linked destination ip s nowhere h =
      let client = ip.extra.socket in
      let host = ip.extra.host in
      Returns-maybe Linked (find_resolve client host s.on_resolve) _ _ h (λ next found.
        (Returns-either Linked (Resolver.has_ip ip) _ _
          (by_connected (os.connect destination (Resolver.get_address ip)) _ _ _
            (make_conn-Linked client destination ip s nowhere h)
            (make_conn-Linked client destination ip s nowhere h)
            (Returns-bind Linked _ (send_404 os client s) _
              (send_404-settles os client s (weaken client s h)) (λ s' h'. h')))
          (send_404-settles os client
            (record s { on_resolve = erase_resolve client host s.on_resolve })
            (weaken client s h))))

  pub run_notifies-Linked :
      (state : ℕ) (s : ProxyServer)
      → Gives os s
      → Linked s
      → Returns Linked (run_notifies os state s)
  unfolding run_notifies
  run_notifies-Linked state s gives h =
      Returns-either Linked (has_event state (in_state ∷ [])) _ _
        (Returns-bind (λ e. Unit {0}) _ (socket_at s.notifier s) _ (Returns-any _)
          (λ e u.
            Returns-bind (λ b. Unit {0}) _ (FileDescriptor.read (os.read e.fd) 8) _ (Returns-any _)
              (λ b v. Returns-maybe Linked os.new_socket _ _ tt (λ destination made.
                (Returns-bind (λ x. Unit {0}) _ (Resolver.get_ip s.resolver) _ (Returns-any _)
                  (λ x w.
                    resolved-Linked destination x.0 (record s { resolver = x.1 })
                      (gives.1 destination made) h))))))
        h
