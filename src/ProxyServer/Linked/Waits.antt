-- ===== src/ProxyServer/Linked/Waits.antt =====
-- What the handlers of `Connecting` keep that run while a host is resolved and a server connected.
use proxi.Base.{
  ℕ, ◌≡◌, refl, [], ◌∷◌, Option, none, some, Outcome, fault, annotated, Returns, Returns-bind,
  Returns-either, Returns-any, Returns-each, Returns-maybe,
}
use proxi.EpollQueue.{change_timeout, long_socket_timeout}
use proxi.EpollQueue.Timer.{find_connection}
use proxi.FdState.{out_state, wait_state, error_state, hup_state, rdhup_state}
use proxi.ProxyServer.Actions.{send_404}
use proxi.ProxyServer.Connecting.{
  has_event, find_resolve, erase_found, run_resolving, run_client_waits, give_up, try_next,
  established, run_connects,
}
use proxi.ProxyServer.Elems.{
  states, socket_at, connection_at, put_connection, with_connections, update_state, escape_client,
  set_active,
}
use proxi.ProxyServer.Linked.Accepts.{by_connected}
use proxi.ProxyServer.Linked.Acts.{send_404-settles}
use proxi.ProxyServer.Linked.Calls.{call_connection-Linked}
use proxi.ProxyServer.Linked.Ends.{close-Linked, escape_client-LinkedBut}
use proxi.ProxyServer.Linked.Moves.{Alike-LinkedBut, connection_at-ok, own, set_active-LinkedBut}
use proxi.ProxyServer.Linked.Updates.{update_state-LinkedBut}
use proxi.ProxyServer.Linked.Places.{put_connection-Same}
use proxi.ProxyServer.Linked.{Linked, LinkedBut}
use proxi.ProxyServer.{
  ProxyServer, Os, client_of, server_of, socket, connection, SocketError, unreachable, other_error,
}
use proxi.Resolver
use proxi.Resolver.{ResolvedIp, Extra}
use proxi.Text.{Bytes}

module _ (os : Os) where
  by_error :
      (e : Option SocketError) (a b : Outcome ProxyServer)
      → Returns Linked a
      → Returns Linked b
      → Returns Linked
          (elim e [ none ↦ fault annotated | some unreachable ↦ a | some other_error ↦ b ])
  by_error none a b p q = tt
  by_error (some unreachable) a b p q = p
  by_error (some other_error) a b p q = q

  erase_found-Linked :
      (fd : ℕ) (host : Bytes) (s : ProxyServer) → Linked s → Returns Linked (erase_found fd host s)
  unfolding erase_found
  erase_found-Linked fd host s h =
      Returns-maybe Linked (find_resolve fd host s.on_resolve) _ _ tt (λ next found. h)

  pub run_resolving-Linked :
      (sock : ℕ) (host : Bytes) (state : ℕ) (s : ProxyServer)
      → Linked s
      → Returns Linked (run_resolving os sock host state s)
  unfolding run_resolving
  run_resolving-Linked sock host state s h =
      Returns-either Linked (has_event state (rdhup_state ∷ [])) _ _
        (Returns-bind (λ e. Unit {0}) _ (socket_at sock s) _ (Returns-any _)
          (λ e u.
            Returns-bind Linked _ (erase_found e.fd host s) _ (erase_found-Linked e.fd host s h)
              (λ s' h'. close-Linked os (socket sock) s' h')))
        h

  pub run_client_waits-Linked :
      (extra : Extra) (conn state : ℕ) (s : ProxyServer)
      → Linked s
      → Returns Linked (run_client_waits os extra conn state s)
  unfolding run_client_waits
  run_client_waits-Linked extra conn state s h =
      Returns-either Linked (has_event state (rdhup_state ∷ [])) _ _
        (close-Linked os (connection conn) _ h) h

  give_up-Linked :
      (extra : Extra) (conn : ℕ) (s : ProxyServer)
      → Linked s
      → Returns Linked (give_up os extra conn s)
  unfolding give_up
  give_up-Linked extra conn s h =
      Returns-bind Linked _ (erase_found extra.socket extra.host s) _
        (erase_found-Linked extra.socket extra.host s h)
        (λ s1 h1.
          Returns-bind (λ (r : ℕ × ProxyServer). LinkedBut (r.0 ∷ []) r.1) _
            (escape_client os conn s1) _ (escape_client-LinkedBut os conn s1 h1)
            (λ r h2.
              Returns-bind Linked _ (send_404 os r.0 r.1) _ (send_404-settles os r.0 r.1 h2)
                (λ s3 h3. close-Linked os (connection conn) s3 h3)))

  try_next-Linked :
      (conn : ℕ) (ip : ResolvedIp) (server : ℕ) (s : ProxyServer)
      → Linked s
      → Returns Linked (try_next os conn ip server s)
  unfolding try_next
  try_next-Linked conn ip server s h =
      let ip' = Resolver.next_ip ip in
      Returns-either Linked (Resolver.has_ip ip') _ _
        (by_connected os (os.connect server (Resolver.get_address ip')) _ _ _ h h
          (give_up-Linked ip.extra conn s h))
        (give_up-Linked ip.extra conn s h)

  established-Linked :
      (extra : Extra) (conn : ℕ) (s : ProxyServer)
      → Linked s
      → Returns Linked (established os extra conn s)
  unfolding established change_timeout
  established-Linked extra conn s h =
      Returns-maybe Linked (find_resolve extra.socket extra.host s.on_resolve) _ _ tt (λ next found.
        (Returns-bind Linked _ (update_state os (client_of conn) (states (wait_state ∷ [])) _) _
          (update_state-LinkedBut os [] (client_of conn) _ _ h)
          (λ s1 h1.
            Returns-bind Linked _ (update_state os (server_of conn) (states (wait_state ∷ [])) s1) _
              (update_state-LinkedBut os [] (server_of conn) _ s1 h1)
              (λ s2 h2.
                Returns-bind (λ c. find_connection conn s2.queue.connections ≡ some c) _
                  (connection_at conn s2) _
                  (Returns-each _ (connection_at conn s2) (λ c. connection_at-ok conn s2 c))
                  (λ c there.
                    let d = change_timeout c long_socket_timeout in
                    let s3 = with_connections (put_connection d s2.queue.connections) s2 in
                    call_connection-Linked os next conn s3 (
                      Alike-LinkedBut [] s2 s3
                        (record {
                          same = put_connection-Same s2.queue d c (own conn c s2 there) refl refl;
                          handlers = refl;
                          kept = refl;
                        })
                        h2))))))

  pub run_connects-Linked :
      (conn : ℕ) (captured : ResolvedIp) (state : ℕ) (s : ProxyServer)
      → Linked s
      → Returns Linked (run_connects os conn captured state s)
  unfolding run_connects
  run_connects-Linked conn captured state s h =
      let ip = Resolver.copy os.memory captured in
      Returns-bind (λ c. Unit {0}) _ (connection_at conn s) _ (Returns-any _)
        (λ c u.
          Returns-bind Linked _ (set_active (connection conn) s) _
            (set_active-LinkedBut [] (connection conn) s h)
            (λ s1 h1.
              Returns-either Linked (has_event state (rdhup_state ∷ [])) _ _
                (give_up-Linked ip.extra conn s1 h1)
                (Returns-either Linked (has_event state (hup_state ∷ error_state ∷ [])) _ _
                  (by_error (os.socket_error c.server.fd) _ _
                    (try_next-Linked conn ip c.server.fd s1 h1)
                    (give_up-Linked ip.extra conn s1 h1))
                  (Returns-either Linked (has_event state (out_state ∷ [])) _ _
                    (established-Linked ip.extra conn s1 h1) h1))))
