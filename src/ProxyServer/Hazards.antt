-- ===== src/ProxyServer/Hazards.antt =====
-- Where the handlers leave the language, or do not do what they mean to.
use proxi.Base.{
  ℕ, ◌+◌, ◌*◌, ◌^◌, ◌≤◌, ◌<◌, ◌≡◌, refl, ◌∙◌, ap, subst, List, [], ◌∷◌, none, some, ok, fault,
  undefined, Returns, arith,
}
use proxi.EpollQueue.{
  EpollElem, Connection, EpollQueue, find_socket, timer_handler, touch_connections,
}
use proxi.EpollQueue.Timer.{KeysDiffer, IdsDiffer, find_connection, until, timer_handler_lem}
use proxi.ProxyServer.Actions.{send_404, send_response}
use proxi.ProxyServer.Connecting.{find_resolve, make_conn, resolved}
use proxi.ProxyServer.Elems.{socket_at, elem_at, update_state, update, destroy}
use proxi.ProxyServer.Handlers.{destroy_all, tick}
use proxi.ProxyServer.{ProxyServer, Os, Place, Handler, OnConnection}
use proxi.Resolver.{ResolvedIp}
use proxi.Text.{add64}

module _ (os : Os) where
  update-undefined :
      (p : Place) (state : ℕ) (h : Handler) (s : ProxyServer)
      → elem_at p s ≡ fault undefined
      → update os p state h s ≡ fault undefined
  unfolding update update_state
  update-undefined p state h s e = ground (arith, e)

  -- An answer for a client that is in `on_resolve` and no longer among the sockets leaves the
  -- language, whatever the answer is and whatever the system does.
  resolved-undefined :
      (destination : ℕ) (ip : ResolvedIp) (next : OnConnection) (s : ProxyServer)
      → find_resolve ip.extra.socket ip.extra.host s.on_resolve ≡ some next
      → find_socket ip.extra.socket s.queue.sockets ≡ none
      → resolved os destination ip s ≡ fault undefined
  unfolding resolved make_conn send_404 send_response socket_at elem_at
  resolved-undefined destination ip next s e n = grind (arith, update-undefined, e, n)

  destroy_all-queue :
      (l : List EpollElem) (s : ProxyServer)
      → Returns
          (λ (s' : ProxyServer). (s'.queue ≡ s.queue) × (s'.on_resolve ≡ s.on_resolve))
          (destroy_all os l s)
  unfolding destroy_all destroy
  destroy_all-queue [] s = (refl, refl)
  destroy_all-queue (e ∷ l) s = grind (arith, destroy_all-queue l)

tick-queue :
    (os : Os) (ticked : ℕ) (s : ProxyServer)
    → Returns
        (λ (s' : ProxyServer).
          (s'.queue ≡ timer_handler ticked s.queue) × (s'.on_resolve ≡ s.on_resolve))
        (tick os ticked s)
unfolding tick
tick-queue os ticked s = grind (arith, destroy_all-queue)

-- If the timer closes a client while its host is resolved, the answer that comes then leaves the
-- language: the timer leaves the client's entry in `on_resolve`.
pub resolved-timed_out :
    (os os' : Os) (ticked destination : ℕ) (ip : ResolvedIp) (next : OnConnection) (e : EpollElem)
    (s s' : ProxyServer)
    → KeysDiffer s.queue.sockets
    → IdsDiffer s.queue.connections
    → s.queue.ticks + 3 * ticked < 2 ^ 64
    → find_resolve ip.extra.socket ip.extra.host s.on_resolve ≡ some next
    → find_socket ip.extra.socket s.queue.sockets ≡ some e
    → e.expires_in ≤ s.queue.ticks + 2 * ticked
    → tick os ticked s ≡ ok s'
    → resolved os' destination ip s' ≡ fault undefined
resolved-timed_out os os' ticked destination ip next e s s' k d room waits there over runs =
    let (queue, same) =
      subst
        (Returns (λ (s' : ProxyServer).
          (s'.queue ≡ timer_handler ticked s.queue) × (s'.on_resolve ≡ s.on_resolve)))
        runs (tick-queue os ticked s) in
    let (_, sockets, _) = timer_handler_lem ticked s.queue k d room in
    let gone : find_socket ip.extra.socket s'.queue.sockets ≡ none =
      ap (λ (q : EpollQueue). find_socket ip.extra.socket q.sockets) queue
      ∙ sockets ip.extra.socket
      ∙ ap (until (s.queue.ticks + 2 * ticked)) there
      ∙ ground (arith, over) in
    resolved-undefined os' destination ip next s'
      (ap (find_resolve ip.extra.socket ip.extra.host) same ∙ waits) gone

pub find-touch_self :
    (ticks id : ℕ) (c : Connection) (l : List Connection)
    → find_connection id l ≡ some c
    → find_connection id (touch_connections ticks id l)
      ≡ some (record c { expires_in = add64 ticks c.timeout })
unfolding find_connection touch_connections
find-touch_self ticks id c [] h = cc
find-touch_self ticks id c (d ∷ l) h = grind (arith, find-touch_self ticks id c l)
