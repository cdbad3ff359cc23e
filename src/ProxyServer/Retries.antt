-- ===== src/ProxyServer/Retries.antt =====
-- The handler of `make_server_connect_handler` where the server cannot be reached: `next_ip` is
-- called on a copy of the handler, which is lost with it.
use proxi.Base.{
  ℕ, ◌≡◌, ◌≢◌, sym, ◌∙◌, ap, subst, List, [], ◌∷◌, some, true, false, Outcome, ok, ◌>>=◌, Returns,
  arith,
}
use proxi.EpollCore.{find_handler}
use proxi.EpollQueue.{Connection, set_active_connection}
use proxi.EpollQueue.Timer.{find_connection}
use proxi.FdState.{error_state, hup_state, rdhup_state}
use proxi.ProxyServer.Connecting.{has_event, try_next, run_connects, give_up}
use proxi.ProxyServer.Elems.{connection_at, set_active}
use proxi.ProxyServer.Handlers.{handle, run}
use proxi.ProxyServer.Hazards.{find-touch_self}
use proxi.ProxyServer.{
  ProxyServer, Os, connection, connected, in_progress, refused, unreachable, connects,
}
use proxi.Resolver
use proxi.Resolver.{ResolvedIp, Extra}
use proxi.Text.{add64}

-- How the handler of a connecting server ends, where its first address refused: with the answer of
-- a connection to the second one.
abbrev pub retried_at : Os → ℕ → ℕ → Extra → ℕ → ProxyServer → Outcome ProxyServer
retried_at os conn fd extra b s = set_active (connection conn) s >>= λ s1.
    elim (os.connect fd (b, os.memory)) [
      | connected ↦ ok s1
      | in_progress ↦ ok s1
      | refused ↦ give_up os extra conn s1
    ]

-- The event of the descriptor says that the server cannot be reached.
abbrev pub Unreachable : Os → ℕ → ℕ → Type 0
Unreachable os fd state =
    (has_event state (rdhup_state ∷ []) ≡ false)
    × (has_event state (hup_state ∷ error_state ∷ []) ≡ true)
    × (os.socket_error fd ≡ some unreachable)

-- The server cannot be reached, time after time, and the system takes in a connection to the
-- address `b` each time.
pub data Refusals (fd b : ℕ) (s : ProxyServer) : ProxyServer → Type 0 where
  first : Refusals fd b s s
  again :
      {s1 s2 : ProxyServer} (os : Os) (state : ℕ)
      → Refusals fd b s s1
      → Unreachable os fd state
      → os.connect fd (b, os.memory) ≢ refused
      → handle os fd state s1 ≡ ok s2
      → Refusals fd b s s2

-- The connection's server, at the descriptor, connects.
abbrev Connects : ℕ → ℕ → ResolvedIp → ProxyServer → Type 0
Connects conn fd ip s =
    (find_handler fd s.handlers ≡ some (connects conn ip))
    × ((c : Connection) × (find_connection conn s.queue.connections ≡ some c) × (c.server.fd ≡ fd))

module _ (conn fd a b : ℕ) (l : List ℕ) (ip : ResolvedIp) (ips : ip.ips ≡ a ∷ b ∷ l) where
  handle-retried :
      (os : Os) (state : ℕ) (s : ProxyServer)
      → Connects conn fd ip s
      → Unreachable os fd state
      → handle os fd state s ≡ retried_at os conn fd ip.extra b s
  unfolding handle run run_connects connection_at set_active try_next Resolver.copy Resolver.next_ip
      Resolver.has_ip Resolver.get_address
  handle-retried os state s (handler, (c, there, at)) (on, bad, error) =
      let here : os.socket_error c.server.fd ≡ some unreachable = ap os.socket_error at ∙ error in
      grind (arith, handler, there, ips, on, bad, here, at)

  set_active-Connects :
      (s : ProxyServer)
      → Connects conn fd ip s
      → Returns (Connects conn fd ip) (set_active (connection conn) s)
  unfolding set_active connection_at set_active_connection
  set_active-Connects s (handler, (c, there, at)) =
      let touched = find-touch_self s.queue.ticks conn c s.queue.connections there in
      let done : set_active (connection conn) s
          ≡ ok (record s { queue = set_active_connection s.queue conn }) =
        grind (arith, there) in
      rw done (handler, (record c { expires_in = add64 s.queue.ticks c.timeout }, touched, at))

  retried-Connects :
      (os : Os) (s s' : ProxyServer)
      → Connects conn fd ip s
      → os.connect fd (b, os.memory) ≢ refused
      → retried_at os conn fd ip.extra b s ≡ ok s'
      → Connects conn fd ip s'
  retried-Connects os s s' h goes e =
      let active : retried_at os conn fd ip.extra b s ≡ set_active (connection conn) s =
        grind (arith, goes) in
      subst (Returns (Connects conn fd ip)) (sym active ∙ e) (set_active-Connects s h)

  Refusals-Connects :
      {s s' : ProxyServer} → Connects conn fd ip s → Refusals fd b s s' → Connects conn fd ip s'
  Refusals-Connects h first = h
  Refusals-Connects h (again {s1 = s1} {s2 = s2} os state r bad goes e) =
      let h1 = Refusals-Connects h r in
      retried-Connects os s1 s2 h1 goes (sym (handle-retried os state s1 h1 bad) ∙ e)

  -- A server that connects, with two addresses `a` and `b` or more, and cannot be reached: however
  -- often that comes, and as long as the system takes in the connections to `b`, the next time it
  -- is the address `b` again that the handler connects to, and never one behind it; only if that
  -- is refused at once, the connection is given up.
  pub run_connects-again :
      (os : Os) (state : ℕ) (c : Connection) (s s' : ProxyServer)
      → find_handler fd s.handlers ≡ some (connects conn ip)
      → find_connection conn s.queue.connections ≡ some c
      → c.server.fd ≡ fd
      → Refusals fd b s s'
      → Unreachable os fd state
      → handle os fd state s' ≡ retried_at os conn fd ip.extra b s'
  run_connects-again os state c s s' handler there at r bad =
      handle-retried os state s' (Refusals-Connects (handler, (c, there, at)) r) bad
