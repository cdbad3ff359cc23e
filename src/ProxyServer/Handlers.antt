-- ===== src/ProxyServer/Handlers.antt =====
-- The calls that the loop over events makes: the handler of a descriptor, and the timer's handler
-- of proxy/epoll_queue/epoll_queue.cpp with the elements that it destroys.
use proxi.Base.{
  ℕ, List, [], ◌∷◌, none, some, Outcome, ok, ◌>>=◌, ◌+◌, ◌*◌, leb, ◌==◌, ◌&&◌, true, false, length,
  take, if◌then◌else◌,
}
use proxi.EpollCore.{find_handler}
use proxi.EpollQueue.{EpollElem, Connection, timer_handler, tick_interval}
use proxi.FdState.{in_state}
use proxi.FileDescriptor
use proxi.ProxyServer.Connecting.{
  has_event, run_listens, run_notifies, run_resolving, run_client_waits, run_connects,
}
use proxi.ProxyServer.Elems.{destroy, socket_at}
use proxi.ProxyServer.Transfers.{
  take_request, take_response, run_read, give_request, give_response, run_send, run_server_waits,
  transfer_in, transfer_out, run_relays,
}
use proxi.ProxyServer.{
  ProxyServer, Os, Handler, client_of, server_of, connection, listens, notifies, resolving,
  client_waits, connects, request_read, response_read, request_sent, response_sent, server_waits,
  server_transfers, client_transfers, relays, timer_runs, signal_comes,
}
use proxi.Text.{Bytes, add64}

-- the elements that the timer takes out of the two containers
unfoldable pub expired_sockets : ℕ → List (ℕ × EpollElem) → List EpollElem
expired_sockets ticks [] = []
expired_sockets ticks ((k, e) ∷ l) =
    let rest = expired_sockets ticks l in if leb e.expires_in ticks then e ∷ rest else rest

unfoldable pub expired_connections : ℕ → List Connection → List EpollElem
expired_connections ticks [] = []
expired_connections ticks (c ∷ l) =
    let rest = expired_connections ticks l in
    if leb c.expires_in ticks then c.server ∷ c.client ∷ rest else rest

-- A number of the machine, the lowest byte first.
unfoldable pub number_of : Bytes → ℕ
number_of [] = 0
number_of (b ∷ l) = b + 256 * number_of l

-- `sizeof(struct signalfd_siginfo)`, of which the first four bytes are the signal's number, and
-- `SIGINT`
abbrev pub siginfo_size : ℕ
siginfo_size = 128

abbrev pub sigint : ℕ
sigint = 2

module _ (os : Os) where
  unfoldable pub destroy_all : List EpollElem → ProxyServer → Outcome ProxyServer
  destroy_all [] s = ok s
  destroy_all (e ∷ l) s = destroy os e s >>= λ s'. destroy_all l s'

  -- the timer ran out `ticked` times
  unfoldable pub tick : ℕ → ProxyServer → Outcome ProxyServer
  tick ticked s = do
    let at_sockets = add64 s.queue.ticks (ticked * tick_interval)
    let at_connections = add64 at_sockets ticked
    let queue = timer_handler ticked s.queue
    s' ← destroy_all (expired_sockets at_sockets s.queue.sockets) (record s { queue = queue })
    destroy_all (expired_connections at_connections s.queue.connections) s'

  -- the timer's handler
  unfoldable pub run_ticks : ℕ → ProxyServer → Outcome ProxyServer
  run_ticks state s = elim (has_event state (in_state ∷ [])) [
    | false ↦ ok s
    | true ↦ do
      e ← socket_at s.timer s
      bytes ← FileDescriptor.read (os.read e.fd) 8
      tick (number_of bytes) s
  ]

  -- the handler of signals
  unfoldable pub run_signals : ℕ → ProxyServer → Outcome ProxyServer
  run_signals state s = elim (has_event state (in_state ∷ [])) [
    | false ↦ ok s
    | true ↦ do
      bytes ← FileDescriptor.read (os.read s.signal) siginfo_size
      ok (
          if length bytes == siginfo_size && number_of (take 4 bytes) == sigint
          then record s { stopped = true }
          else s)
  ]

  -- the call of a handler
  unfoldable pub run : Handler → ℕ → ProxyServer → Outcome ProxyServer
  run listens = run_listens os
  run notifies = run_notifies os
  run timer_runs = run_ticks
  run signal_comes = run_signals
  run (resolving sock host) = run_resolving os sock host
  run (client_waits extra conn) = run_client_waits os extra conn
  run (connects conn ip) = run_connects os conn ip
  run (request_read from i iterator next) =
      run_read os from iterator (take_request os from i iterator next)
  run (response_read from i iterator next) =
      run_read os from iterator (take_response os from i iterator next)
  run (request_sent to i iterator next) =
      run_send os to iterator (give_request os to i iterator next)
  run (response_sent to i iterator next) =
      run_send os to iterator (give_response os to i iterator next)
  run (server_waits conn) = run_server_waits os conn
  run (server_transfers conn rqst resp) =
      run_read os (server_of conn) (connection conn) (transfer_in os conn rqst resp)
  run (client_transfers conn resp) =
      run_send os (client_of conn) (connection conn) (transfer_out os conn resp)
  run (relays in_place i out j conn) = run_relays os in_place i out j conn

  -- one event
  unfoldable pub handle : ℕ → ℕ → ProxyServer → Outcome ProxyServer
  handle fd state s = elim (find_handler fd s.handlers) [ none ↦ ok s | some h ↦ run h state s ]
