-- ===== src/ProxyServer/Loop.antt =====
-- `proxy_server::run`: the loop of `epoll_core` over the handlers of the server. The system is a
-- sequence of answers: those of the n-th call of a handler, and of the n-th call of `epoll_wait`,
-- during which the threads of the resolver make of its state what `threads` says.
use proxi.Base.{
  ℕ, suc, ◌+◌, ◌≡◌, refl, ◌∙◌, List, [], ◌∷◌, ◌++◌, none, some, true, false, Outcome, ok, fault,
  terminated, Yields, eq→==, length, take, ◌>>=◌, arith, if◌then◌else◌,
}
use proxi.EpollCore.{
  EpollCore, Calls, Waited, ctl_add, ctl_del, events, start_wait, wait_loop, dispatch, handle_event,
  update_fd_handler, erase_handler, find_handler,
}
use proxi.EpollCore.Rounds.{Rounds, waited, wait_loop-Rounds, wait_loop-stops}
use proxi.FdState
use proxi.FdState.{in_state}
use proxi.FileDescriptor.{read-ok}
use proxi.ProxyServer.Elems.{control, states}
use proxi.ProxyServer.Handlers.{run, run_signals, number_of, siginfo_size, sigint}
use proxi.Resolver.{Resolver}
use proxi.Text.{Bytes}
use proxi.ProxyServer.{ProxyServer, Os, Handler, signal_comes}

pub record World : Type 0 where
  pub server : ProxyServer
  pub calls : ℕ
  pub waits : ℕ

-- The server with the handlers that the loop has, and back.
abbrev pub server_of_core : EpollCore World Handler → ProxyServer
server_of_core c = record c.kernel.server { handlers = c.handlers }

yielded : {A : Type 0} (P : A → Type 0) (o : Outcome A) → Yields P o → (a : A) × (o ≡ ok a) × P a
yielded P (ok a) p = (a, refl, p)
yielded P (fault x) p = absurd p

module _ (answers : ℕ → Os) (waits : ℕ → Waited) (threads : ℕ → Resolver → Resolver) where
  -- a call of a handler; `stop_wait` in it stops the loop
  unfoldable pub call_handler :
      Handler → ℕ → EpollCore World Handler → Outcome (EpollCore World Handler)
  call_handler h state c = run (answers c.kernel.calls) h state (server_of_core c) >>= λ s.
      ok (record c {
        kernel = record c.kernel { server = s; calls = suc c.kernel.calls };
        handlers = s.handlers;
        stopped = s.stopped;
      })

  abbrev pub server_calls : Calls World Handler
  server_calls = record {
    epoll_ctl = λ op fd state w. if (answers w.calls).epoll_ctl op fd state then some w else none;
    epoll_wait = λ w. (
      waits w.waits,
      record w {
        waits = suc w.waits;
        server = record w.server { resolver = threads w.waits w.server.resolver };
      },
    );
    handle = call_handler;
  }

  -- `run`: the descriptor of signals is registered for the time of the loop
  unfoldable pub run_server : ℕ → EpollCore World Handler → Outcome (EpollCore World Handler)
  run_server fuel c = do
    let signal = c.kernel.server.signal
    s ←
        control (answers c.kernel.calls) ctl_add signal (states (in_state ∷ []))
          (record c.kernel.server { stopped = false })
    c' ← start_wait server_calls fuel (
        update_fd_handler signal signal_comes
          (record c { kernel = record c.kernel { server = s } }))
    elim ((answers c'.kernel.calls).epoll_ctl ctl_del signal 0) [
      | true ↦ ok (record c' { handlers = erase_handler signal c'.handlers })
      | false ↦ fault terminated
    ]

  -- The core that the loop of `run` begins with.
  abbrev pub opened : EpollCore World Handler → EpollCore World Handler
  opened c = record (update_fd_handler c.kernel.server.signal signal_comes c) {
    kernel = record c.kernel { server = record c.kernel.server { stopped = false } };
    started = true;
    stopped = false;
  }

  signal_stops :
      (os : Os) (bytes : Bytes) (s : ProxyServer)
      → (os.read s.signal).answer siginfo_size ≡ some bytes
      → length bytes ≡ siginfo_size
      → number_of (take 4 bytes) ≡ sigint
      → run os signal_comes (states (in_state ∷ [])) s ≡ ok (record s { stopped = true })
  unfolding run run_signals FdState.is FdState.value_of
  signal_stops os bytes s answer size number =
      let got = read-ok (os.read s.signal) siginfo_size bytes answer in
      rw
        (
          got,
          eq→== (length bytes) siginfo_size size,
          eq→== (number_of (take 4 bytes)) sigint number,
        )
        refl

  signal_dispatched :
      (c : EpollCore World Handler) (after : List (ℕ × ℕ)) (bytes : Bytes)
      → find_handler c.kernel.server.signal c.handlers ≡ some signal_comes
      → ((answers c.kernel.calls).read c.kernel.server.signal).answer siginfo_size ≡ some bytes
      → length bytes ≡ siginfo_size
      → number_of (take 4 bytes) ≡ sigint
      → Yields
          (λ (c' : EpollCore World Handler). c'.stopped ≡ true)
          (dispatch server_calls ((c.kernel.server.signal, states (in_state ∷ [])) ∷ after) c)
  unfolding dispatch handle_event call_handler
  signal_dispatched c after bytes found answer size number =
      let ends =
        signal_stops (answers c.kernel.calls) bytes (server_of_core c) answer size number in
      grind (arith, found, ends)

  -- The server stops: `run` begins, its loop does `n` rounds, whatever comes in them, and in the
  -- next one a signal SIGINT comes, with other events before it or behind it.
  pub run_server-stops :
      (n more : ℕ) (before after : List (ℕ × ℕ)) (bytes : Bytes) (c c1 c2 : EpollCore World Handler)
      → c.started ≡ false
      → (answers c.kernel.calls).epoll_ctl ctl_add c.kernel.server.signal (states (in_state ∷ []))
        ≡ true
      → ((n : ℕ) → (answers n).epoll_ctl ctl_del c.kernel.server.signal 0 ≡ true)
      → Rounds server_calls (opened c) n c1
      → c1.stopped ≡ false
      → waits c1.kernel.waits
        ≡ events (before ++ (c2.kernel.server.signal, states (in_state ∷ [])) ∷ after)
      → dispatch server_calls before (waited server_calls c1) ≡ ok c2
      → c2.stopped ≡ false
      → find_handler c2.kernel.server.signal c2.handlers ≡ some signal_comes
      → ((answers c2.kernel.calls).read c2.kernel.server.signal).answer siginfo_size ≡ some bytes
      → length bytes ≡ siginfo_size
      → number_of (take 4 bytes) ≡ sigint
      → Yields
          (λ (c' : EpollCore World Handler). (c'.started ≡ false) × (c'.stopped ≡ true))
          (run_server (n + suc (suc more)) c)
  unfolding run_server control start_wait update_fd_handler
  run_server-stops n more before after bytes c c1 c2 idle add del rounds on comes runs still found
        answer size number =
      let sig = c2.kernel.server.signal in
      let (c3, done, off) =
        yielded _ _ (signal_dispatched c2 after bytes found answer size number) in
      let loop : wait_loop server_calls (n + suc (suc more)) (opened c) ≡ ok c3 =
        wait_loop-Rounds server_calls (suc (suc more)) rounds
        ∙ wait_loop-stops server_calls more sig (states (in_state ∷ [])) before after c1 c2 c3 on
            comes runs still done off in
      grind (arith, idle, add, loop, del, off)
