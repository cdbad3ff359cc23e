-- ===== src/ProxyServer/Mains.antt =====
-- How the server that `main` makes comes to its end.
use proxi.Base.{
  ℕ, suc, ◌+◌, ◌≡◌, refl, List, [], ◌∷◌, ◌++◌, Option, some, true, false, ok, Yields, length, take,
}
use proxi.EpollCore.Rounds.{Rounds, waited}
use proxi.EpollCore.{EpollCore, Waited, ctl_add, ctl_del, dispatch, events, find_handler}
use proxi.FdState.{in_state}
use proxi.ProxyServer.Elems.{states}
use proxi.ProxyServer.Handlers.{sigint, siginfo_size, number_of}
use proxi.ProxyServer.Loop.{World, server_calls, opened, run_server-stops}
use proxi.ProxyServer.Startup.{Boot, sigpipe, port_of, core_of, construct, serve}
use proxi.ProxyServer.{ProxyServer, Os, Handler, signal_comes}
use proxi.Resolver.{Resolver}
use proxi.SignalFd
use proxi.SocketWrap
use proxi.Text.Numbers.{pos}
use proxi.Text.{Bytes}

module _ (boot : Boot) (start : Os) (signalfd : List ℕ → ℕ → Option ℕ) (answers : ℕ → Os)
    (waits : ℕ → Waited) (threads : ℕ → Resolver → Resolver) where
  -- SIGINT ends the loop of `main`'s server, whatever has happened before: if the argument is a
  -- port, the constructor and `signalfd` return, the system takes the descriptor of signals in and
  -- out, any number of rounds is done, and in the next round, behind events that are handled and do
  -- not stop the loop, the descriptor of signals gives a SIGINT while its handler is still the one
  -- that `run` has set, then `run` returns, and the loop was stopped. What the destructors do
  -- behind that, at the end of `main`'s block, is not part of this.
  pub serve-stops :
      (n more port fd : ℕ) (arg : Option Bytes) (before after : List (ℕ × ℕ)) (bytes : Bytes)
      (s : ProxyServer) (c1 c2 : EpollCore World Handler)
      → port_of arg ≡ ok port
      → construct start boot port (pos 200) ≡ ok s
      → signalfd (sigint ∷ sigpipe ∷ []) 0 ≡ some fd
      → (answers 0).epoll_ctl ctl_add fd (states (in_state ∷ [])) ≡ true
      → ((n : ℕ) → (answers n).epoll_ctl ctl_del fd 0 ≡ true)
      → Rounds
          (server_calls answers waits threads)
          (opened answers waits threads (core_of fd s))
          n
          c1
      → c1.stopped ≡ false
      → waits c1.kernel.waits
        ≡ events (before ++ (c2.kernel.server.signal, states (in_state ∷ [])) ∷ after)
      → dispatch
          (server_calls answers waits threads)
          before
          (waited (server_calls answers waits threads) c1)
        ≡ ok c2
      → c2.stopped ≡ false
      → find_handler c2.kernel.server.signal c2.handlers ≡ some signal_comes
      → ((answers c2.kernel.calls).read c2.kernel.server.signal).answer siginfo_size ≡ some bytes
      → length bytes ≡ siginfo_size
      → number_of (take 4 bytes) ≡ sigint
      → Yields
          (λ (c : EpollCore World Handler). (c.started ≡ false) × (c.stopped ≡ true))
          (serve boot start signalfd answers waits threads (n + suc (suc more)) arg)
  unfolding serve SignalFd.create SignalFd.value_of SignalFd.value_from SignalFd.add_mode
      SocketWrap.checked
  serve-stops n more port fd arg before after bytes s c1 c2 numbered made gives add del rounds on
        comes runs still found answer size number =
      rw (numbered, made, gives)
        (run_server-stops answers waits threads n more before after bytes (core_of fd s) c1 c2 refl
          add del rounds on comes runs still found answer size number)
