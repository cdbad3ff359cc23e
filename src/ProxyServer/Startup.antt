-- ===== src/ProxyServer/Startup.antt =====
-- The constructors of `epoll_queue` and `proxy_server`, and main.cpp.
use proxi.Base.{
  ℕ, ◌%◌, ◌^◌, ◌-◌, List, [], ◌∷◌, Option, none, some, Bool, false, true, Outcome, ok, ◌>>=◌,
}
use proxi.EpollCore.{EpollCore, Waited, ctl_add, insert_handler, erase_handler}
use proxi.EpollQueue
use proxi.EpollQueue.{
  EpollQueue, EpollElem, infinite_timeout, tick_interval, find_socket, insert_socket, new_elem,
}
use proxi.EventFd
use proxi.FdState.{in_state}
use proxi.ProxyServer.Elems.{states, control, destroy, save_elem}
use proxi.ProxyServer.Handlers.{sigint}
use proxi.ProxyServer.Loop.{World, run_server}
use proxi.ProxyServer.Transfers.{catching}
use proxi.ProxyServer.{ProxyServer, Os, Handler, listens, notifies, timer_runs, signal_comes}
use proxi.Resolver
use proxi.Resolver.{Resolver}
use proxi.SignalFd
use proxi.SimpleCache
use proxi.SocketWrap
use proxi.SocketWrap.{Sockets}
use proxi.Text.Numbers.{ℤ, pos, negsuc, stoi}
use proxi.Text.{Bytes}
use proxi.TimerFd

-- What the system answers to the calls of the constructors, beside `epoll_ctl`.
pub record Boot : Type 0 where
  pub sockets : Sockets
  pub epoll_create : Option ℕ
  pub eventfd : ℕ → ℕ → Option ℕ
  pub signalfd : List ℕ → ℕ → Option ℕ
  pub timerfd_create : ℕ → ℕ → Option ℕ
  pub timerfd_settime : ℕ → ℕ → ℕ → Bool

-- SIGPIPE
abbrev pub sigpipe : ℕ
sigpipe = 13

-- A server before the bodies of its constructors: its members are empty.
unfoldable pub blank : ProxyServer
blank = record {
  queue = record { connections = []; sockets = []; ticks = 0; fresh = 0 };
  handlers = [];
  on_resolve = [];
  cache = SimpleCache.empty;
  resolver = Resolver.create.0;
  requests = [];
  responses = [];
  raws = [];
  listener = 0;
  notifier = 0;
  timer = 0;
  signal = 0;
  stopped = true;
}

module _ (os : Os) where
  -- `epoll_core::register_fd(fd, state, handler)`
  unfoldable pub register_handler : ℕ → Handler → ProxyServer → Outcome ProxyServer
  register_handler fd h s = do
    s' ← control os ctl_add fd (states (in_state ∷ [])) s
    ok (record s' { handlers = insert_handler fd h s'.handlers })

  -- `save_registration(socket, IN, INFINITE_TIMEOUT, handler)`
  unfoldable pub save_handler : ℕ → Handler → ProxyServer → Outcome ProxyServer
  save_handler fd h s = do
    s' ← register_handler fd h s
    elim (find_socket fd s.queue.sockets) [
      | none ↦ ok (record s' {
        queue = EpollQueue.save_socket s'.queue fd (states (in_state ∷ [])) infinite_timeout;
      })
      | some e ↦ destroy os (new_elem fd (states (in_state ∷ [])) infinite_timeout s.queue.ticks) s'
    ]

  -- `save_registration(epoll_elem(timer, IN, timer_handler), INFINITE_TIMEOUT)`
  unfoldable pub save_timer : ℕ → ProxyServer → Outcome ProxyServer
  save_timer fd s = do
    s' ← register_handler fd timer_runs s
    let elem : EpollElem = record {
      fd = fd;
      events = states (in_state ∷ []);
      timeout = 0;
      expires_in = 0;
    }
    s'' ← save_elem os elem infinite_timeout s'
    ok (record s'' { timer = fd })

  -- `epoll_queue::epoll_queue`: its registration of signals ends with it
  unfoldable pub make_queue : Boot → ProxyServer → Outcome ProxyServer
  make_queue boot s = do
    core ← SocketWrap.checked boot.epoll_create
    sig_fd ← SignalFd.create boot.signalfd (sigint ∷ sigpipe ∷ []) (SignalFd.simple ∷ [])
    let elem : EpollElem = record {
      fd = sig_fd;
      events = states (in_state ∷ []);
      timeout = 0;
      expires_in = 0;
    }
    s0 ← control os ctl_add sig_fd elem.events s
    let s1 = record s0 {
      handlers = insert_handler sig_fd signal_comes (erase_handler sig_fd s0.handlers);
    }
    timer ← TimerFd.create boot.timerfd_create TimerFd.monotonic (TimerFd.simple ∷ [])
    done ← TimerFd.set_interval boot.timerfd_settime timer tick_interval tick_interval
    s2 ← save_timer timer s1
    destroy os elem s2

  -- `proxy_server::proxy_server`
  unfoldable pub construct : Boot → ℕ → ℤ → Outcome ProxyServer
  construct boot port queue_size = do
    s ← make_queue boot blank
    listener ← SocketWrap.create boot.sockets (SocketWrap.nonblock ∷ [])
    notifier ← EventFd.create boot.eventfd 0 (EventFd.semaphore ∷ [])
    bound ← SocketWrap.bind boot.sockets listener port
    heard ← SocketWrap.listen boot.sockets listener queue_size
    s1 ← save_handler notifier notifies s
    s2 ← save_handler listener listens (record s1 { notifier = notifier })
    ok (record s2 { listener = listener })

-- `(uint16_t) std::stoi(...)`
unfoldable pub to_port : ℤ → ℕ
to_port (pos n) = n % 2 ^ 16
to_port (negsuc n) = 2 ^ 16 - 1 - n % 2 ^ 16

unfoldable pub port_of : Option Bytes → Outcome ℕ
port_of none = ok 8080
port_of (some arg) = stoi arg >>= λ n. ok (to_port n)

-- The core of a server that was constructed, with the descriptor of `run`'s signals.
abbrev pub core_of : ℕ → ProxyServer → EpollCore World Handler
core_of sig_fd s = record {
  kernel = record { server = record s { signal = sig_fd }; calls = 0; waits = 0 };
  handlers = s.handlers;
  started = false;
  stopped = true;
}

-- `main`: `run` makes a descriptor of signals of its own, by a later call of `signalfd`, and an
-- `annotated_exception` is caught.
module _ (boot : Boot) (start : Os) (signalfd : List ℕ → ℕ → Option ℕ) (answers : ℕ → Os)
    (waits : ℕ → Waited) (threads : ℕ → Resolver → Resolver) where
  unfoldable pub serve : ℕ → Option Bytes → Outcome (EpollCore World Handler)
  serve fuel arg = do
    port ← port_of arg
    s ← construct start boot port (pos 200)
    sig_fd ← SignalFd.create signalfd (sigint ∷ sigpipe ∷ []) (SignalFd.simple ∷ [])
    run_server answers waits threads fuel (core_of sig_fd s)

  unfoldable pub main : ℕ → Option Bytes → Outcome (Option (EpollCore World Handler))
  main fuel arg = catching (serve fuel arg) (ok none) (λ c. ok (some c))
