-- ===== src/Tests/Starts.antt =====
-- The results on the constructors and on the loop of `main`: a system that gives the descriptors 4,
-- 5, 6 and 7.
use proxi.Base.{
  ℕ, zero, suc, ◌≡◌, refl, List, [], ◌∷◌, Option, none, some, true, false, Yields, arith,
}
use proxi.EpollCore.Rounds.{Rounds}
use proxi.EpollCore.{EpollCore, Waited, events, find_handler}
use proxi.EpollQueue.{find_socket}
use proxi.FdState.{in_state}
use proxi.ProxyServer.Elems.{states}
use proxi.ProxyServer.Handlers.{number_of}
use proxi.ProxyServer.Loop.{World, opened}
use proxi.Resolver.{Resolver}
use proxi.ProxyServer.Mains.{serve-stops}
use proxi.ProxyServer.Serving.{Works, ready, construct-ready}
use proxi.ProxyServer.Startup.{Boot, core_of, serve}
use proxi.ProxyServer.{ProxyServer, Os, Handler, in_progress, unreachable}
use proxi.Tests.Kernels.{gives, takes_three}
use proxi.Text.Numbers.{pos}
use proxi.Text.{Bytes, codes}

abbrev pub boot : Boot
boot = record {
  sockets = record {
    socket = λ type. some 6;
    accept4 = λ fd flags. none;
    bind = λ fd port. true;
    connect = λ fd ip port. true;
    listen = λ fd n. true;
    getsockopt = λ fd name. none;
    htons = λ port. port;
    somaxconn = pos 4096;
  };
  epoll_create = some 3;
  eventfd = λ initial flags. some 7;
  signalfd = λ mask flags. some 4;
  timerfd_create = λ clock flags. some 5;
  timerfd_settime = λ fd first next. true;
}

abbrev zeros : ℕ → Bytes
zeros zero = []
zeros (suc n) = 0 ∷ zeros n

-- What the kernel writes into the descriptor of signals.
abbrev info : Bytes
info = 2 ∷ zeros 127

abbrev pub start : Os
start = record {
  epoll_ctl = λ op fd events. true;
  accept4 = λ fd. none;
  new_socket = none;
  connect = λ fd address. in_progress;
  socket_error = λ fd. some unreachable;
  available = λ fd. some 1;
  read = λ fd. gives info;
  write = λ fd. takes_three;
  memory = 0;
}

abbrev pub works : Works start boot 8080 200 4 5 6 7
works = record {
  epoll = (3, refl);
  gives_sig = refl;
  gives_timer = refl;
  sets_time = refl;
  gives_listener = refl;
  gives_notifier = refl;
  binds = refl;
  hears = refl;
  registers = λ fd. refl;
  unregisters = refl;
}

abbrev answers : ℕ → Os
answers n = start

-- The timer ticks, and then a client comes together with a signal and with another tick.
abbrev waits : ℕ → Waited
waits zero = events ((5, states (in_state ∷ [])) ∷ [])
waits (suc n) =
    events
      ((6, states (in_state ∷ [])) ∷ (8, states (in_state ∷ [])) ∷ (5, states (in_state ∷ [])) ∷ [])

abbrev threads : ℕ → Resolver → Resolver
threads n r = r

abbrev signalfd : List ℕ → ℕ → Option ℕ
signalfd mask flags = some 8

abbrev made : ProxyServer
made =
    ready start boot 8080 200 4 5 6 7 works (omega arith) (omega arith) (omega arith) (omega arith)
      (omega arith)

abbrev opens : EpollCore World Handler
opens = opened answers waits threads (core_of 8 made)

abbrev ticked : EpollCore World Handler
ticked = record opens {
  kernel = record {
    server = record opens.kernel.server {
      queue = record made.queue { ticks = 6 };
      handlers = opens.handlers;
    };
    calls = 1;
    waits = 1;
  };
}

abbrev listened : EpollCore World Handler
listened = record ticked { kernel = record ticked.kernel { calls = 2; waits = 2 } }

serve-stops_example :
    Yields
      (λ (c : EpollCore World Handler). (c.started ≡ false) × (c.stopped ≡ true))
      (serve boot start signalfd answers waits threads 3 (some (codes "8080")))
unfolding number_of proxi.ProxyServer.Startup.port_of proxi.Text.Numbers.stoi
    proxi.ProxyServer.Startup.to_port proxi.EpollCore.dispatch proxi.EpollCore.handle_event
    find_handler proxi.EpollCore.update_fd_handler proxi.EpollCore.insert_handler
    proxi.EpollCore.erase_handler proxi.ProxyServer.Loop.call_handler proxi.ProxyServer.Handlers.run
    proxi.ProxyServer.Handlers.run_ticks proxi.FdState.is proxi.FdState.value_of
    proxi.ProxyServer.Elems.socket_at find_socket proxi.FileDescriptor.read
    proxi.ProxyServer.Handlers.tick proxi.ProxyServer.Handlers.destroy_all
    proxi.ProxyServer.Handlers.expired_sockets proxi.ProxyServer.Startup.blank
    proxi.ProxyServer.Handlers.expired_connections proxi.EpollQueue.timer_handler
    proxi.EpollQueue.sweep_connections proxi.EpollQueue.sweep_sockets
    proxi.ProxyServer.Connecting.run_listens
serve-stops_example =
    serve-stops boot start signalfd answers waits threads 1 0 8080 8 (some (codes "8080"))
      ((6, states (in_state ∷ [])) ∷ []) ((5, states (in_state ∷ [])) ∷ []) info made ticked
      listened refl
      (construct-ready start boot 8080 200 4 5 6 7 works (omega arith) (omega arith) (omega arith)
        (omega arith) (omega arith))
      refl refl (λ n. refl)
      (Rounds.round {c2 = ticked} ((5, states (in_state ∷ [])) ∷ []) Rounds.begin refl refl refl)
      refl refl refl refl refl refl refl refl
