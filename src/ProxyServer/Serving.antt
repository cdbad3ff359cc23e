-- ===== src/ProxyServer/Serving.antt =====
-- What a server is when it was constructed.
use proxi.Base.{ℕ, ◌≡◌, ◌≢◌, refl, sym, [], ◌∷◌, some, true, ok, arith, ne→==, eq→==}
use proxi.EpollCore.{ctl_add, ctl_del, insert_handler, erase_handler}
use proxi.EpollQueue.{
  EpollElem, find_socket, insert_socket, infinite_timeout, tick_interval, new_elem, save_socket,
  save_registration,
}
use proxi.EventFd
use proxi.FdState.{in_state}
use proxi.ProxyServer.Elems.{states, control, destroy, save_elem}
use proxi.ProxyServer.Handlers.{sigint}
use proxi.ProxyServer.Startup.{
  Boot, sigpipe, blank, register_handler, save_handler, save_timer, make_queue, construct,
}
use proxi.ProxyServer.{ProxyServer, Os, listens, notifies, timer_runs}
use proxi.SignalFd
use proxi.SocketWrap
use proxi.Text.Numbers.{pos}
use proxi.TimerFd

-- The system gives four descriptors, and no call of the constructors fails.
pub record Works (os : Os) (boot : Boot) (port : ℕ) (n : ℕ) (sig timer listener notifier : ℕ)
    : Type 0 where
  pub epoll : (core : ℕ) × (boot.epoll_create ≡ some core)
  pub gives_sig : boot.signalfd (sigint ∷ sigpipe ∷ []) 0 ≡ some sig
  pub gives_timer : boot.timerfd_create 1 0 ≡ some timer
  pub sets_time : boot.timerfd_settime timer tick_interval tick_interval ≡ true
  pub gives_listener : boot.sockets.socket 2049 ≡ some listener
  pub gives_notifier : boot.eventfd 0 1 ≡ some notifier
  pub binds : boot.sockets.bind listener (boot.sockets.htons port) ≡ true
  pub hears : boot.sockets.listen listener (pos n) ≡ true
  pub registers : (fd : ℕ) → os.epoll_ctl ctl_add fd (states (in_state ∷ [])) ≡ true
  pub unregisters : os.epoll_ctl ctl_del sig 0 ≡ true

-- What listens, notifies and ticks: the three descriptors that live as long as the server, with
-- the timeout that stands for none.
abbrev pub lasting : ℕ → ℕ → EpollElem
lasting fd timeout = record {
  fd = fd;
  events = states (in_state ∷ []);
  timeout = timeout;
  expires_in = timeout;
}

module _ (os : Os) (boot : Boot) (port n sig timer listener notifier : ℕ)
    (w : Works os boot port n sig timer listener notifier) (a : sig ≢ timer) (b : timer ≢ notifier)
    (c : timer ≢ listener) (d : notifier ≢ listener) (z : sig ≢ 0) where
  abbrev queued : ProxyServer
  queued = record blank {
    queue = record blank.queue { sockets = (timer, lasting timer infinite_timeout) ∷ [] };
    handlers = (timer, timer_runs) ∷ [];
    timer = timer;
  }

  make_queue-queued : make_queue os boot blank ≡ ok queued
  unfolding make_queue blank control save_timer register_handler save_elem destroy insert_handler
      erase_handler SignalFd.create SignalFd.value_of SignalFd.value_from SignalFd.add_mode
      TimerFd.create TimerFd.value_of TimerFd.value_from TimerFd.add_mode TimerFd.clock
      TimerFd.set_interval SocketWrap.checked SocketWrap.succeeds save_registration insert_socket
      find_socket
  make_queue-queued =
      let (core, made) = w.epoll in
      let add = w.registers in
      let other = ne→== timer sig (λ e. a (sym e)) in
      let other' = ne→== sig timer a in
      let nonzero = ne→== sig 0 z in
      let same = eq→== sig sig refl in
      grind (
        arith, made, w.gives_sig, add, w.gives_timer, w.sets_time, other', nonzero, w.unregisters,
        same, other,
      )

  abbrev pub ready : ProxyServer
  ready = record blank {
    queue = record blank.queue {
      sockets =
          (timer, lasting timer infinite_timeout)
          ∷ (notifier, lasting notifier infinite_timeout)
          ∷ (listener, lasting listener infinite_timeout)
          ∷ [];
    };
    handlers = (timer, timer_runs) ∷ (notifier, notifies) ∷ (listener, listens) ∷ [];
    timer = timer;
    notifier = notifier;
    listener = listener;
  }

  pub construct-ready : construct os boot port (pos n) ≡ ok ready
  unfolding construct blank control save_handler register_handler insert_handler EventFd.create
      EventFd.value_of EventFd.value_from EventFd.add_mode SocketWrap.create SocketWrap.value_of
      SocketWrap.value_from SocketWrap.add_mode SocketWrap.bind SocketWrap.listen
      SocketWrap.queue_length SocketWrap.checked SocketWrap.succeeds save_socket new_elem
      insert_socket find_socket
  construct-ready =
      let queue = make_queue-queued in
      let one = ne→== timer notifier b in
      let two = ne→== timer listener c in
      let three = ne→== notifier listener d in
      grind (
        arith, queue, w.gives_listener, w.gives_notifier, w.binds, w.hears, w.registers, one, two,
        three,
      )
