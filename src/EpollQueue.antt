-- ===== src/EpollQueue.antt =====
-- `epoll_queue` of proxy/epoll_queue/epoll_queue.h and epoll_queue.cpp, with the timeouts of
-- `epoll_elem` and `connection`: which sockets and connections are alive, and when the timer
-- closes them. Registering with the kernel is not modelled here. A position of the `std::list` of
-- connections is the number that the connection got when it was saved.
pub mod Timer
use proxi.Base.{
  ℕ, suc, ◌+◌, ◌*◌, ◌^◌, List, [], ◌∷◌, ◌++◌, Option, none, some, Bool, true, false, leb, ◌==◌,
  if◌then◌else◌,
}
use proxi.Text.{add64}

abbrev pub tick_interval : ℕ
tick_interval = 2

abbrev pub short_socket_timeout : ℕ
short_socket_timeout = 60 * 4

abbrev pub long_socket_timeout : ℕ
long_socket_timeout = 60 * 20

abbrev pub infinite_timeout : ℕ
infinite_timeout = 2 ^ 32

-- `epoll_elem`: its descriptor, the events it waits for, and its timeout
pub record EpollElem : Type 0 where
  pub fd : ℕ
  pub events : ℕ
  pub timeout : ℕ
  pub expires_in : ℕ

pub record Connection : Type 0 where
  pub id : ℕ
  pub client : EpollElem
  pub server : EpollElem
  pub timeout : ℕ
  pub expires_in : ℕ

pub record EpollQueue : Type 0 where
  pub connections : List Connection
  pub sockets : List (ℕ × EpollElem)
  pub ticks : ℕ
  -- the number that the next saved connection gets
  pub fresh : ℕ

-- `epoll_elem(epoll, fd, state, timeout, ticks)`
unfoldable pub new_elem : ℕ → ℕ → ℕ → ℕ → EpollElem
new_elem fd events timeout ticks = record {
  fd = fd;
  events = events;
  timeout = timeout;
  expires_in = add64 ticks timeout;
}

unfoldable pub change_timeout : Connection → ℕ → Connection
change_timeout c timeout = record c { timeout = timeout }

unfoldable pub find_socket : ℕ → List (ℕ × EpollElem) → Option EpollElem
find_socket fd [] = none
find_socket fd ((k, e) ∷ l) = if k == fd then some e else find_socket fd l

-- `std::map::insert`: a key that is there keeps its element
unfoldable pub insert_socket : ℕ → EpollElem → List (ℕ × EpollElem) → List (ℕ × EpollElem)
insert_socket fd e [] = (fd, e) ∷ []
insert_socket fd e ((k, e') ∷ l) = if k == fd then (k, e') ∷ l else (k, e') ∷ insert_socket fd e l

unfoldable pub erase_socket : ℕ → List (ℕ × EpollElem) → List (ℕ × EpollElem)
erase_socket fd [] = []
erase_socket fd ((k, e) ∷ l) = if k == fd then l else (k, e) ∷ erase_socket fd l

-- `save_registration(registration, timeout)`
unfoldable pub save_registration : EpollQueue → EpollElem → ℕ → EpollQueue
save_registration q e timeout =
    let e' = record e { expires_in = add64 q.ticks timeout; timeout = timeout } in
    record q { sockets = insert_socket e.fd e' q.sockets }

-- `save_registration(socket, state, timeout)`, and with a handler
unfoldable pub save_socket : EpollQueue → ℕ → ℕ → ℕ → EpollQueue
save_socket q fd state timeout = record q {
  sockets = insert_socket fd (new_elem fd state timeout q.ticks) q.sockets;
}

-- `close(socket)`
unfoldable pub close_socket : EpollQueue → ℕ → EpollQueue
close_socket q fd = record q { sockets = erase_socket fd q.sockets }

unfoldable pub make_connection : EpollQueue → EpollElem → EpollElem → ℕ → Connection
make_connection q client server timeout = record {
  id = q.fresh;
  client = client;
  server = server;
  timeout = timeout;
  expires_in = add64 q.ticks timeout;
}

unfoldable pub save_connection : EpollQueue → Connection → EpollQueue
save_connection q c = record q {
  connections = q.connections ++ record c { id = q.fresh } ∷ [];
  fresh = suc q.fresh;
}

unfoldable pub erase_connection : ℕ → List Connection → List Connection
erase_connection id [] = []
erase_connection id (c ∷ l) = if c.id == id then l else c ∷ erase_connection id l

-- `close(connection)`
unfoldable pub close_connection : EpollQueue → ℕ → EpollQueue
close_connection q id = record q { connections = erase_connection id q.connections }

unfoldable pub touch_sockets : ℕ → ℕ → List (ℕ × EpollElem) → List (ℕ × EpollElem)
touch_sockets ticks fd [] = []
touch_sockets ticks fd ((k, e) ∷ l) =
    if k == fd
    then (k, record e { expires_in = add64 ticks e.timeout }) ∷ l
    else (k, e) ∷ touch_sockets ticks fd l

-- `set_active(socket)`
unfoldable pub set_active_socket : EpollQueue → ℕ → EpollQueue
set_active_socket q fd = record q { sockets = touch_sockets q.ticks fd q.sockets }

unfoldable pub touch_connections : ℕ → ℕ → List Connection → List Connection
touch_connections ticks id [] = []
touch_connections ticks id (c ∷ l) =
    if c.id == id
    then record c { expires_in = add64 ticks c.timeout } ∷ l
    else c ∷ touch_connections ticks id l

-- `set_active(connection)`
unfoldable pub set_active_connection : EpollQueue → ℕ → EpollQueue
set_active_connection q id = record q { connections = touch_connections q.ticks id q.connections }

-- The two loops of the timer's handler.
unfoldable pub sweep_sockets : ℕ → List (ℕ × EpollElem) → List (ℕ × EpollElem)
sweep_sockets ticks [] = []
sweep_sockets ticks ((k, e) ∷ l) =
    let rest = sweep_sockets ticks l in if leb e.expires_in ticks then rest else (k, e) ∷ rest

unfoldable pub sweep_connections : ℕ → List Connection → List Connection
sweep_connections ticks [] = []
sweep_connections ticks (c ∷ l) =
    let rest = sweep_connections ticks l in if leb c.expires_in ticks then rest else c ∷ rest

-- The timer's handler, when the timer ran out `ticked` times since the last call.
unfoldable pub timer_handler : ℕ → EpollQueue → EpollQueue
timer_handler ticked q =
    let at_sockets = add64 q.ticks (ticked * tick_interval) in
    let at_connections = add64 at_sockets ticked in
    record q {
      sockets = sweep_sockets at_sockets q.sockets;
      connections = sweep_connections at_connections q.connections;
      ticks = at_connections;
    }
