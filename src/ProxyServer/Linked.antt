-- ===== src/ProxyServer/Linked.antt =====
-- The states of the server in which every handler finds its messages and its element: the place that the closure
-- captured is alive, holds the descriptor that the handler is registered for, and belongs to the
-- object of its iterator.
pub mod Finds
pub mod Keys
pub mod Shapes
pub mod Places
pub mod News
pub mod Joins
pub mod Grows
pub mod Moves
pub mod Updates
pub mod Ends
pub mod Acts
pub mod Calls
pub mod Accepts
pub mod Waits
pub mod Ticks
pub mod Events
pub mod Relays
pub mod Runs
use proxi.Base.{length, ◌<◌, ℕ, ◌≤◌, ◌≡◌, ◌≢◌, List, [], Option, none, some, All}
use proxi.EpollCore.{find_handler}
use proxi.EpollQueue.Timer.{KeysDiffer, IdsDiffer, find_connection}
use proxi.EpollQueue.{EpollQueue, find_socket}
use proxi.ProxyServer.Linked.Finds.{fd_of, client_fd, server_fd}
use proxi.ProxyServer.{
  ProxyServer, Place, Owner, Handler, Action, Os, at_socket, client_of, server_of, socket,
  connection, reads_response, listens, notifies, timer_runs, signal_comes, resolving, client_waits,
  connects, request_read, response_read, request_sent, response_sent, server_waits,
  server_transfers, client_transfers, relays,
}

-- The descriptor at a place.
abbrev pub fd_at : Place → EpollQueue → Option ℕ
fd_at (at_socket k) q = fd_of (find_socket k q.sockets)
fd_at (client_of id) q = client_fd (find_connection id q.connections)
fd_at (server_of id) q = server_fd (find_connection id q.connections)

-- The keys of the listener, the notifier and the timer, and how many messages each list has.
abbrev pub Frame : Type 0
Frame = ℕ × ℕ × ℕ × ℕ × ℕ × ℕ

abbrev pub frame : ProxyServer → Frame
frame s = (s.listener, s.notifier, s.timer, length s.requests, length s.responses, length s.raws)

-- The place of the element of a handler.
abbrev pub place_of : Frame → Handler → Option Place
place_of r listens = some (at_socket r.0)
place_of r notifies = some (at_socket r.1)
place_of r timer_runs = some (at_socket r.2)
place_of r signal_comes = none
place_of r (resolving sock host) = some (at_socket sock)
place_of r (client_waits extra conn) = some (client_of conn)
place_of r (connects conn ip) = some (server_of conn)
place_of r (request_read from i it next) = some from
place_of r (response_read from i it next) = some from
place_of r (request_sent to i it next) = some to
place_of r (response_sent to i it next) = some to
place_of r (server_waits conn) = some (server_of conn)
place_of r (server_transfers conn rqst i) = some (server_of conn)
place_of r (client_transfers conn i) = some (client_of conn)
place_of r (relays a i b j conn) = some a

-- The iterator stands for the object that holds the element.
abbrev pub Owned : Owner → Place → Type 0
Owned (socket k) (at_socket j) = j ≡ k
Owned (connection id) (client_of j) = j ≡ id
Owned (connection id) (server_of j) = j ≡ id
Owned _ _ = ⊥

abbrev pub Follows : Action → Type 0
Follows (reads_response to it next) = Owned it to
Follows _ = Unit {0}

abbrev pub Coherent : Handler → Type 0
Coherent (request_read from i it next) = Owned it from
Coherent (response_read from i it next) = Owned it from
Coherent (request_sent to i it next) = Owned it to × Follows next
Coherent (response_sent to i it next) = Owned it to × Follows next
Coherent (relays a i b j conn) = Owned (connection conn) a × Owned (connection conn) b
Coherent _ = Unit {0}

-- The messages that the closure shares are there.
abbrev pub Stored : Frame → Handler → Type 0
Stored r (request_read from i it next) = i < r.3
Stored r (response_read from i it next) = i < r.4
Stored r (request_sent to i it next) = i < r.3
Stored r (response_sent to i it next) = i < r.4
Stored r (server_transfers conn rqst i) = i < r.4
Stored r (client_transfers conn i) = i < r.4
Stored r (relays a i b j conn) = (i < r.5) × (j < r.5)
Stored r _ = Unit {0}

abbrev pub Placed : Option Place → ℕ → EpollQueue → Type 0
Placed none fd q = Unit {0}
Placed (some p) fd q = fd_at p q ≡ some fd

abbrev pub Good : Frame → EpollQueue → ℕ → Handler → Type 0
Good r q fd h = Placed (place_of r h) fd q × Coherent h × Stored r h

-- The elements: the key of a socket is its descriptor, and no two places hold the same one, where 0
-- stands for no descriptor. Positions from `fresh` on were not given out.
pub record Shape (q : EpollQueue) : Type 0 where
  pub keys : KeysDiffer q.sockets
  pub ids : IdsDiffer q.connections
  pub unused : (id : ℕ) → q.fresh ≤ id → find_connection id q.connections ≡ none
  pub keyed : (k fd : ℕ) → fd_at (at_socket k) q ≡ some fd → fd ≡ k
  pub unique :
      (p p' : Place) (fd : ℕ) → fd ≢ 0 → fd_at p q ≡ some fd → fd_at p' q ≡ some fd → p ≡ p'

-- Every handler but those of the descriptors `l` finds its element and its messages.
abbrev pub Handled : List ℕ → Frame → EpollQueue → List (ℕ × Handler) → Type 0
Handled l r q handlers =
    (fd : ℕ) (h : Handler)
    → fd ≢ 0
    → All (λ x. fd ≢ x) l
    → find_handler fd handlers ≡ some h
    → Good r q fd h

abbrev pub LinkedBut : List ℕ → ProxyServer → Type 0
LinkedBut l s = Shape s.queue × Handled l (frame s) s.queue s.handlers

abbrev pub Linked : ProxyServer → Type 0
Linked = LinkedBut []

-- No place holds the descriptor.
abbrev pub Nowhere : ℕ → EpollQueue → Type 0
Nowhere fd q = fd ≢ 0 → (p : Place) → fd_at p q ≢ some fd

-- The system gives descriptors that are not in use.
abbrev pub Gives : Os → ProxyServer → Type 0
Gives os s =
    ((listener fd : ℕ) → os.accept4 listener ≡ some fd → Nowhere fd s.queue)
    × ((fd : ℕ) → os.new_socket ≡ some fd → Nowhere fd s.queue)
