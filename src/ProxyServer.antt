-- ===== src/ProxyServer.antt =====
-- `proxy_server` of proxy/proxy_server.h and proxy_server.cpp: its state, and the closures that it
-- registers, as data. A closure is a constructor with what it captures; what it does when it is
-- called is a function of its own in the children. A message behind a `shared_ptr` is a place in
-- one of the lists of the state, since two closures may share it.
pub mod Elems
pub mod Pages
pub mod Actions
pub mod Connecting
pub mod Transfers
pub mod Handlers
pub mod Kept
pub mod Hazards
pub mod Caching
pub mod Replays
pub mod Reaches
pub mod Retries
pub mod Stale
pub mod Tunnel
pub mod Loop
pub mod Startup
pub mod Serving
pub mod Mains
pub mod Linked
use proxi.Base.{ℕ, List, Option, Bool}
use proxi.BufferedMessage.{BufferedMessage}
use proxi.EpollCore.{Operation}
use proxi.EpollQueue.{EpollQueue}
use proxi.FileDescriptor.{SysRead, SysWrite}
use proxi.HeaderParser.Messages.{RequestHeader, ResponseHeader}
use proxi.RawMessage.{RawMessage}
use proxi.Resolver.{Extra, ResolvedIp, Resolver}
use proxi.SimpleCache.{SimpleCache}
use proxi.Text.{Bytes}

abbrev pub max_cache_size : ℕ
max_cache_size = 20000

abbrev pub ClientRequest : Type 0
ClientRequest = BufferedMessage RequestHeader

abbrev pub ServerResponse : Type 0
ServerResponse = BufferedMessage ResponseHeader

-- A reference to an `epoll_elem`: in the map of sockets, or one of the two of a connection.
pub data Place : Type 0 where
  at_socket client_of server_of : ℕ → Place

-- An iterator: of the map of sockets, or of the list of connections.
pub data Owner : Type 0 where
  socket connection : ℕ → Owner

-- `action_with_response`: `handle_validation_response`
pub data OnResponse : Type 0 where
  validates : ℕ → ClientRequest → ServerResponse → OnResponse

-- `action_with_request`: `first_request_read`, and the closure of `reuse_connection`
pub data OnRequest : Type 0 where
  first_request : ℕ → OnRequest
  reused : ℕ → Bytes → OnRequest

-- `action_with_connection`: `handle_client_request`, and a reconnection for `fast_transfer`
pub data OnConnection : Type 0 where
  handles transfers : ClientRequest → OnConnection

-- `action`: what follows when a message was sent
pub data Action : Type 0 where
  -- `send_and_read`
  reads_response : Place → Owner → OnResponse → Action
  -- `reuse_connection`, `handle_connect`, `fast_transfer`
  reuses : ℕ → Bytes → Action
  starts_relay : ℕ → Action
  starts_transfer : ℕ → ClientRequest → Action
  -- `send_404` and `send_server_response`
  closes : ℕ → Action

-- `epoll_core::handler_t`
pub data Handler : Type 0 where
  listens notifies : Handler
  -- the timer's handler of `epoll_queue`, and the handler of signals of `run`
  timer_runs signal_comes : Handler
  -- `connect_to_server`: the client's socket while its host is resolved
  resolving : ℕ → Bytes → Handler
  -- the client's socket, and the server's, while the server is connected
  client_waits : Extra → ℕ → Handler
  connects : ℕ → ResolvedIp → Handler
  -- `read` and `send`, at the two kinds of message; the number is the place of the message
  request_read : Place → ℕ → Owner → OnRequest → Handler
  response_read : Place → ℕ → Owner → OnResponse → Handler
  request_sent : Place → ℕ → Owner → Action → Handler
  response_sent : Place → ℕ → Owner → Action → Handler
  -- `reuse_connection`: the server's socket between two requests
  server_waits : ℕ → Handler
  -- `fast_transfer`: the server's socket and the client's, with the response that they share
  server_transfers : ℕ → ClientRequest → ℕ → Handler
  client_transfers : ℕ → ℕ → Handler
  -- `make_connect_transfer_handler`
  relays : Place → ℕ → Place → ℕ → ℕ → Handler

pub record ProxyServer : Type 0 where
  pub queue : EpollQueue
  pub handlers : List (ℕ × Handler)
  pub on_resolve : List ((ℕ × Bytes) × OnConnection)
  pub cache : SimpleCache Bytes (List Bytes)
  pub resolver : Resolver
  pub requests : List ClientRequest
  pub responses : List ServerResponse
  pub raws : List RawMessage
  -- the keys of the iterators, and the descriptor of `signal_registration`
  pub listener : ℕ
  pub notifier : ℕ
  pub timer : ℕ
  pub signal : ℕ
  -- `queue.epoll.stop_wait()` was called
  pub stopped : Bool

-- `connect(2)`, and `SO_ERROR`: `unreachable` is ENETUNREACH or ECONNREFUSED
pub data Connected : Type 0 where
  connected in_progress refused : Connected

pub data SocketError : Type 0 where
  unreachable other_error : SocketError

-- What the system answers during one call of a handler; `none` is -1. `memory` is what a copied
-- `resolved_ip` finds in the place of its port.
pub record Os : Type 0 where
  pub epoll_ctl : Operation → ℕ → ℕ → Bool
  pub accept4 : ℕ → Option ℕ
  pub new_socket : Option ℕ
  pub connect : ℕ → ℕ × ℕ → Connected
  pub socket_error : ℕ → Option SocketError
  pub available : ℕ → Option ℕ
  pub read : ℕ → SysRead
  pub write : ℕ → SysWrite
  pub memory : ℕ
