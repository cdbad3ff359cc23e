-- ===== src/Tests/Servers.antt =====
-- The results on the server: one client, and one connection between two others.
use proxi.Base.{
  ℕ, ◌≤◌, ◌≡◌, refl, List, [], ◌∷◌, ◌++◌, some, true, false, ok, fault, undefined, arith, Returns,
  Yields,
}
use proxi.BufferedMessage
use proxi.EpollCore.{find_handler, erase_handler}
use proxi.EpollQueue.{
  set_active_connection, touch_connections, EpollElem, Connection, find_socket, close_socket,
  erase_socket, timer_handler, sweep_connections, sweep_sockets,
}
use proxi.EpollQueue.Timer.{find_connection}
use proxi.FdState
use proxi.FdState.{in_state, error_state, rdhup_state, value_of}
use proxi.FileDescriptor.{read}
use proxi.HeaderParser.ResponseLine.{of_code}
use proxi.HeaderParser.Policy.{should_cache, to_url}
use proxi.ProxyServer.Actions.{
  blank_request, blank_response, plain_response, is_code, handle_validation_response,
  connect_to_server,
}
use proxi.ProxyServer.Caching.{Without, finish_transfer_lem, handle_validation_response_lem}
use proxi.ProxyServer.Connecting.{
  find_resolve, resolved, run_connects, run_resolving, erase_found, erase_resolve, established,
}
use proxi.ProxyServer.Elems.{
  elem_at, update_state, put_elem, put_connection, control, set_active, socket_at, connection_at,
  states, close, destroy,
}
use proxi.ProxyServer.Handlers.{
  handle, run, tick, destroy_all, expired_sockets, expired_connections,
}
use proxi.ProxyServer.Hazards.{resolved-timed_out}
use proxi.ProxyServer.Pages.{is_cached, get_cached, save_cached}
use proxi.ProxyServer.Reaches.{Pages, Reaches, Reaches-Pages}
use proxi.ProxyServer.Transfers.{
  finish_transfer, relay_in, run_relays, message_at, put_message, after_read,
}
use proxi.ProxyServer.Retries.{Refusals, retried_at, run_connects-again}
use proxi.ProxyServer.Stale.{goes_on, first_of, connect_to_server-established}
use proxi.ProxyServer.Tunnel.Runs.{input, output, Reaches-Tunnel}
use proxi.ProxyServer.Tunnel.{Holds}
use proxi.ProxyServer.{
  ProxyServer, Os, ClientRequest, ServerResponse, client_of, server_of, handles, resolving,
  server_transfers, response_sent, reuses, relays, in_progress, unreachable, max_cache_size,
  connects, OnConnection,
}
use proxi.RawMessage.{RawMessage}
use proxi.RawMessage
use proxi.Resolver
use proxi.Resolver.{Extra, ResolvedIp}
use proxi.SimpleCache
use proxi.SimpleCache.Reads.{empty-IsValid}
use proxi.SimpleCache.{SimpleCache, size}
use proxi.Tests.Kernels.{gives, takes_three}
use proxi.Text.{Bytes, codes, equal}

abbrev pub os : Os
os = record {
  epoll_ctl = λ op fd events. true;
  accept4 = λ fd. some 9;
  new_socket = some 10;
  connect = λ fd address. in_progress;
  socket_error = λ fd. some unreachable;
  available = λ fd. some 1;
  read = λ fd. gives (codes "abcd");
  write = λ fd. takes_three;
  memory = 0;
}

abbrev pub elem : ℕ → EpollElem
elem fd = record { fd = fd; events = 1; timeout = 240; expires_in = 12 }

abbrev pub conn : Connection
conn = record { id = 0; client = elem 6; server = elem 7; timeout = 240; expires_in = 1000 }

abbrev asked : Extra
asked = record { socket = 5; host = codes "a.org" }

abbrev pub request : ClientRequest
unfolding BufferedMessage.empty
request = BufferedMessage.empty blank_request

abbrev pub response : ServerResponse
unfolding BufferedMessage.empty
response = BufferedMessage.empty blank_response

abbrev pub message : RawMessage
message = record { read_length = 0; write_length = 0; buffer = λ i. 0 }

abbrev pub no_pages : {A : Type 0} → SimpleCache Bytes A
no_pages = record { values = []; first = 0; last = 0; fresh = 1 }

abbrev pub server : ProxyServer
server = record {
  queue = record { connections = conn ∷ []; sockets = (5, elem 5) ∷ []; ticks = 10; fresh = 1 };
  handlers = (5, resolving 5 (codes "a.org")) ∷ [];
  on_resolve = ((5, codes "a.org"), handles request) ∷ [];
  cache = no_pages;
  resolver = record { in_queue = []; out_queue = []; cache = no_pages; should_stop = false };
  requests = request ∷ [];
  responses = response ∷ [];
  raws = message ∷ [];
  listener = 1;
  notifier = 2;
  timer = 3;
  signal = 4;
  stopped = false;
}

pub server-Pages : Pages server.cache
unfolding SimpleCache.empty
server-Pages = empty-IsValid max_cache_size

-- The client goes while its host is resolved.
abbrev after_hangup : ProxyServer
after_hangup = record server {
  queue = record server.queue { sockets = [] };
  handlers = [];
  on_resolve = [];
}

Reaches-Pages_example :
    Pages after_hangup.cache
    × (size after_hangup.cache ≤ max_cache_size)
    × ((url : Bytes) (page : List Bytes)
        → Yields (λ (s'' : ProxyServer). Pages s''.cache) (save_cached url page after_hangup))
unfolding handle find_handler run run_resolving FdState.is value_of socket_at find_socket
    erase_found find_resolve equal close destroy close_socket erase_handler erase_resolve
    erase_socket
Reaches-Pages_example = Reaches-Pages {s = server} server-Pages (
    Reaches.event {s1 = server} {s2 = after_hangup} os 5 (states (rdhup_state ∷ [])) Reaches.start
      refl)

abbrev answer : ResolvedIp
answer = record { ips = 1 ∷ []; port = 80; extra = asked }

abbrev after_tick : ProxyServer
after_tick = record server {
  handlers = [];
  queue = record { connections = conn ∷ []; sockets = []; ticks = 13; fresh = 1 };
}

resolved-timed_out_example : resolved os 10 answer after_tick ≡ fault undefined
unfolding find_resolve find_socket tick find_connection equal destroy_all expired_sockets destroy
    expired_connections timer_handler erase_handler sweep_connections sweep_sockets
resolved-timed_out_example =
    resolved-timed_out os os 1 10 answer (handles request) (elem 5) server after_tick (refl, tt)
      (refl, tt) (omega arith) refl refl (omega arith) refl

abbrev own : OnConnection
own = handles (record request { read = 1 })

-- A client of the same descriptor and host comes, while the old entry is there.
abbrev queried : ProxyServer
queried = record server {
  resolver = record server.resolver {
    in_queue = record { host = codes "a.org"; notifier = 2; extra = asked } ∷ [];
  };
  queue = record server.queue { sockets = (5, record (elem 5) { events = 8192 }) ∷ [] };
}

connect_to_server-established_example :
    (queried.resolver
      ≡ Resolver.resolve_host server.resolver
          (record { host = codes "a.org"; notifier = 2; extra = asked }))
    × (find_handler 5 queried.handlers ≡ some (resolving 5 (codes "a.org")))
    × (established os asked 0 queried
        ≡ goes_on os asked 0
            (first_of (find_resolve 5 (codes "a.org") server.on_resolve) own)
            queried)
unfolding find_resolve find_socket equal connect_to_server socket_at proxi.ProxyServer.Elems.update
    update_state elem_at FdState.ne value_of put_elem control proxi.ProxyServer.Elems.update_handler
    proxi.ProxyServer.Elems.put_socket proxi.EpollCore.insert_handler
    proxi.ProxyServer.Actions.insert_resolve Resolver.resolve_host erase_handler
connect_to_server-established_example =
    connect_to_server-established os os 5 0 (codes "a.org") own (elem 5) server queried queried refl
      refl refl

abbrev retried : ResolvedIp
retried = record { ips = 1 ∷ 2 ∷ []; port = 80; extra = asked }

abbrev retrying : ProxyServer
retrying = record server { handlers = (7, connects 0 retried) ∷ [] }

abbrev retrying_again : ProxyServer
retrying_again = record retrying {
  queue = record retrying.queue { connections = record conn { expires_in = 250 } ∷ [] };
}

run_connects-again_example :
    handle os 7 (states (error_state ∷ [])) retrying_again
    ≡ retried_at os 0 7 asked 2 retrying_again
unfolding find_connection FdState.is value_of find_handler handle run run_connects connection_at
    set_active proxi.ProxyServer.Connecting.try_next Resolver.has_ip Resolver.next_ip Resolver.copy
    set_active_connection touch_connections
run_connects-again_example =
    run_connects-again 0 7 1 2 [] retried refl os (states (error_state ∷ [])) conn retrying
      retrying_again refl refl refl
      (Refusals.again {s1 = retrying} {s2 = retrying_again} os (states (error_state ∷ []))
        Refusals.first (refl, refl, refl) (ground arith) refl)
      (refl, refl, refl)

abbrev filled : RawMessage
filled = record message { read_length = 4; buffer = RawMessage.fill (λ i. 0) 0 (codes "abcd") }

abbrev tunnelling : ProxyServer
tunnelling = record server {
  handlers = (6, relays (client_of 0) 0 (server_of 0) 1 0) ∷ [];
  raws = message ∷ message ∷ [];
}

abbrev relayed : ProxyServer
relayed = record tunnelling {
  queue = record tunnelling.queue {
    connections = record conn { server = record (elem 7) { events = 5 }; expires_in = 250 } ∷ [];
  };
  raws = filled ∷ message ∷ [];
}

abbrev relaying : Reaches tunnelling relayed
unfolding RawMessage.segment handle find_handler run run_relays set_active connection_at
    find_connection FdState.is value_of elem_at RawMessage.can_read relay_in message_at
    RawMessage.read_from read after_read RawMessage.can_write update_state FdState.ne FdState.or
    put_elem control put_message set_active_connection touch_connections put_connection
relaying =
    Reaches.event {s1 = tunnelling} {s2 = relayed} os 6 (states (in_state ∷ [])) Reaches.start refl

Reaches-Tunnel_example :
    (bytes : Bytes) × Holds 0 bytes relayed × (input 0 relaying ≡ output 0 relaying ++ bytes)
unfolding RawMessage.segment
Reaches-Tunnel_example =
    Reaches-Tunnel {s = tunnelling} {s' = relayed} 0 (message, refl, omega arith, refl) relaying

abbrev page : ServerResponse
page = plain_response 200 (codes "OK")

abbrev answered : ProxyServer
answered = record server { responses = page ∷ [] }

finish_transfer_lem_example :
    Returns
      (λ (s' : ProxyServer).
        (should_cache page.header ≡ true
          → (is_cached request.header s' ≡ true) × (get_cached request.header s' ≡ ok page.cache))
        × (should_cache page.header ≡ false → s'.cache ≡ server.cache))
      (finish_transfer os 0 request 0 answered)
unfolding is_cached SimpleCache.has SimpleCache.find_node message_at
finish_transfer_lem_example =
    finish_transfer_lem os 0 0 request page answered server-Pages refl refl

abbrev gone_page : ServerResponse
gone_page = plain_response 404 (codes "Not found")

handle_validation_response_lem_example :
    Returns
      (λ (s' : ProxyServer).
        (false ≡ true → s'.cache ≡ server.cache)
        × (false ≡ false → Without server.cache (to_url request.header) s'.cache))
      (handle_validation_response os 0 request page gone_page server)
unfolding is_code plain_response BufferedMessage.of_header of_code
handle_validation_response_lem_example =
    handle_validation_response_lem os 0 request page gone_page server server-Pages
