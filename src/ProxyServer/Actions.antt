-- ===== src/ProxyServer/Actions.antt =====
-- The monadic functions of proxy/proxy_server.cpp: what a request, a response, a new connection
-- and a sent message lead to. Each registers the handlers that wait for what comes next.
use proxi.Base.{
  ℕ, ◌+◌, List, [], ◌∷◌, ◌++◌, Bool, true, false, ◌&&◌, ◌||◌, Outcome, ok, ◌>>=◌, ◌==◌,
  if◌then◌else◌, length,
}
use proxi.BufferedMessage
use proxi.BufferedMessage.Headers.{response_header}
use proxi.EpollQueue.{long_socket_timeout}
use proxi.FdState.{in_state, out_state, wait_state, rdhup_state}
use proxi.HeaderParser.Header.{has_property, get_property}
use proxi.HeaderParser.Messages.{RequestHeader, ResponseHeader}
use proxi.HeaderParser.RequestLine
use proxi.HeaderParser.RequestLine.{RequestType, get_type, get, post, connect, option}
use proxi.HeaderParser.ResponseLine
use proxi.ProxyServer.Elems.{
  states, socket_at, update, update_state, close, take_client, save_elem, escape_client,
}
use proxi.ProxyServer.Pages.{is_cached, get_cached, delete_cached, make_validate_request}
use proxi.ProxyServer.{
  ProxyServer, Os, ClientRequest, ServerResponse, Place, Owner, OnRequest, OnResponse, OnConnection,
  Action, at_socket, client_of, server_of, socket, connection, validates, first_request, reused,
  handles, transfers, reads_response, reuses, starts_relay, starts_transfer, closes, resolving,
  request_read, response_read, request_sent, response_sent, server_waits, server_transfers,
  client_transfers, relays,
}
use proxi.RawMessage
use proxi.Resolver
use proxi.Text.Numbers.{ℤ, pos, negsuc}
use proxi.Text.{Bytes, codes, equal, to_lower}

abbrev pub blank_request : RequestHeader
blank_request = record { request_line = RequestLine.blank; properties = [] }

abbrev pub blank_response : ResponseHeader
blank_response = record { request_line = ResponseLine.blank; properties = [] }

-- `std::map::insert`
unfoldable pub insert_resolve :
    ℕ × Bytes → OnConnection → List ((ℕ × Bytes) × OnConnection) → List ((ℕ × Bytes) × OnConnection)
insert_resolve k next [] = (k, next) ∷ []
insert_resolve k next ((k', next') ∷ l) =
    if k'.0 == k.0 && equal k'.1 k.1 then (k', next') ∷ l else (k', next') ∷ insert_resolve k next l

-- A response that was made here: a code and a description.
unfoldable pub plain_response : ℕ → Bytes → ServerResponse
plain_response code description =
    BufferedMessage.of_header response_header
      (record { request_line = ResponseLine.of_code (pos code) description; properties = [] }) []

unfoldable pub is_closed : ResponseHeader → Bool
is_closed h =
    has_property h (codes "connection")
    && equal (to_lower (get_property h (codes "connection"))) (codes "close")

unfoldable pub is_code : ℤ → ℕ → Bool
is_code (pos m) n = m == n
is_code (negsuc m) n = false

module _ (os : Os) where
  -- `read` at the two kinds of message
  unfoldable pub read_request :
      Place → ClientRequest → Owner → OnRequest → ProxyServer → Outcome ProxyServer
  read_request from message iterator next s =
      update os from (states (in_state ∷ rdhup_state ∷ []))
        (request_read from (length s.requests) iterator next)
        (record s { requests = s.requests ++ message ∷ [] })

  unfoldable pub read_response :
      Place → ServerResponse → Owner → OnResponse → ProxyServer → Outcome ProxyServer
  read_response from message iterator next s =
      update os from (states (in_state ∷ rdhup_state ∷ []))
        (response_read from (length s.responses) iterator next)
        (record s { responses = s.responses ++ message ∷ [] })

  -- `send` at the two kinds of message
  unfoldable pub send_request :
      Place → ClientRequest → Owner → Action → ProxyServer → Outcome ProxyServer
  send_request to message iterator next s =
      update os to (states (out_state ∷ rdhup_state ∷ []))
        (request_sent to (length s.requests) iterator next)
        (record s { requests = s.requests ++ message ∷ [] })

  unfoldable pub send_response :
      Place → ServerResponse → Owner → Action → ProxyServer → Outcome ProxyServer
  send_response to message iterator next s =
      update os to (states (out_state ∷ rdhup_state ∷ []))
        (response_sent to (length s.responses) iterator next)
        (record s { responses = s.responses ++ message ∷ [] })

  unfoldable pub send_and_read :
      Place → ClientRequest → Owner → OnResponse → ProxyServer → Outcome ProxyServer
  send_and_read to rqst iterator next s =
      send_request to rqst iterator (reads_response to iterator next) s

  unfoldable pub send_404 : ℕ → ProxyServer → Outcome ProxyServer
  send_404 client s =
      send_response (at_socket client) (plain_response 404 (codes "Not Found")) (socket client)
        (closes client) s

  unfoldable pub connect_to_server : ℕ → Bytes → OnConnection → ProxyServer → Outcome ProxyServer
  connect_to_server sock host next s = do
    e ← socket_at sock s
    s' ←
        update os (at_socket sock) (states (rdhup_state ∷ [])) (resolving sock host)
          (record s { on_resolve = insert_resolve (e.fd, host) next s.on_resolve })
    ok (record s' {
      resolver = Resolver.resolve_host s'.resolver (record {
        host = host;
        notifier = s'.notifier;
        extra = record { socket = e.fd; host = host };
      });
    })

  -- `fast_transfer`, up to the request being sent
  unfoldable pub fast_transfer : ℕ → ClientRequest → ProxyServer → Outcome ProxyServer
  fast_transfer conn rqst s =
      send_request (server_of conn) rqst (connection conn) (starts_transfer conn rqst) s

  -- the start of a validation
  unfoldable pub validate : ClientRequest → ℕ → ProxyServer → Outcome ProxyServer
  validate rqst conn s = do
    page ← get_cached rqst.header s
    cached ← BufferedMessage.of_cache response_header page
    send_and_read (server_of conn) (make_validate_request rqst.header cached.header)
        (connection conn) (validates conn rqst cached) s

  -- the closure of `handle_client_request`
  unfoldable pub handle_client_request : ClientRequest → ℕ → ProxyServer → Outcome ProxyServer
  handle_client_request rqst conn s = elim (get_type rqst.header.request_line) [
    | get ↦ elim (is_cached rqst.header s) [
      | true ↦ validate rqst conn s
      | false ↦ fast_transfer conn rqst s
    ]
    | post ↦ fast_transfer conn rqst s
    | connect ↦
        send_response (client_of conn) (plain_response 200 (codes "Connection Established"))
          (connection conn) (starts_relay conn) s
    | option ↦ fast_transfer conn rqst s
  ]

  -- The client leaves its connection, which is closed, for a new one to the host of its request.
  unfoldable pub reconnect : ℕ → Bytes → OnConnection → ProxyServer → Outcome ProxyServer
  reconnect conn host next s = do
    (client, s') ← take_client conn s
    s'' ← close os (connection conn) s'
    s''' ← save_elem os client long_socket_timeout s''
    connect_to_server client.fd host next s'''

  unfoldable pub send_server_response :
      ℕ → ClientRequest → ServerResponse → ProxyServer → Outcome ProxyServer
  send_server_response conn rqst resp s = elim (is_closed resp.header) [
    | true ↦ do
      (it, s') ← escape_client os conn s
      s'' ← close os (connection conn) s'
      send_response (at_socket it) resp (socket it) (closes it) s''
    | false ↦ do
      s' ← update_state os (server_of conn) (states (wait_state ∷ [])) s
      send_response (client_of conn) resp (connection conn)
          (reuses conn (get_property rqst.header (codes "host"))) s'
  ]

  -- the closure of `handle_validation_response`; its `set_property` is called on a copy
  unfoldable pub handle_validation_response :
      ℕ → ClientRequest → ServerResponse → ServerResponse → ProxyServer → Outcome ProxyServer
  handle_validation_response conn rqst cached resp s =
      let code = resp.header.request_line.code in
      elim (is_code code 200 || is_code code 304) [
        | true ↦ send_server_response conn rqst cached s
        | false ↦ do
          s' ← delete_cached rqst.header s
          elim (is_closed resp.header) [
            | true ↦ reconnect conn (get_property rqst.header (codes "host")) (transfers rqst) s'
            | false ↦ fast_transfer conn rqst s'
          ]
      ]

  -- the calls of the closures that take a message or a connection
  unfoldable pub call_response : OnResponse → ServerResponse → ProxyServer → Outcome ProxyServer
  call_response (validates conn rqst cached) resp s =
      handle_validation_response conn rqst cached resp s

  unfoldable pub call_request : OnRequest → ClientRequest → ProxyServer → Outcome ProxyServer
  call_request (first_request client) rqst s =
      connect_to_server client (get_property rqst.header (codes "host")) (handles rqst) s
  call_request (reused conn old_host) rqst s =
      let host = get_property rqst.header (codes "host") in
      elim (equal host old_host) [
        | true ↦ handle_client_request rqst conn s
        | false ↦ reconnect conn host (handles rqst) s
      ]

  unfoldable pub call_connection : OnConnection → ℕ → ProxyServer → Outcome ProxyServer
  call_connection (handles rqst) conn s = handle_client_request rqst conn s
  call_connection (transfers rqst) conn s = fast_transfer conn rqst s

  -- the calls of the closures without an argument
  unfoldable pub call : Action → ProxyServer → Outcome ProxyServer
  call (reads_response to iterator next) s =
      read_response to (BufferedMessage.empty blank_response) iterator next s
  call (reuses conn old_host) s = do
    s' ← update os (server_of conn) (states (rdhup_state ∷ [])) (server_waits conn) s
    read_request (client_of conn) (BufferedMessage.empty blank_request) (connection conn)
        (reused conn old_host) s'
  call (starts_relay conn) s = do
    let client_message = length s.raws
    let server_message = client_message + 1
    let message = RawMessage.empty (λ i. os.memory)
    let all = states (rdhup_state ∷ in_state ∷ out_state ∷ [])
    s' ←
        update os (server_of conn) all
          (relays (server_of conn) server_message (client_of conn) client_message conn)
          (record s { raws = s.raws ++ message ∷ message ∷ [] })
    update os (client_of conn) all
        (relays (client_of conn) client_message (server_of conn) server_message conn) s'
  call (starts_transfer conn rqst) s = do
    let resp = length s.responses
    s' ←
        update os (server_of conn) (states (in_state ∷ rdhup_state ∷ []))
          (server_transfers conn rqst resp)
          (record s { responses = s.responses ++ BufferedMessage.empty blank_response ∷ [] })
    update os (client_of conn) (states (wait_state ∷ rdhup_state ∷ [])) (client_transfers conn resp)
        s'
  call (closes client) s = close os (socket client) s
