-- ===== src/ProxyServer/Transfers.antt =====
-- The handlers of proxy/proxy_server.cpp that move messages: those of `read`, `send`,
-- `fast_transfer`, `reuse_connection` and `make_connect_transfer_handler`. A place that was closed
-- before it is used again is `fault undefined`.
use proxi.Base.{
  ℕ, zero, suc, List, [], ◌∷◌, none, some, Bool, true, false, Outcome, ok, fault, annotated,
  undefined, ◌>>=◌, ◌==◌, get_elem?,
}
use proxi.BufferedMessage
use proxi.BufferedMessage.Headers.{request_header, response_header}
use proxi.BufferedMessage.{BufferedMessage, is_read, is_written, can_write}
use proxi.FileDescriptor
use proxi.FdState
use proxi.FdState.{in_state, out_state, wait_state, error_state, hup_state, rdhup_state}
use proxi.HeaderParser.Policy.{should_cache, to_url}
use proxi.ProxyServer.Actions.{call_request, call_response, call, send_server_response}
use proxi.ProxyServer.Connecting.{has_event}
use proxi.ProxyServer.Elems.{states, elem_at, update_state, close, set_active}
use proxi.ProxyServer.Pages.{save_cached}
use proxi.ProxyServer.{
  ProxyServer, Os, ClientRequest, Place, Owner, OnRequest, OnResponse, Action, client_of, server_of,
  connection,
}
use proxi.RawMessage
use proxi.RawMessage.{RawMessage}

-- the message behind a `shared_ptr`, and an assignment to it
unfoldable pub message_at : {A : Type 0} → ℕ → List A → Outcome A
message_at i l = elim (get_elem? l i) [ none ↦ fault undefined | some m ↦ ok m ]

unfoldable pub put_message : {A : Type 0} → ℕ → A → List A → List A
put_message i m [] = []
put_message zero m (a ∷ l) = m ∷ l
put_message (suc i) m (a ∷ l) = a ∷ put_message i m l

-- How a call that may throw an `annotated_exception` ends, inside a `try`.
abbrev pub catching {ℓ} : {A B : Type ℓ} → Outcome A → Outcome B → (A → Outcome B) → Outcome B
catching (ok a) caught next = next a
catching (fault annotated) caught next = caught
catching (fault x) caught next = fault x

module _ (os : Os) where
  -- The tests that a reading handler begins with: the peer is gone if it shut down and no bytes
  -- are left.
  unfoldable pub is_gone : ℕ → ℕ → Outcome Bool
  is_gone state fd = elim (has_event state (rdhup_state ∷ [])) [
    | false ↦ ok false
    | true ↦ FileDescriptor.can_read (os.available fd) >>= λ n. ok (n == 0)
  ]

  -- An error of the socket closes what the iterator stands for, and the handler goes on.
  unfoldable pub check_error : ℕ → ℕ → Owner → ProxyServer → Outcome ProxyServer
  check_error state fd iterator s = elim (has_event state (hup_state ∷ error_state ∷ [])) [
    | false ↦ ok s
    | true ↦ elim (os.socket_error fd) [ none ↦ fault annotated | some code ↦ close os iterator s ]
  ]

  -- What the handler of `read` does with bytes that are there, at the two kinds of message.
  unfoldable pub take_request : Place → ℕ → Owner → OnRequest → ProxyServer → Outcome ProxyServer
  take_request from i iterator next s = do
    e ← elem_at from s
    m ← message_at i s.requests
    catching (BufferedMessage.read_from request_header (os.read e.fd) m) (close os iterator s) λ m'.
        let s' = record s { requests = put_message i m' s.requests } in
        elim (is_read m') [
          | false ↦ ok s'
          | true ↦ update_state os from (states (wait_state ∷ [])) s' >>= λ s''.
              call_request os next m' s''
        ]

  unfoldable pub take_response : Place → ℕ → Owner → OnResponse → ProxyServer → Outcome ProxyServer
  take_response from i iterator next s = do
    e ← elem_at from s
    m ← message_at i s.responses
    catching (BufferedMessage.read_from response_header (os.read e.fd) m) (close os iterator s)
        λ m'.
          let s' = record s { responses = put_message i m' s.responses } in
          elim (is_read m') [
            | false ↦ ok s'
            | true ↦ update_state os from (states (wait_state ∷ [])) s' >>= λ s''.
                call_response os next m' s''
          ]

  -- The handler of `read`, around what it does with bytes.
  unfoldable pub run_read :
      Place → Owner → (ProxyServer → Outcome ProxyServer) → ℕ → ProxyServer → Outcome ProxyServer
  run_read from iterator take state s = do
    e ← elem_at from s
    s1 ← set_active iterator s
    gone ← is_gone state e.fd
    elim gone [
      | true ↦ close os iterator s1
      | false ↦ do
        s2 ← check_error state e.fd iterator s1
        elim (has_event state (in_state ∷ [])) [ true ↦ take s2 | false ↦ ok s2 ]
    ]

  -- What the handler of `send` does when the socket can be written.
  unfoldable pub give_request : Place → ℕ → Owner → Action → ProxyServer → Outcome ProxyServer
  give_request to i iterator next s = do
    e ← elem_at to s
    m ← message_at i s.requests
    catching (BufferedMessage.write_to (os.write e.fd) m) (close os iterator s) λ m'.
        let s' = record s { requests = put_message i m' s.requests } in
        elim (is_written m') [
          | false ↦ ok s'
          | true ↦ update_state os to (states (wait_state ∷ [])) s' >>= λ s''. call os next s''
        ]

  unfoldable pub give_response : Place → ℕ → Owner → Action → ProxyServer → Outcome ProxyServer
  give_response to i iterator next s = do
    e ← elem_at to s
    m ← message_at i s.responses
    catching (BufferedMessage.write_to (os.write e.fd) m) (close os iterator s) λ m'.
        let s' = record s { responses = put_message i m' s.responses } in
        elim (is_written m') [
          | false ↦ ok s'
          | true ↦ update_state os to (states (wait_state ∷ [])) s' >>= λ s''. call os next s''
        ]

  -- The handler of `send`, and the one of `fast_transfer` for the client, around what they do.
  unfoldable pub run_send :
      Place → Owner → (ProxyServer → Outcome ProxyServer) → ℕ → ProxyServer → Outcome ProxyServer
  run_send to iterator give state s = do
    e ← elem_at to s
    s1 ← set_active iterator s
    elim (has_event state (rdhup_state ∷ [])) [
      | true ↦ close os iterator s1
      | false ↦ do
        s2 ← check_error state e.fd iterator s1
        elim (has_event state (out_state ∷ [])) [ true ↦ give s2 | false ↦ ok s2 ]
    ]

  -- `reuse_connection`: the server's handler
  unfoldable pub run_server_waits : ℕ → ℕ → ProxyServer → Outcome ProxyServer
  run_server_waits conn state s = elim (has_event state (rdhup_state ∷ [])) [
    | false ↦ ok s
    | true ↦ close os (connection conn) s
  ]

  -- `fast_transfer`: a response that was read whole is cached and sent on
  unfoldable pub finish_transfer : ℕ → ClientRequest → ℕ → ProxyServer → Outcome ProxyServer
  finish_transfer conn rqst i s = do
    m ← message_at i s.responses
    s' ← elim (should_cache m.header) [
      | false ↦ ok s
      | true ↦ save_cached (to_url rqst.header) m.cache s
    ]
    send_server_response os conn rqst m s'

  -- what the server's handler does with bytes
  unfoldable pub transfer_in : ℕ → ClientRequest → ℕ → ProxyServer → Outcome ProxyServer
  transfer_in conn rqst i s = do
    e ← elem_at (server_of conn) s
    m ← message_at i s.responses
    catching (BufferedMessage.read_from response_header (os.read e.fd) m)
        (close os (connection conn) s)
        λ m'. do
          let s' = record s { responses = put_message i m' s.responses }
          s'' ← elim (can_write m') [
            | false ↦ ok s'
            | true ↦ update_state os (client_of conn) (states (out_state ∷ rdhup_state ∷ [])) s'
          ]
          elim (is_read m') [ false ↦ ok s'' | true ↦ finish_transfer conn rqst i s'' ]

  -- what the client's handler does
  unfoldable pub transfer_out : ℕ → ℕ → ProxyServer → Outcome ProxyServer
  transfer_out conn i s = do
    m ← message_at i s.responses
    elim (can_write m) [
      | false ↦ ok s
      | true ↦ do
        e ← elem_at (client_of conn) s
        catching (BufferedMessage.write_to (os.write e.fd) m) (close os (connection conn) s) λ m'.
            let s' = record s { responses = put_message i m' s.responses } in
            elim (can_write m') [
              | true ↦ ok s'
              | false ↦
                  update_state os (client_of conn) (FdState.xor e.events (states (out_state ∷ [])))
                    s'
            ]
    ]

  -- `make_connect_transfer_handler`: what it does after reading, and after writing
  unfoldable pub after_read : Place → Place → RawMessage → ProxyServer → Outcome ProxyServer
  after_read in_place out m s = do
    s' ← elim (RawMessage.can_read m) [
      | true ↦ ok s
      | false ↦ elem_at in_place s >>= λ e.
          update_state os in_place (FdState.xor e.events (states (in_state ∷ []))) s
    ]
    elim (RawMessage.can_write m) [
      | false ↦ ok s'
      | true ↦ elem_at out s' >>= λ e.
          update_state os out (FdState.or e.events (states (out_state ∷ []))) s'
    ]

  unfoldable pub after_write : Place → Place → RawMessage → ProxyServer → Outcome ProxyServer
  after_write in_place out m s = do
    s' ← elim (RawMessage.can_write m) [
      | true ↦ ok s
      | false ↦ elem_at in_place s >>= λ e.
          update_state os in_place (FdState.xor e.events (states (out_state ∷ []))) s
    ]
    elim (RawMessage.can_read m) [
      | false ↦ ok s'
      | true ↦ elem_at out s' >>= λ e.
          update_state os out (FdState.or e.events (states (in_state ∷ []))) s'
    ]

  -- Its two halves: an exception closes the connection, and the handler goes on.
  unfoldable pub relay_in : Place → ℕ → Place → ℕ → ProxyServer → Outcome ProxyServer
  relay_in in_place i out conn s = do
    m ← message_at i s.raws
    elim (RawMessage.can_read m) [
      | false ↦ ok s
      | true ↦ do
        e ← elem_at in_place s
        catching (RawMessage.read_from (os.read e.fd) m)
            (close os (connection conn) s >>= λ s'. after_read in_place out m s')
            λ m'. after_read in_place out m' (record s { raws = put_message i m' s.raws })
    ]

  unfoldable pub relay_out : Place → ℕ → Place → ℕ → ProxyServer → Outcome ProxyServer
  relay_out in_place j out conn s = do
    m ← message_at j s.raws
    elim (RawMessage.can_write m) [
      | false ↦ ok s
      | true ↦ do
        e ← elem_at in_place s
        catching (RawMessage.write_to (os.write e.fd) m)
            (close os (connection conn) s >>= λ s'. after_write in_place out m s')
            λ m'. after_write in_place out m' (record s { raws = put_message j m' s.raws })
    ]

  unfoldable pub run_relays : Place → ℕ → Place → ℕ → ℕ → ℕ → ProxyServer → Outcome ProxyServer
  run_relays in_place i out j conn state s = do
    s1 ← set_active (connection conn) s
    elim (has_event state (rdhup_state ∷ [])) [
      | true ↦ close os (connection conn) s1
      | false ↦ do
        s2 ← elim (has_event state (in_state ∷ [])) [
          | true ↦ relay_in in_place i out conn s1
          | false ↦ ok s1
        ]
        elim (has_event state (out_state ∷ [])) [
          | true ↦ relay_out in_place j out conn s2
          | false ↦ ok s2
        ]
    ]
