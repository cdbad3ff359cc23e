-- ===== src/ProxyServer/Kept.antt =====
-- What no handler does to the cache but by its own operations: a predicate of the cache that
-- `insert` and `erase` keep is kept by every call.
pub mod Calls
pub mod Waiting
pub mod Events
use proxi.Base.{
  ℕ, List, [], ◌∷◌, Option, none, some, Bool, true, false, Outcome, ok, fault, ◌>>=◌, Returns,
  Returns-bind, Returns-any, Returns-either, arith, if◌then◌else◌,
}
use proxi.BufferedMessage
use proxi.EpollCore.{Operation}
use proxi.EpollQueue.{EpollElem}
use proxi.FdState
use proxi.FdState.{in_state, out_state, rdhup_state}
use proxi.ProxyServer.Connecting.{has_event}
use proxi.ProxyServer.Actions.{
  read_request, read_response, send_request, send_response, send_and_read, send_404,
  connect_to_server, fast_transfer, validate, handle_client_request, reconnect,
  send_server_response, handle_validation_response, call_response, call_request, call_connection,
  call,
}
use proxi.ProxyServer.Elems.{
  socket_at, connection_at, elem_at, put_elem, control, update_state, update_handler, update,
  destroy, close, save_elem, take_client, escape_client, set_active,
}
use proxi.ProxyServer.Transfers.{check_error, is_gone, run_read, run_send}
use proxi.ProxyServer.Pages.{same_url, save_cached, delete_cached}
use proxi.ProxyServer.{
  ProxyServer, Os, Place, Owner, Handler, max_cache_size, at_socket, client_of, server_of, socket,
  connection, ClientRequest, ServerResponse, OnRequest, OnResponse, OnConnection, Action,
  first_request, reused, validates, handles, transfers, reads_response, reuses, starts_relay,
  starts_transfer, closes,
}
use proxi.RawMessage.{RawMessage}
use proxi.SimpleCache
use proxi.SimpleCache.{SimpleCache}
use proxi.Text.{Bytes}
use proxi.HeaderParser.Messages.{RequestHeader}

module _ (Q : SimpleCache Bytes (List Bytes) → List RawMessage → Type 0) where
  abbrev pub Kept : Outcome ProxyServer → Type 0
  Kept = Returns (λ (s : ProxyServer). Q s.cache s.raws)

  pub put_elem-Kept :
      (p : Place) (e : EpollElem) (s : ProxyServer) → Q s.cache s.raws → Kept (put_elem p e s)
  unfolding put_elem
  put_elem-Kept (at_socket fd) e s q = ground arith
  put_elem-Kept (client_of id) e s q = ground arith
  put_elem-Kept (server_of id) e s q = ground arith

  module _ (os : Os) where
    pub control-Kept :
        (op : Operation) (fd events : ℕ) (s : ProxyServer)
        → Q s.cache s.raws
        → Kept (control os op fd events s)
    unfolding control
    control-Kept op fd events s q = ground arith

    pub update_state-Kept :
        (p : Place) (state : ℕ) (s : ProxyServer)
        → Q s.cache s.raws
        → Kept (update_state os p state s)
    unfolding update_state
    update_state-Kept p state s q = grind (arith, put_elem-Kept, control-Kept)

    pub update_handler-Kept :
        (p : Place) (h : Handler) (s : ProxyServer) → Q s.cache s.raws → Kept (update_handler p h s)
    unfolding update_handler
    update_handler-Kept p h s q = ground arith

    pub update-Kept :
        (p : Place) (state : ℕ) (h : Handler) (s : ProxyServer)
        → Q s.cache s.raws
        → Kept (update os p state h s)
    unfolding update
    update-Kept p state h s q = grind (arith, update_state-Kept, update_handler-Kept)

    pub destroy-Kept : (e : EpollElem) (s : ProxyServer) → Q s.cache s.raws → Kept (destroy os e s)
    unfolding destroy
    destroy-Kept e s q = ground arith

    pub close-Kept : (it : Owner) (s : ProxyServer) → Q s.cache s.raws → Kept (close os it s)
    unfolding close
    close-Kept (socket fd) s q = grind (arith, destroy-Kept)
    close-Kept (connection id) s q = grind (arith, destroy-Kept)

    pub save_elem-Kept :
        (e : EpollElem) (t : ℕ) (s : ProxyServer) → Q s.cache s.raws → Kept (save_elem os e t s)
    unfolding save_elem
    save_elem-Kept e t s q = grind (arith, destroy-Kept)

    pub take_client-Kept :
        (id : ℕ) (s : ProxyServer)
        → Q s.cache s.raws
        → Returns (λ (r : EpollElem × ProxyServer). Q r.1.cache r.1.raws) (take_client id s)
    unfolding take_client
    take_client-Kept id s q = grind (arith, put_elem-Kept)

    pub escape_client-Kept :
        (id : ℕ) (s : ProxyServer)
        → Q s.cache s.raws
        → Returns (λ (r : ℕ × ProxyServer). Q r.1.cache r.1.raws) (escape_client os id s)
    unfolding escape_client
    escape_client-Kept id s q = grind (arith, take_client-Kept, save_elem-Kept)

    pub set_active-Kept : (it : Owner) (s : ProxyServer) → Q s.cache s.raws → Kept (set_active it s)
    unfolding set_active
    set_active-Kept (socket fd) s q = ground arith
    set_active-Kept (connection id) s q = ground arith

    pub send_request-Kept :
        (to : Place) (m : ClientRequest) (it : Owner) (next : Action) (s : ProxyServer)
        → Q s.cache s.raws
        → Kept (send_request os to m it next s)
    unfolding send_request
    send_request-Kept to m it next s q = update-Kept _ _ _ _ q

    pub send_response-Kept :
        (to : Place) (m : ServerResponse) (it : Owner) (next : Action) (s : ProxyServer)
        → Q s.cache s.raws
        → Kept (send_response os to m it next s)
    unfolding send_response
    send_response-Kept to m it next s q = update-Kept _ _ _ _ q

    pub read_request-Kept :
        (to : Place) (m : ClientRequest) (it : Owner) (next : OnRequest) (s : ProxyServer)
        → Q s.cache s.raws
        → Kept (read_request os to m it next s)
    unfolding read_request
    read_request-Kept to m it next s q = update-Kept _ _ _ _ q

    pub read_response-Kept :
        (to : Place) (m : ServerResponse) (it : Owner) (next : OnResponse) (s : ProxyServer)
        → Q s.cache s.raws
        → Kept (read_response os to m it next s)
    unfolding read_response
    read_response-Kept to m it next s q = update-Kept _ _ _ _ q

    pub connect_to_server-Kept :
        (sock : ℕ) (host : Bytes) (next : OnConnection) (s : ProxyServer)
        → Q s.cache s.raws
        → Kept (connect_to_server os sock host next s)
    unfolding connect_to_server
    connect_to_server-Kept sock host next s q = grind (arith, update-Kept)

    pub fast_transfer-Kept :
        (conn : ℕ) (rqst : ClientRequest) (s : ProxyServer)
        → Q s.cache s.raws
        → Kept (fast_transfer os conn rqst s)
    unfolding fast_transfer
    fast_transfer-Kept conn rqst s q = send_request-Kept _ _ _ _ _ q

    validate-Kept :
        (rqst : ClientRequest) (conn : ℕ) (s : ProxyServer)
        → Q s.cache s.raws
        → Kept (validate os rqst conn s)
    unfolding validate send_and_read
    validate-Kept rqst conn s q = grind (arith, send_request-Kept)

    pub handle_client_request-Kept :
        (rqst : ClientRequest) (conn : ℕ) (s : ProxyServer)
        → Q s.cache s.raws
        → Kept (handle_client_request os rqst conn s)
    unfolding handle_client_request
    handle_client_request-Kept rqst conn s q =
        grind (arith, validate-Kept, send_response-Kept, fast_transfer-Kept)

    pub reconnect-Kept :
        (conn : ℕ) (host : Bytes) (next : OnConnection) (s : ProxyServer)
        → Q s.cache s.raws
        → Kept (reconnect os conn host next s)
    unfolding reconnect
    reconnect-Kept conn host next s q =
        grind (arith, take_client-Kept, close-Kept, save_elem-Kept, connect_to_server-Kept)

    pub send_server_response-Kept :
        (conn : ℕ) (rqst : ClientRequest) (resp : ServerResponse) (s : ProxyServer)
        → Q s.cache s.raws
        → Kept (send_server_response os conn rqst resp s)
    unfolding send_server_response
    send_server_response-Kept conn rqst resp s q =
        grind (arith, escape_client-Kept, close-Kept, send_response-Kept, update_state-Kept)

    pub check_error-Kept :
        (state fd : ℕ) (it : Owner) (s : ProxyServer)
        → Q s.cache s.raws
        → Kept (check_error os state fd it s)
    unfolding check_error
    check_error-Kept state fd it s q = grind (arith, close-Kept)

    goes_on-Kept :
        (o : Outcome ProxyServer) (b : Bool) (take : ProxyServer → Outcome ProxyServer)
        → Kept o
        → ((s' : ProxyServer) → Q s'.cache s'.raws → Kept (take s'))
        → Kept (o >>= λ s'. elim b [ true ↦ take s' | false ↦ ok s' ])
    goes_on-Kept (ok s) true take q h = h s q
    goes_on-Kept (ok s) false take q h = q
    goes_on-Kept (fault x) b take q h = tt

    pub run_read-Kept :
        (from : Place) (it : Owner) (take : ProxyServer → Outcome ProxyServer) (state : ℕ)
        (s : ProxyServer)
        → ((s' : ProxyServer) → Q s'.cache s'.raws → Kept (take s'))
        → Q s.cache s.raws
        → Kept (run_read os from it take state s)
    unfolding run_read
    run_read-Kept from it take state s h q =
        Returns-bind (λ e. Unit {0}) _ (elem_at from s) _ (Returns-any (elem_at from s))
          λ e any.
            Returns-bind (λ (s1 : ProxyServer). Q s1.cache s1.raws) _ (set_active it s) _
              (set_active-Kept it s q)
              λ s1 q1.
                Returns-bind (λ g. Unit {0}) _ (is_gone os state e.fd) _
                  (Returns-any (is_gone os state e.fd))
                  λ gone any'. Returns-either _ gone _ _ (close-Kept it s1 q1) (
                    goes_on-Kept _ (has_event state (in_state ∷ [])) take
                      (check_error-Kept state e.fd it s1 q1) h)

    pub run_send-Kept :
        (to : Place) (it : Owner) (give : ProxyServer → Outcome ProxyServer) (state : ℕ)
        (s : ProxyServer)
        → ((s' : ProxyServer) → Q s'.cache s'.raws → Kept (give s'))
        → Q s.cache s.raws
        → Kept (run_send os to it give state s)
    unfolding run_send
    run_send-Kept to it give state s h q =
        Returns-bind (λ e. Unit {0}) _ (elem_at to s) _ (Returns-any (elem_at to s))
          λ e any.
            Returns-bind (λ (s1 : ProxyServer). Q s1.cache s1.raws) _ (set_active it s) _
              (set_active-Kept it s q)
              λ s1 q1.
                Returns-either _ (has_event state (rdhup_state ∷ [])) _ _ (close-Kept it s1 q1) (
                  goes_on-Kept _ (has_event state (out_state ∷ [])) give
                    (check_error-Kept state e.fd it s1 q1) h)
