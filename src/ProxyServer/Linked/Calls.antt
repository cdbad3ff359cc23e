-- ===== src/ProxyServer/Linked/Calls.antt =====
-- What the closures keep that follow a message or a connection.
use proxi.Base.{
  ◌+◌, ◌++◌, ◌≡◌, length, length-append, sym, subst, arith, ℕ, refl, [], ◌∷◌, ◌||◌, Returns,
  Returns-bind, Returns-either, Returns-any,
}
use proxi.FdState.{rdhup_state}
use proxi.HeaderParser.Header.{get_property}
use proxi.ProxyServer.Actions.{
  handle_validation_response, call_response, call_request, call_connection, call, is_closed,
  is_code,
}
use proxi.ProxyServer.Elems.{states, update}
use proxi.ProxyServer.Linked.Acts.{
  weaken, read_request-Linked, read_response-Linked, connect_to_server-settles,
  fast_transfer-Linked, handle_client_request-Linked, reconnect-Linked, send_server_response-Linked,
}
use proxi.ProxyServer.Linked.Ends.{close-Linked}
use proxi.ProxyServer.Linked.Grows.{grow-LinkedBut, add_response, added}
use proxi.ProxyServer.Linked.{Stored, frame}
use proxi.RawMessage
use proxi.ProxyServer.Linked.Updates.{update-Linked-frame, update-Linked}
use proxi.ProxyServer.Linked.{Follows, Linked}
use proxi.HeaderParser.Policy.{to_url}
use proxi.SimpleCache
use proxi.ProxyServer.Pages.{same_url, delete_cached}
use proxi.BufferedMessage
use proxi.ProxyServer.Actions.{blank_response}
use proxi.ProxyServer.{relays, client_transfers}
use proxi.ProxyServer.{
  ProxyServer, Os, ClientRequest, ServerResponse, OnRequest, OnResponse, OnConnection, Action,
  client_of, server_of, socket, validates, first_request, reused, handles, transfers,
  reads_response, reuses, starts_relay, starts_transfer, closes, server_waits,
}
use proxi.Text.{codes, equal}

module _ (os : Os) where
  handle_validation_response-Linked :
      (conn : ℕ) (rqst : ClientRequest) (cached resp : ServerResponse) (s : ProxyServer)
      → Linked s
      → Returns Linked (handle_validation_response os conn rqst cached resp s)
  unfolding handle_validation_response delete_cached
  handle_validation_response-Linked conn rqst cached resp s h =
      let code = resp.header.request_line.code in
      Returns-either Linked (is_code code 200 || is_code code 304) _ _
        (send_server_response-Linked os conn rqst cached s h)
        (Returns-bind Linked _ (delete_cached rqst.header s) _
          (Returns-bind (λ c. Unit {0}) _ (SimpleCache.erase same_url s.cache (to_url rqst.header))
            _ (Returns-any _) (λ c u. h))
          (λ s' h'.
            Returns-either Linked (is_closed resp.header) _ _
              (reconnect-Linked os conn (get_property rqst.header (codes "host")) (transfers rqst)
                s' h')
              (fast_transfer-Linked os conn rqst s' h')))

  pub call_response-Linked :
      (next : OnResponse) (m : ServerResponse) (s : ProxyServer)
      → Linked s
      → Returns Linked (call_response os next m s)
  unfolding call_response
  call_response-Linked (validates conn rqst cached) m s h =
      handle_validation_response-Linked conn rqst cached m s h

  pub call_request-Linked :
      (next : OnRequest) (m : ClientRequest) (s : ProxyServer)
      → Linked s
      → Returns Linked (call_request os next m s)
  unfolding call_request
  call_request-Linked (first_request client) m s h =
      connect_to_server-settles os client _ _ s (weaken client s h)
  call_request-Linked (reused conn old_host) m s h =
      let host = get_property m.header (codes "host") in
      Returns-either Linked (equal host old_host) _ _ (handle_client_request-Linked os m conn s h)
        (reconnect-Linked os conn host (handles m) s h)

  pub call_connection-Linked :
      (next : OnConnection) (conn : ℕ) (s : ProxyServer)
      → Linked s
      → Returns Linked (call_connection os next conn s)
  unfolding call_connection
  call_connection-Linked (handles m) conn s h = handle_client_request-Linked os m conn s h
  call_connection-Linked (transfers m) conn s h = fast_transfer-Linked os conn m s h

  pub call-Linked :
      (next : Action) (s : ProxyServer) → Follows next → Linked s → Returns Linked (call os next s)
  unfolding call
  call-Linked (reads_response to it next) s f h = read_response-Linked os to _ it next s f h
  call-Linked (reuses conn old_host) s f h =
      Returns-bind Linked _
        (update os (server_of conn) (states (rdhup_state ∷ [])) (server_waits conn) s) _
        (update-Linked os (server_of conn) _ _ s h (λ r. refl) tt tt)
        (λ s' h'. read_request-Linked os (client_of conn) _ _ _ s' refl h')
  call-Linked (starts_relay conn) s f h =
      let m = RawMessage.empty (λ i. os.memory) in
      let n = length s.raws in
      let s1 = record s { raws = s.raws ++ m ∷ m ∷ [] } in
      let more = length-append s.raws (m ∷ m ∷ []) in
      let h1 =
        grow-LinkedBut [] s s.requests s.responses (s.raws ++ m ∷ m ∷ []) (omega arith)
          (omega arith) (omega (arith, more)) h in
      Returns-bind (λ s'. Linked s' × (frame s' ≡ frame s1)) _ (update os (server_of conn) _ _ s1) _
        (update-Linked-frame os (server_of conn) _ _ s1 h1 (λ r. refl) (refl, refl)
          (omega (arith, more), omega (arith, more)))
        (λ s' (h', same).
          update-Linked os (client_of conn) _ _ s' h' (λ r. refl) (refl, refl)
            (subst (λ r. Stored r (relays (client_of conn) n (server_of conn) (n + 1) conn))
              (sym same) (omega (arith, more), omega (arith, more))))
  call-Linked (starts_transfer conn rqst) s f h =
      let m = BufferedMessage.empty blank_response in
      let n = length s.responses in
      let s1 = record s { responses = s.responses ++ m ∷ [] } in
      Returns-bind (λ s'. Linked s' × (frame s' ≡ frame s1)) _ (update os (server_of conn) _ _ s1) _
        (update-Linked-frame os (server_of conn) _ _ s1 (add_response [] s h m) (λ r. refl) tt
          (added s.responses m))
        (λ s' (h', same).
          update-Linked os (client_of conn) _ _ s' h' (λ r. refl) tt
            (subst (λ r. Stored r (client_transfers conn n)) (sym same) (added s.responses m)))
  call-Linked (closes client) s f h = close-Linked os (socket client) s h
