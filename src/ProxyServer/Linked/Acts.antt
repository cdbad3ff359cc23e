-- ===== src/ProxyServer/Linked/Acts.antt =====
-- What the functions of `Actions` keep: after each of them every handler finds its element.
use proxi.Base.{ℕ, refl, [], ◌∷◌, Outcome, Returns, Returns-bind, Returns-either, Returns-any}
use proxi.BufferedMessage
use proxi.BufferedMessage.Headers.{response_header}
use proxi.EpollQueue.{long_socket_timeout}
use proxi.FdState.{wait_state, rdhup_state}
use proxi.HeaderParser.RequestLine.{RequestType, get_type, get, post, connect, option}
use proxi.ProxyServer.Actions.{
  read_request, read_response, send_request, send_response, send_and_read, send_404,
  connect_to_server, fast_transfer, validate, handle_client_request, reconnect,
  send_server_response, insert_resolve, is_closed,
}
use proxi.ProxyServer.Elems.{
  states, socket_at, update, update_state, close, take_client, save_elem, escape_client,
}
use proxi.ProxyServer.Linked.Grows.{add_request, add_response, added}
use proxi.ProxyServer.Linked.Ends.{
  close-LinkedBut, Loose, take_client-Loose, save_elem-LinkedBut, escape_client-LinkedBut,
}
use proxi.ProxyServer.Linked.Updates.{update_state-LinkedBut, update-Linked, update-settles}
use proxi.ProxyServer.Linked.Shapes.{Less}
use proxi.ProxyServer.Linked.{Owned, Follows, Linked, LinkedBut, Nowhere}
use proxi.ProxyServer.Pages.{is_cached, get_cached}
use proxi.ProxyServer.{
  ProxyServer, Os, ClientRequest, ServerResponse, Place, Owner, OnRequest, OnResponse, OnConnection,
  Action, at_socket, server_of, socket, connection, closes, resolving,
}
use proxi.Text.{Bytes}

pub weaken : (k : ℕ) (s : ProxyServer) → Linked s → LinkedBut (k ∷ []) s
weaken k s (shape, handled) = (shape, λ fd h n out. handled fd h n tt)

module _ (os : Os) where
  pub read_request-Linked :
      (from : Place) (m : ClientRequest) (it : Owner) (next : OnRequest) (s : ProxyServer)
      → Owned it from
      → Linked s
      → Returns Linked (read_request os from m it next s)
  unfolding read_request
  read_request-Linked from m it next s own h =
      update-Linked os from _ _ _ (add_request [] s h m) (λ r. refl) own (added s.requests m)

  pub read_response-Linked :
      (from : Place) (m : ServerResponse) (it : Owner) (next : OnResponse) (s : ProxyServer)
      → Owned it from
      → Linked s
      → Returns Linked (read_response os from m it next s)
  unfolding read_response
  read_response-Linked from m it next s own h =
      update-Linked os from _ _ _ (add_response [] s h m) (λ r. refl) own (added s.responses m)

  pub send_request-Linked :
      (to : Place) (m : ClientRequest) (it : Owner) (next : Action) (s : ProxyServer)
      → Owned it to
      → Follows next
      → Linked s
      → Returns Linked (send_request os to m it next s)
  unfolding send_request
  send_request-Linked to m it next s own f h =
      update-Linked os to _ _ _ (add_request [] s h m) (λ r. refl) (own, f) (added s.requests m)

  pub send_response-Linked :
      (to : Place) (m : ServerResponse) (it : Owner) (next : Action) (s : ProxyServer)
      → Owned it to
      → Follows next
      → Linked s
      → Returns Linked (send_response os to m it next s)
  unfolding send_response
  send_response-Linked to m it next s own f h =
      update-Linked os to _ _ _ (add_response [] s h m) (λ r. refl) (own, f) (added s.responses m)

  -- The last message to a client that may have left its connection.
  pub send_response-settles :
      (k : ℕ) (m : ServerResponse) (s : ProxyServer)
      → LinkedBut (k ∷ []) s
      → Returns Linked (send_response os (at_socket k) m (socket k) (closes k) s)
  unfolding send_response
  send_response-settles k m s h =
      update-settles os k _ _ _ (add_response (k ∷ []) s h m) (λ r. refl) (refl, tt)
        (added s.responses m)

  pub send_404-settles :
      (k : ℕ) (s : ProxyServer) → LinkedBut (k ∷ []) s → Returns Linked (send_404 os k s)
  unfolding send_404
  send_404-settles k s h = send_response-settles k _ s h

  pub connect_to_server-settles :
      (sock : ℕ) (host : Bytes) (next : OnConnection) (s : ProxyServer)
      → LinkedBut (sock ∷ []) s
      → Returns Linked (connect_to_server os sock host next s)
  unfolding connect_to_server
  connect_to_server-settles sock host next s h =
      Returns-bind (λ e. Unit {0}) _ (socket_at sock s) _ (Returns-any _)
        (λ e u.
          Returns-bind Linked _
            (update os (at_socket sock) (states (rdhup_state ∷ [])) (resolving sock host)
              (record s { on_resolve = insert_resolve (e.fd, host) next s.on_resolve }))
            _ (update-settles os sock _ _ _ h (λ r. refl) tt tt) (λ s' h'. h'))

  pub fast_transfer-Linked :
      (conn : ℕ) (rqst : ClientRequest) (s : ProxyServer)
      → Linked s
      → Returns Linked (fast_transfer os conn rqst s)
  unfolding fast_transfer
  fast_transfer-Linked conn rqst s h = send_request-Linked _ _ _ _ s refl tt h

  validate-Linked :
      (rqst : ClientRequest) (conn : ℕ) (s : ProxyServer)
      → Linked s
      → Returns Linked (validate os rqst conn s)
  unfolding validate send_and_read
  validate-Linked rqst conn s h =
      Returns-bind (λ page. Unit {0}) _ (get_cached rqst.header s) _ (Returns-any _)
        (λ page u.
          Returns-bind (λ m. Unit {0}) _ (BufferedMessage.of_cache response_header page) _
            (Returns-any _) (λ cached v. send_request-Linked _ _ _ _ s refl refl h))

  by_type :
      (t : RequestType) (a b c d : Outcome ProxyServer)
      → Returns Linked a
      → Returns Linked b
      → Returns Linked c
      → Returns Linked d
      → Returns Linked (elim t [ get ↦ a | post ↦ b | connect ↦ c | option ↦ d ])
  by_type get a b c d p q r s = p
  by_type post a b c d p q r s = q
  by_type connect a b c d p q r s = r
  by_type option a b c d p q r s = s

  pub handle_client_request-Linked :
      (rqst : ClientRequest) (conn : ℕ) (s : ProxyServer)
      → Linked s
      → Returns Linked (handle_client_request os rqst conn s)
  unfolding handle_client_request
  handle_client_request-Linked rqst conn s h =
      by_type (get_type rqst.header.request_line) _ _ _ _
        (Returns-either Linked (is_cached rqst.header s) _ _ (validate-Linked rqst conn s h)
          (fast_transfer-Linked conn rqst s h))
        (fast_transfer-Linked conn rqst s h) (send_response-Linked _ _ _ _ s refl tt h)
        (fast_transfer-Linked conn rqst s h)

  pub reconnect-Linked :
      (conn : ℕ) (host : Bytes) (next : OnConnection) (s : ProxyServer)
      → Linked s
      → Returns Linked (reconnect os conn host next s)
  unfolding reconnect
  reconnect-Linked conn host next s h =
      Returns-bind Loose _ (take_client conn s) _ (take_client-Loose conn s h) (λ r loose.
        Returns-bind (λ s''. LinkedBut (r.0.fd ∷ []) s'' × Less r.1.queue s''.queue) _
          (close os (connection conn) r.1) _
          (close-LinkedBut os (r.0.fd ∷ []) (connection conn) r.1 loose.0)
          (λ s'' (linked, less).
            let nowhere : Nowhere r.0.fd s''.queue =
              λ n p at. loose.1 n p (less.back p r.0.fd n at) in
            Returns-bind (LinkedBut (r.0.fd ∷ [])) _ (save_elem os r.0 long_socket_timeout s'') _
              (save_elem-LinkedBut os r.0 long_socket_timeout s'' (linked, nowhere))
              (λ s3 linked3. connect_to_server-settles r.0.fd host next s3 linked3)))

  pub send_server_response-Linked :
      (conn : ℕ) (rqst : ClientRequest) (resp : ServerResponse) (s : ProxyServer)
      → Linked s
      → Returns Linked (send_server_response os conn rqst resp s)
  unfolding send_server_response
  send_server_response-Linked conn rqst resp s h =
      Returns-either Linked (is_closed resp.header) _ _
        (Returns-bind (λ (r : ℕ × ProxyServer). LinkedBut (r.0 ∷ []) r.1) _
          (escape_client os conn s) _ (escape_client-LinkedBut os conn s h)
          (λ r linked.
            Returns-bind (λ s''. LinkedBut (r.0 ∷ []) s'' × Less r.1.queue s''.queue) _
              (close os (connection conn) r.1) _
              (close-LinkedBut os (r.0 ∷ []) (connection conn) r.1 linked)
              (λ s'' (linked', less). send_response-settles r.0 resp s'' linked')))
        (Returns-bind Linked _ (update_state os (server_of conn) (states (wait_state ∷ [])) s) _
          (update_state-LinkedBut os [] (server_of conn) (states (wait_state ∷ [])) s h)
          (λ s' h'. send_response-Linked _ _ _ _ s' refl tt h'))
