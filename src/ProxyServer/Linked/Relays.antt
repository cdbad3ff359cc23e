-- ===== src/ProxyServer/Linked/Relays.antt =====
-- What the handlers keep that copy from one socket of a connection to the other.
use proxi.Base.{ℕ, [], ◌∷◌, true, false, ok, ◌>>=◌, Returns, Returns-bind, Returns-either}
use proxi.BufferedMessage
use proxi.BufferedMessage.Headers.{response_header}
use proxi.BufferedMessage.{is_read, is_written, can_write}
use proxi.FdState
use proxi.FdState.{in_state, out_state, wait_state, error_state, hup_state, rdhup_state}
use proxi.HeaderParser.Policy.{should_cache, to_url}
use proxi.ProxyServer.Connecting.{has_event}
use proxi.ProxyServer.Elems.{states, elem_at, update_state, close, set_active}
use proxi.ProxyServer.Linked.Acts.{send_server_response-Linked}
use proxi.ProxyServer.Linked.Events.{catching-Returns, after_any}
use proxi.ProxyServer.Linked.Ends.{close-Linked}
use proxi.ProxyServer.Linked.Grows.{put_response, put_raw}
use proxi.ProxyServer.Linked.Moves.{set_active-LinkedBut}
use proxi.ProxyServer.Linked.Updates.{update_state-LinkedBut}
use proxi.ProxyServer.Linked.{Linked}
use proxi.ProxyServer.Pages.{same_url, save_cached}
use proxi.ProxyServer.Transfers.{
  message_at, put_message, finish_transfer, transfer_in, transfer_out, after_read, after_write,
  relay_in, relay_out, run_relays,
}
use proxi.ProxyServer.{
  ProxyServer, Os, ClientRequest, Place, client_of, server_of, connection, max_cache_size,
}
use proxi.RawMessage
use proxi.RawMessage.{RawMessage}
use proxi.SimpleCache

module _ (os : Os) where
  finish_transfer-Linked :
      (conn : ℕ) (rqst : ClientRequest) (i : ℕ) (s : ProxyServer)
      → Linked s
      → Returns Linked (finish_transfer os conn rqst i s)
  unfolding finish_transfer save_cached
  finish_transfer-Linked conn rqst i s h = after_any Linked (message_at i s.responses) _ (λ m.
      Returns-bind Linked _ (elim (should_cache m.header) [ false ↦ _ | true ↦ _ ]) _
        (Returns-either Linked (should_cache m.header) _ _
          (after_any Linked
            (SimpleCache.insert same_url max_cache_size s.cache (to_url rqst.header) m.cache) _
            (λ c. h))
          h)
        (λ s' h'. send_server_response-Linked os conn rqst m s' h'))

  pub transfer_in-Linked :
      (conn : ℕ) (rqst : ClientRequest) (i : ℕ) (s : ProxyServer)
      → Linked s
      → Returns Linked (transfer_in os conn rqst i s)
  unfolding transfer_in
  transfer_in-Linked conn rqst i s h = after_any Linked (elem_at (server_of conn) s) _ (λ e.
      after_any Linked (message_at i s.responses) _ (λ m.
        catching-Returns Linked (BufferedMessage.read_from response_header (os.read e.fd) m) _ _
          (close-Linked os (connection conn) s h)
          (λ m'.
            let s1 = record s { responses = put_message i m' s.responses } in
            let h1 = put_response [] s h i m' in
            Returns-bind Linked _
              (elim (can_write m') [
                | false ↦ ok s1
                | true ↦ update_state os (client_of conn) (states (out_state ∷ rdhup_state ∷ [])) s1
              ])
              _
              (Returns-either Linked (can_write m') _ _
                (update_state-LinkedBut os [] (client_of conn) _ s1 h1) h1)
              (λ s2 h2.
                Returns-either Linked (is_read m') _ _ (finish_transfer-Linked conn rqst i s2 h2)
                  h2))))

  pub transfer_out-Linked :
      (conn i : ℕ) (s : ProxyServer) → Linked s → Returns Linked (transfer_out os conn i s)
  unfolding transfer_out
  transfer_out-Linked conn i s h = after_any Linked (message_at i s.responses) _ (λ m.
      Returns-either Linked (can_write m) _ _
        (after_any Linked (elem_at (client_of conn) s) _ (λ e.
          catching-Returns Linked (BufferedMessage.write_to (os.write e.fd) m) _ _
            (close-Linked os (connection conn) s h)
            (λ m'.
              Returns-either Linked (can_write m') _ _ (put_response [] s h i m')
                (update_state-LinkedBut os [] (client_of conn) _ _ (put_response [] s h i m')))))
        h)

  -- An update of the state of an element by what it was.
  updates_by :
      (p : Place) (f : ℕ → ℕ) (s : ProxyServer)
      → Linked s
      → Returns Linked (elem_at p s >>= λ e. update_state os p (f e.events) s)
  updates_by p f s h =
      after_any Linked (elem_at p s) _ (λ e. update_state-LinkedBut os [] p (f e.events) s h)

  after_read-Linked :
      (a b : Place) (m : RawMessage) (s : ProxyServer)
      → Linked s
      → Returns Linked (after_read os a b m s)
  unfolding after_read
  after_read-Linked a b m s h =
      Returns-bind Linked _
        (elim (RawMessage.can_read m) [
          | true ↦ ok s
          | false ↦ elem_at a s >>= λ e.
              update_state os a (FdState.xor e.events (states (in_state ∷ []))) s
        ])
        _ (Returns-either Linked (RawMessage.can_read m) _ _ h (updates_by a _ s h))
        (λ s' h'. Returns-either Linked (RawMessage.can_write m) _ _ (updates_by b _ s' h') h')

  after_write-Linked :
      (a b : Place) (m : RawMessage) (s : ProxyServer)
      → Linked s
      → Returns Linked (after_write os a b m s)
  unfolding after_write
  after_write-Linked a b m s h =
      Returns-bind Linked _
        (elim (RawMessage.can_write m) [
          | true ↦ ok s
          | false ↦ elem_at a s >>= λ e.
              update_state os a (FdState.xor e.events (states (out_state ∷ []))) s
        ])
        _ (Returns-either Linked (RawMessage.can_write m) _ _ h (updates_by a _ s h))
        (λ s' h'. Returns-either Linked (RawMessage.can_read m) _ _ (updates_by b _ s' h') h')

  relay_in-Linked :
      (a : Place) (i : ℕ) (b : Place) (conn : ℕ) (s : ProxyServer)
      → Linked s
      → Returns Linked (relay_in os a i b conn s)
  unfolding relay_in
  relay_in-Linked a i b conn s h = after_any Linked (message_at i s.raws) _ (λ m.
      Returns-either Linked (RawMessage.can_read m) _ _
        (after_any Linked (elem_at a s) _ (λ e.
          catching-Returns Linked (RawMessage.read_from (os.read e.fd) m) _ _
            (Returns-bind Linked _ (close os (connection conn) s) _
              (close-Linked os (connection conn) s h) (λ s' h'. after_read-Linked a b m s' h'))
            (λ m'. after_read-Linked a b m' _ (put_raw [] s h i m'))))
        h)

  relay_out-Linked :
      (a : Place) (j : ℕ) (b : Place) (conn : ℕ) (s : ProxyServer)
      → Linked s
      → Returns Linked (relay_out os a j b conn s)
  unfolding relay_out
  relay_out-Linked a j b conn s h = after_any Linked (message_at j s.raws) _ (λ m.
      Returns-either Linked (RawMessage.can_write m) _ _
        (after_any Linked (elem_at a s) _ (λ e.
          catching-Returns Linked (RawMessage.write_to (os.write e.fd) m) _ _
            (Returns-bind Linked _ (close os (connection conn) s) _
              (close-Linked os (connection conn) s h) (λ s' h'. after_write-Linked a b m s' h'))
            (λ m'. after_write-Linked a b m' _ (put_raw [] s h j m'))))
        h)

  pub run_relays-Linked :
      (a : Place) (i : ℕ) (b : Place) (j conn state : ℕ) (s : ProxyServer)
      → Linked s
      → Returns Linked (run_relays os a i b j conn state s)
  unfolding run_relays
  run_relays-Linked a i b j conn state s h =
      Returns-bind Linked _ (set_active (connection conn) s) _
        (set_active-LinkedBut [] (connection conn) s h)
        (λ s1 h1.
          Returns-either Linked (has_event state (rdhup_state ∷ [])) _ _
            (close-Linked os (connection conn) s1 h1)
            (Returns-bind Linked _
              (elim (has_event state (in_state ∷ [])) [
                | true ↦ relay_in os a i b conn s1
                | false ↦ ok s1
              ])
              _
              (Returns-either Linked (has_event state (in_state ∷ [])) _ _
                (relay_in-Linked a i b conn s1 h1) h1)
              (λ s2 h2.
                Returns-either Linked (has_event state (out_state ∷ [])) _ _
                  (relay_out-Linked a j b conn s2 h2) h2)))
