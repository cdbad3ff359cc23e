-- ===== src/ProxyServer/Kept/Calls.antt =====
-- What the calls of the closures keep.
use proxi.Base.{true, ◌≡◌, ◌++◌, ℕ, List, Returns, arith}
use proxi.HeaderParser.Messages.{RequestHeader}
use proxi.HeaderParser.Policy.{should_cache}
use proxi.ProxyServer.Actions.{
  send_404, handle_validation_response, call_response, call_request, call_connection, call,
}
use proxi.ProxyServer.Connecting.{erase_found}
use proxi.ProxyServer.Kept.{
  Kept, update-Kept, close-Kept, send_response-Kept, read_request-Kept, read_response-Kept,
  connect_to_server-Kept, fast_transfer-Kept, handle_client_request-Kept, reconnect-Kept,
  send_server_response-Kept,
}
use proxi.ProxyServer.Pages.{same_url, save_cached, delete_cached}
use proxi.ProxyServer.Transfers.{put_message}
use proxi.ProxyServer.{
  ProxyServer, Os, Handler, max_cache_size, socket, ClientRequest, ServerResponse, OnRequest,
  OnResponse, OnConnection, Action, first_request, reused, validates, handles, transfers,
  reads_response, reuses, starts_relay, starts_transfer, closes, relays,
}
use proxi.RawMessage.{RawMessage}
use proxi.SimpleCache
use proxi.SimpleCache.{SimpleCache}
use proxi.Text.{Bytes}

-- What the operations on the cache and on the messages keep: a page that is inserted is a response
-- that `should_cache` accepts, and a message is drained and filled only
-- where it is free.
pub record Keeps (Q : SimpleCache Bytes (List Bytes) → List RawMessage → Type 0) (Free : ℕ → Type 0)
    : Type 0 where
  pub insert_keeps :
      (c : SimpleCache Bytes (List Bytes)) (r : List RawMessage) (k : Bytes) (m : ServerResponse)
      → should_cache m.header ≡ true
      → Q c r
      → Returns (λ c'. Q c' r) (SimpleCache.insert same_url max_cache_size c k m.cache)
  pub erase_keeps :
      (c : SimpleCache Bytes (List Bytes)) (r : List RawMessage) (k : Bytes)
      → Q c r
      → Returns (λ c'. Q c' r) (SimpleCache.erase same_url c k)
  pub append_keeps :
      (c : SimpleCache Bytes (List Bytes)) (r l : List RawMessage) → Q c r → Q c (r ++ l)
  pub put_keeps :
      (c : SimpleCache Bytes (List Bytes)) (r : List RawMessage) (i : ℕ) (m : RawMessage)
      → Free i
      → Q c r
      → Q c (put_message i m r)

-- The handlers that fill and drain no message but free ones.
abbrev pub Allowed : (ℕ → Type 0) → Handler → Type 0
Allowed Free (relays a i b j conn) = Free i × Free j
Allowed Free _ = Unit {0}

pub free-Allowed : (Free : ℕ → Type 0) → ((i : ℕ) → Free i) → (h : Handler) → Allowed Free h
free-Allowed Free free (relays a i b j conn) = (free i, free j)
free-Allowed Free free _ = tt

module _ (Q : SimpleCache Bytes (List Bytes) → List RawMessage → Type 0) (Free : ℕ → Type 0)
    (laws : Keeps Q Free) (os : Os) where
  pub save_cached-Kept :
      (url : Bytes) (m : ServerResponse) (s : ProxyServer)
      → should_cache m.header ≡ true
      → Q s.cache s.raws
      → Kept Q (save_cached url m.cache s)
  unfolding save_cached
  save_cached-Kept url m s may q = grind (arith, laws.insert_keeps s.cache s.raws url m may q)

  pub delete_cached-Kept :
      (h : RequestHeader) (s : ProxyServer) → Q s.cache s.raws → Kept Q (delete_cached h s)
  unfolding delete_cached
  delete_cached-Kept h s q = grind (arith, laws.erase_keeps)

  pub handle_validation_response-Kept :
      (conn : ℕ) (rqst : ClientRequest) (cached resp : ServerResponse) (s : ProxyServer)
      → Q s.cache s.raws
      → Kept Q (handle_validation_response os conn rqst cached resp s)
  unfolding handle_validation_response
  handle_validation_response-Kept conn rqst cached resp s q = grind (
    arith,
    delete_cached-Kept,
    send_server_response-Kept Q os,
    reconnect-Kept Q os,
    fast_transfer-Kept Q os,
  )

  pub call_response-Kept :
      (next : OnResponse) (m : ServerResponse) (s : ProxyServer)
      → Q s.cache s.raws
      → Kept Q (call_response os next m s)
  unfolding call_response
  call_response-Kept (validates conn rqst cached) m s q =
      handle_validation_response-Kept conn rqst cached m s q

  pub call_request-Kept :
      (next : OnRequest) (m : ClientRequest) (s : ProxyServer)
      → Q s.cache s.raws
      → Kept Q (call_request os next m s)
  unfolding call_request
  call_request-Kept (first_request client) m s q = connect_to_server-Kept Q os _ _ _ s q
  call_request-Kept (reused conn host) m s q =
      grind (arith, handle_client_request-Kept Q os, reconnect-Kept Q os)

  pub call_connection-Kept :
      (next : OnConnection) (conn : ℕ) (s : ProxyServer)
      → Q s.cache s.raws
      → Kept Q (call_connection os next conn s)
  unfolding call_connection
  call_connection-Kept (handles rqst) conn s q = handle_client_request-Kept Q os rqst conn s q
  call_connection-Kept (transfers rqst) conn s q = fast_transfer-Kept Q os conn rqst s q

  pub call-Kept : (next : Action) (s : ProxyServer) → Q s.cache s.raws → Kept Q (call os next s)
  unfolding call
  call-Kept (reads_response to it next) s q = read_response-Kept Q os _ _ _ _ s q
  call-Kept (reuses conn host) s q = grind (arith, update-Kept Q os, read_request-Kept Q os)
  call-Kept (starts_relay conn) s q = grind (arith, laws.append_keeps, update-Kept Q os)
  call-Kept (starts_transfer conn rqst) s q = grind (arith, update-Kept Q os)
  call-Kept (closes client) s q = close-Kept Q os (socket client) s q

  pub erase_found-Kept :
      (fd : ℕ) (host : Bytes) (s : ProxyServer) → Q s.cache s.raws → Kept Q (erase_found fd host s)
  unfolding erase_found
  erase_found-Kept fd host s q = ground arith

  pub send_404-Kept :
      (client : ℕ) (s : ProxyServer) → Q s.cache s.raws → Kept Q (send_404 os client s)
  unfolding send_404
  send_404-Kept client s q = send_response-Kept Q os _ _ _ _ s q
