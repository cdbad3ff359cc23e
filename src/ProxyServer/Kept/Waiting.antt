-- ===== src/ProxyServer/Kept/Waiting.antt =====
-- What the handlers keep that wait for clients, for the resolver and for connections.
use proxi.Base.{ℕ, List, arith}
use proxi.ProxyServer.Connecting.{
  save_client, accept_client, run_listens, make_conn, resolved, run_notifies, run_resolving,
  run_client_waits, give_up, try_next, established, run_connects,
}
use proxi.ProxyServer.Kept.{
  Kept, put_elem-Kept, control-Kept, update_state-Kept, update_handler-Kept, update-Kept,
  destroy-Kept, close-Kept, escape_client-Kept, set_active-Kept, read_request-Kept,
}
use proxi.ProxyServer.{ProxyServer, Os}
use proxi.RawMessage.{RawMessage}
use proxi.Resolver.{Extra, ResolvedIp}
use proxi.SimpleCache.{SimpleCache}
use proxi.Text.{Bytes}
use proxi.ProxyServer.Kept.Calls.{Keeps, call_connection-Kept, erase_found-Kept, send_404-Kept}

module _ (Q : SimpleCache Bytes (List Bytes) → List RawMessage → Type 0) (Free : ℕ → Type 0)
    (laws : Keeps Q Free) (os : Os) where
  pub save_client-Kept :
      (fd : ℕ) (s : ProxyServer) → Q s.cache s.raws → Kept Q (save_client os fd s)
  unfolding save_client
  save_client-Kept fd s q = grind (arith, control-Kept Q os, destroy-Kept Q os)

  pub accept_client-Kept :
      (fd : ℕ) (s : ProxyServer) → Q s.cache s.raws → Kept Q (accept_client os fd s)
  unfolding accept_client
  accept_client-Kept fd s q = grind (arith, put_elem-Kept Q, read_request-Kept Q os)

  pub run_listens-Kept :
      (state : ℕ) (s : ProxyServer) → Q s.cache s.raws → Kept Q (run_listens os state s)
  unfolding run_listens
  run_listens-Kept state s q = grind (arith, save_client-Kept, accept_client-Kept)

  pub make_conn-Kept :
      (client destination : ℕ) (ip : ResolvedIp) (s : ProxyServer)
      → Q s.cache s.raws
      → Kept Q (make_conn os client destination ip s)
  unfolding make_conn
  make_conn-Kept client destination ip s q =
      grind (arith, control-Kept Q os, update-Kept Q os, update_handler-Kept Q)

  pub resolved-Kept :
      (destination : ℕ) (ip : ResolvedIp) (s : ProxyServer)
      → Q s.cache s.raws
      → Kept Q (resolved os destination ip s)
  unfolding resolved
  resolved-Kept destination ip s q = grind (arith, send_404-Kept Q Free laws os, make_conn-Kept)

  pub run_notifies-Kept :
      (state : ℕ) (s : ProxyServer) → Q s.cache s.raws → Kept Q (run_notifies os state s)
  unfolding run_notifies
  run_notifies-Kept state s q = grind (arith, resolved-Kept)

  pub run_resolving-Kept :
      (sock : ℕ) (host : Bytes) (state : ℕ) (s : ProxyServer)
      → Q s.cache s.raws
      → Kept Q (run_resolving os sock host state s)
  unfolding run_resolving
  run_resolving-Kept sock host state s q =
      grind (arith, erase_found-Kept Q Free laws os, close-Kept Q os)

  pub run_client_waits-Kept :
      (extra : Extra) (conn state : ℕ) (s : ProxyServer)
      → Q s.cache s.raws
      → Kept Q (run_client_waits os extra conn state s)
  unfolding run_client_waits
  run_client_waits-Kept extra conn state s q = grind (arith, close-Kept Q os)

  pub give_up-Kept :
      (extra : Extra) (conn : ℕ) (s : ProxyServer)
      → Q s.cache s.raws
      → Kept Q (give_up os extra conn s)
  unfolding give_up
  give_up-Kept extra conn s q = grind (
    arith,
    erase_found-Kept Q Free laws os,
    escape_client-Kept Q os,
    send_404-Kept Q Free laws os,
    close-Kept Q os,
  )

  pub try_next-Kept :
      (conn : ℕ) (ip : ResolvedIp) (server : ℕ) (s : ProxyServer)
      → Q s.cache s.raws
      → Kept Q (try_next os conn ip server s)
  unfolding try_next
  try_next-Kept conn ip server s q = grind (arith, give_up-Kept)

  pub established-Kept :
      (extra : Extra) (conn : ℕ) (s : ProxyServer)
      → Q s.cache s.raws
      → Kept Q (established os extra conn s)
  unfolding established
  established-Kept extra conn s q =
      grind (arith, update_state-Kept Q os, call_connection-Kept Q Free laws os)

  pub run_connects-Kept :
      (conn : ℕ) (ip : ResolvedIp) (state : ℕ) (s : ProxyServer)
      → Q s.cache s.raws
      → Kept Q (run_connects os conn ip state s)
  unfolding run_connects
  run_connects-Kept conn ip state s q =
      grind (arith, set_active-Kept Q, give_up-Kept, try_next-Kept, established-Kept)
