-- ===== src/ProxyServer/Kept/Events.antt =====
-- What the handlers keep that move messages, the timer, and the call of any handler.
use proxi.Base.{Outcome-cases, Bool-cases, inl, inr, ℕ, List, [], ◌∷◌, arith}
use proxi.EpollQueue.{EpollElem}
use proxi.ProxyServer.Handlers.{run, destroy_all, tick, run_ticks, run_signals}
use proxi.ProxyServer.Kept.{
  Kept, update_state-Kept, destroy-Kept, close-Kept, set_active-Kept, send_server_response-Kept,
  run_read-Kept, run_send-Kept,
}
use proxi.ProxyServer.Transfers.{
  take_request, take_response, give_request, give_response, run_server_waits, finish_transfer,
  transfer_in, transfer_out, after_read, after_write, relay_in, relay_out, run_relays,
}
use proxi.ProxyServer.{
  ProxyServer, Os, Place, Owner, Handler, client_of, server_of, connection, ClientRequest,
  OnRequest, OnResponse, Action, listens, notifies, resolving, client_waits, connects, request_read,
  response_read, request_sent, response_sent, server_waits, server_transfers, client_transfers,
  relays, timer_runs, signal_comes,
}
use proxi.RawMessage.{RawMessage}
use proxi.SimpleCache.{SimpleCache}
use proxi.Text.{Bytes}
use proxi.HeaderParser.Policy.{should_cache, to_url}
use proxi.ProxyServer.Transfers.{message_at}
use proxi.ProxyServer.Kept.Calls.{
  Keeps, Allowed, save_cached-Kept, call_response-Kept, call_request-Kept, call-Kept,
}
use proxi.ProxyServer.Kept.Waiting.{
  run_listens-Kept, run_notifies-Kept, run_resolving-Kept, run_client_waits-Kept, run_connects-Kept,
}

module _ (Q : SimpleCache Bytes (List Bytes) → List RawMessage → Type 0) (Free : ℕ → Type 0)
    (laws : Keeps Q Free) (os : Os) where
  take_request-Kept :
      (from : Place) (i : ℕ) (it : Owner) (next : OnRequest) (s : ProxyServer)
      → Q s.cache s.raws
      → Kept Q (take_request os from i it next s)
  unfolding take_request
  take_request-Kept from i it next s q =
      grind (arith, close-Kept Q os, update_state-Kept Q os, call_request-Kept Q Free laws os)

  take_response-Kept :
      (from : Place) (i : ℕ) (it : Owner) (next : OnResponse) (s : ProxyServer)
      → Q s.cache s.raws
      → Kept Q (take_response os from i it next s)
  unfolding take_response
  take_response-Kept from i it next s q =
      grind (arith, close-Kept Q os, update_state-Kept Q os, call_response-Kept Q Free laws os)

  give_request-Kept :
      (to : Place) (i : ℕ) (it : Owner) (next : Action) (s : ProxyServer)
      → Q s.cache s.raws
      → Kept Q (give_request os to i it next s)
  unfolding give_request
  give_request-Kept to i it next s q =
      grind (arith, close-Kept Q os, update_state-Kept Q os, call-Kept Q Free laws os)

  give_response-Kept :
      (to : Place) (i : ℕ) (it : Owner) (next : Action) (s : ProxyServer)
      → Q s.cache s.raws
      → Kept Q (give_response os to i it next s)
  unfolding give_response
  give_response-Kept to i it next s q =
      grind (arith, close-Kept Q os, update_state-Kept Q os, call-Kept Q Free laws os)

  finish_transfer-Kept :
      (conn : ℕ) (rqst : ClientRequest) (i : ℕ) (s : ProxyServer)
      → Q s.cache s.raws
      → Kept Q (finish_transfer os conn rqst i s)
  unfolding finish_transfer
  finish_transfer-Kept conn rqst i s q = elim (Outcome-cases (message_at i s.responses)) [
    | inl (m, e) ↦ elim (Bool-cases (should_cache m.header)) [
      | inl y ↦
          let saved = save_cached-Kept Q Free laws os (to_url rqst.header) m s y q in
          grind (arith, e, y, saved, send_server_response-Kept Q os)
      | inr n ↦ grind (arith, e, n, send_server_response-Kept Q os)
    ]
    | inr (x, e) ↦ grind (arith, e)
  ]

  transfer_in-Kept :
      (conn : ℕ) (rqst : ClientRequest) (i : ℕ) (s : ProxyServer)
      → Q s.cache s.raws
      → Kept Q (transfer_in os conn rqst i s)
  unfolding transfer_in
  transfer_in-Kept conn rqst i s q =
      grind (arith, close-Kept Q os, update_state-Kept Q os, finish_transfer-Kept)

  transfer_out-Kept :
      (conn i : ℕ) (s : ProxyServer) → Q s.cache s.raws → Kept Q (transfer_out os conn i s)
  unfolding transfer_out
  transfer_out-Kept conn i s q = grind (arith, close-Kept Q os, update_state-Kept Q os)

  after_read-Kept :
      (a b : Place) (m : RawMessage) (s : ProxyServer)
      → Q s.cache s.raws
      → Kept Q (after_read os a b m s)
  unfolding after_read
  after_read-Kept a b m s q = grind (arith, update_state-Kept Q os)

  after_write-Kept :
      (a b : Place) (m : RawMessage) (s : ProxyServer)
      → Q s.cache s.raws
      → Kept Q (after_write os a b m s)
  unfolding after_write
  after_write-Kept a b m s q = grind (arith, update_state-Kept Q os)

  pub relay_in-Kept :
      (a : Place) (i : ℕ) (b : Place) (conn : ℕ) (s : ProxyServer)
      → Free i
      → Q s.cache s.raws
      → Kept Q (relay_in os a i b conn s)
  unfolding relay_in
  relay_in-Kept a i b conn s free q =
      grind (arith, laws.put_keeps, close-Kept Q os, after_read-Kept)

  pub relay_out-Kept :
      (a : Place) (i : ℕ) (b : Place) (conn : ℕ) (s : ProxyServer)
      → Free i
      → Q s.cache s.raws
      → Kept Q (relay_out os a i b conn s)
  unfolding relay_out
  relay_out-Kept a i b conn s free q =
      grind (arith, laws.put_keeps, close-Kept Q os, after_write-Kept)

  run_relays-Kept :
      (a : Place) (i : ℕ) (b : Place) (j conn state : ℕ) (s : ProxyServer)
      → Free i
      → Free j
      → Q s.cache s.raws
      → Kept Q (run_relays os a i b j conn state s)
  unfolding run_relays
  run_relays-Kept a i b j conn state s fi fj q =
      grind (arith, set_active-Kept Q, close-Kept Q os, relay_in-Kept, relay_out-Kept)

  run_server_waits-Kept :
      (conn state : ℕ) (s : ProxyServer)
      → Q s.cache s.raws
      → Kept Q (run_server_waits os conn state s)
  unfolding run_server_waits
  run_server_waits-Kept conn state s q = grind (arith, close-Kept Q os)

  destroy_all-Kept :
      (l : List EpollElem) (s : ProxyServer) → Q s.cache s.raws → Kept Q (destroy_all os l s)
  unfolding destroy_all
  destroy_all-Kept [] s q = q
  destroy_all-Kept (e ∷ l) s q = grind (arith, destroy-Kept Q os, destroy_all-Kept l)

  pub tick-Kept : (ticked : ℕ) (s : ProxyServer) → Q s.cache s.raws → Kept Q (tick os ticked s)
  unfolding tick
  tick-Kept ticked s q = grind (arith, destroy_all-Kept)

  run_ticks-Kept : (state : ℕ) (s : ProxyServer) → Q s.cache s.raws → Kept Q (run_ticks os state s)
  unfolding run_ticks
  run_ticks-Kept state s q = grind (arith, tick-Kept)

  run_signals-Kept :
      (state : ℕ) (s : ProxyServer) → Q s.cache s.raws → Kept Q (run_signals os state s)
  unfolding run_signals
  run_signals-Kept state s q = ground arith

  pub run-Kept :
      (h : Handler) (state : ℕ) (s : ProxyServer)
      → Allowed Free h
      → Q s.cache s.raws
      → Kept Q (run os h state s)
  unfolding run
  run-Kept listens state s allowed q = run_listens-Kept Q Free laws os state s q
  run-Kept notifies state s allowed q = run_notifies-Kept Q Free laws os state s q
  run-Kept timer_runs state s allowed q = run_ticks-Kept state s q
  run-Kept signal_comes state s allowed q = run_signals-Kept state s q
  run-Kept (resolving sock host) state s allowed q =
      run_resolving-Kept Q Free laws os sock host state s q
  run-Kept (client_waits extra conn) state s allowed q =
      run_client_waits-Kept Q Free laws os extra conn state s q
  run-Kept (connects conn ip) state s allowed q = run_connects-Kept Q Free laws os conn ip state s q
  run-Kept (request_read from i it next) state s allowed q =
      run_read-Kept Q os from it _ state s (take_request-Kept from i it next) q
  run-Kept (response_read from i it next) state s allowed q =
      run_read-Kept Q os from it _ state s (take_response-Kept from i it next) q
  run-Kept (request_sent to i it next) state s allowed q =
      run_send-Kept Q os to it _ state s (give_request-Kept to i it next) q
  run-Kept (response_sent to i it next) state s allowed q =
      run_send-Kept Q os to it _ state s (give_response-Kept to i it next) q
  run-Kept (server_waits conn) state s allowed q = run_server_waits-Kept conn state s q
  run-Kept (server_transfers conn rqst resp) state s allowed q =
      run_read-Kept Q os (server_of conn) (connection conn) _ state s
        (transfer_in-Kept conn rqst resp) q
  run-Kept (client_transfers conn resp) state s allowed q =
      run_send-Kept Q os (client_of conn) (connection conn) _ state s (transfer_out-Kept conn resp)
        q
  run-Kept (relays a i b j conn) state s allowed q =
      run_relays-Kept a i b j conn state s allowed.0 allowed.1 q
