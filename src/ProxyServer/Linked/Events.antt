-- ===== src/ProxyServer/Linked/Events.antt =====
-- What the handlers of `Transfers` keep.
use proxi.Base.{
  ℕ, [], ◌∷◌, Outcome, ok, fault, annotated, ◌>>=◌, Returns, Returns-bind, Returns-either,
  Returns-maybe,
}
use proxi.BufferedMessage
use proxi.BufferedMessage.Headers.{request_header, response_header}
use proxi.BufferedMessage.{is_read, is_written, can_write}
use proxi.FdState.{in_state, out_state, wait_state, error_state, hup_state, rdhup_state}
use proxi.ProxyServer.Connecting.{has_event}
use proxi.ProxyServer.Elems.{states, elem_at, update_state, set_active}
use proxi.ProxyServer.Linked.Calls.{call_request-Linked, call_response-Linked, call-Linked}
use proxi.ProxyServer.Linked.Ends.{close-Linked}
use proxi.ProxyServer.Linked.Grows.{put_request, put_response}
use proxi.ProxyServer.Linked.Moves.{set_active-LinkedBut}
use proxi.ProxyServer.Linked.Updates.{update_state-LinkedBut}
use proxi.ProxyServer.Linked.{Linked, Follows}
use proxi.ProxyServer.Transfers.{
  catching, message_at, is_gone, check_error, take_request, take_response, run_read, give_request,
  give_response, run_send, run_server_waits,
}
use proxi.ProxyServer.{ProxyServer, Os, Place, Owner, OnRequest, OnResponse, Action, connection}

pub catching-Returns :
    {A : Type 0} (P : ProxyServer → Type 0) (o : Outcome A) (caught : Outcome ProxyServer)
    (next : A → Outcome ProxyServer)
    → Returns P caught
    → ((a : A) → Returns P (next a))
    → Returns P (catching o caught next)
catching-Returns P (ok a) caught next p q = q a
catching-Returns P (fault annotated) caught next p q = p
catching-Returns P (fault _) caught next p q = tt

pub after_any :
    {A : Type 0} (P : ProxyServer → Type 0) (o : Outcome A) (f : A → Outcome ProxyServer)
    → ((a : A) → Returns P (f a))
    → Returns P (o >>= f)
after_any P (ok a) f h = h a
after_any P (fault x) f h = tt

module _ (os : Os) where
  pub take_request-Linked :
      (from : Place) (i : ℕ) (it : Owner) (next : OnRequest) (s : ProxyServer)
      → Linked s
      → Returns Linked (take_request os from i it next s)
  unfolding take_request
  take_request-Linked from i it next s h = after_any Linked (elem_at from s) _ (λ e.
      after_any Linked (message_at i s.requests) _ (λ m.
        catching-Returns Linked (BufferedMessage.read_from request_header (os.read e.fd) m) _ _
          (close-Linked os it s h)
          (λ m'.
            Returns-either Linked (is_read m') _ _
              (Returns-bind Linked _ (update_state os from (states (wait_state ∷ [])) _) _
                (update_state-LinkedBut os [] from _ _ (put_request [] s h i m'))
                (λ s'' h''. call_request-Linked os next m' s'' h''))
              (put_request [] s h i m'))))

  pub take_response-Linked :
      (from : Place) (i : ℕ) (it : Owner) (next : OnResponse) (s : ProxyServer)
      → Linked s
      → Returns Linked (take_response os from i it next s)
  unfolding take_response
  take_response-Linked from i it next s h = after_any Linked (elem_at from s) _ (λ e.
      after_any Linked (message_at i s.responses) _ (λ m.
        catching-Returns Linked (BufferedMessage.read_from response_header (os.read e.fd) m) _ _
          (close-Linked os it s h)
          (λ m'.
            Returns-either Linked (is_read m') _ _
              (Returns-bind Linked _ (update_state os from (states (wait_state ∷ [])) _) _
                (update_state-LinkedBut os [] from _ _ (put_response [] s h i m'))
                (λ s'' h''. call_response-Linked os next m' s'' h''))
              (put_response [] s h i m'))))

  check_error-Linked :
      (state fd : ℕ) (it : Owner) (s : ProxyServer)
      → Linked s
      → Returns Linked (check_error os state fd it s)
  unfolding check_error
  check_error-Linked state fd it s h =
      Returns-either Linked (has_event state (hup_state ∷ error_state ∷ [])) _ _
        (Returns-maybe Linked (os.socket_error fd) _ _ tt (λ code e. close-Linked os it s h)) h

  -- The frame of the handlers that read, around what they do with bytes.
  pub run_read-Linked :
      (from : Place) (it : Owner) (take : ProxyServer → Outcome ProxyServer) (state : ℕ)
      (s : ProxyServer)
      → ((s' : ProxyServer) → Linked s' → Returns Linked (take s'))
      → Linked s
      → Returns Linked (run_read os from it take state s)
  unfolding run_read
  run_read-Linked from it take state s keeps h = after_any Linked (elem_at from s) _ (λ e.
      Returns-bind Linked _ (set_active it s) _ (set_active-LinkedBut [] it s h) (λ s1 h1.
        after_any Linked (is_gone os state e.fd) _ (λ gone.
          Returns-either Linked gone _ _ (close-Linked os it s1 h1) (
            Returns-bind Linked _ (check_error os state e.fd it s1) _
              (check_error-Linked state e.fd it s1 h1)
              (λ s2 h2.
                Returns-either Linked (has_event state (in_state ∷ [])) _ _ (keeps s2 h2) h2)))))

  pub run_send-Linked :
      (to : Place) (it : Owner) (give : ProxyServer → Outcome ProxyServer) (state : ℕ)
      (s : ProxyServer)
      → ((s' : ProxyServer) → Linked s' → Returns Linked (give s'))
      → Linked s
      → Returns Linked (run_send os to it give state s)
  unfolding run_send
  run_send-Linked to it give state s keeps h = after_any Linked (elem_at to s) _ (λ e.
      Returns-bind Linked _ (set_active it s) _ (set_active-LinkedBut [] it s h) (λ s1 h1.
        Returns-either Linked (has_event state (rdhup_state ∷ [])) _ _ (close-Linked os it s1 h1) (
          Returns-bind Linked _ (check_error os state e.fd it s1) _
            (check_error-Linked state e.fd it s1 h1)
            (λ s2 h2.
              Returns-either Linked (has_event state (out_state ∷ [])) _ _ (keeps s2 h2) h2))))

  pub give_request-Linked :
      (to : Place) (i : ℕ) (it : Owner) (next : Action) (s : ProxyServer)
      → Follows next
      → Linked s
      → Returns Linked (give_request os to i it next s)
  unfolding give_request
  give_request-Linked to i it next s f h = after_any Linked (elem_at to s) _ (λ e.
      after_any Linked (message_at i s.requests) _ (λ m.
        catching-Returns Linked (BufferedMessage.write_to (os.write e.fd) m) _ _
          (close-Linked os it s h)
          (λ m'.
            Returns-either Linked (is_written m') _ _
              (Returns-bind Linked _ (update_state os to (states (wait_state ∷ [])) _) _
                (update_state-LinkedBut os [] to _ _ (put_request [] s h i m'))
                (λ s'' h''. call-Linked os next s'' f h''))
              (put_request [] s h i m'))))

  pub give_response-Linked :
      (to : Place) (i : ℕ) (it : Owner) (next : Action) (s : ProxyServer)
      → Follows next
      → Linked s
      → Returns Linked (give_response os to i it next s)
  unfolding give_response
  give_response-Linked to i it next s f h = after_any Linked (elem_at to s) _ (λ e.
      after_any Linked (message_at i s.responses) _ (λ m.
        catching-Returns Linked (BufferedMessage.write_to (os.write e.fd) m) _ _
          (close-Linked os it s h)
          (λ m'.
            Returns-either Linked (is_written m') _ _
              (Returns-bind Linked _ (update_state os to (states (wait_state ∷ [])) _) _
                (update_state-LinkedBut os [] to _ _ (put_response [] s h i m'))
                (λ s'' h''. call-Linked os next s'' f h''))
              (put_response [] s h i m'))))

  pub run_server_waits-Linked :
      (conn state : ℕ) (s : ProxyServer)
      → Linked s
      → Returns Linked (run_server_waits os conn state s)
  unfolding run_server_waits
  run_server_waits-Linked conn state s h =
      Returns-either Linked (has_event state (rdhup_state ∷ [])) _ _
        (close-Linked os (connection conn) s h) h
