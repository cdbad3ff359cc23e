-- ===== src/ProxyServer/Linked/Grows.antt =====
-- Messages that are added keep what the handlers find.
use proxi.Base.{
  ℕ, suc, ◌≤◌, ◌<◌, ◌≡◌, refl, sym, subst, zero, List, [], ◌∷◌, ◌++◌, arith, length, length-append,
  ap,
}
use proxi.EpollQueue.{EpollQueue}
use proxi.ProxyServer.Linked.{Frame, Placed, place_of, Stored, Handled, LinkedBut}
use proxi.ProxyServer.Transfers.{put_message}
use proxi.ProxyServer.{
  ProxyServer, ClientRequest, ServerResponse, Handler, listens, notifies, timer_runs, request_read,
  response_read, request_sent, response_sent, server_transfers, client_transfers, relays,
}
use proxi.RawMessage.{RawMessage}

-- As many messages, or more, and the same keys.
module _ (k n t a b c a' b' c' : ℕ) (x : a ≤ a') (y : b ≤ b') (z : c ≤ c') where
  abbrev small : Frame
  small = (k, n, t, a, b, c)

  abbrev large : Frame
  large = (k, n, t, a', b', c')

  same_place : (h : Handler) → place_of large h ≡ place_of small h
  same_place listens = refl
  same_place notifies = refl
  same_place timer_runs = refl
  same_place _ = refl

  Stored-grow : (h : Handler) → Stored small h → Stored large h
  Stored-grow (request_read from i it next) s = omega (arith, x, s)
  Stored-grow (response_read from i it next) s = omega (arith, y, s)
  Stored-grow (request_sent to i it next) s = omega (arith, x, s)
  Stored-grow (response_sent to i it next) s = omega (arith, y, s)
  Stored-grow (server_transfers conn rqst i) s = omega (arith, y, s)
  Stored-grow (client_transfers conn i) s = omega (arith, y, s)
  Stored-grow (relays p i q j conn) s = (omega (arith, z, s.0), omega (arith, z, s.1))
  Stored-grow _ s = tt

  Handled-grow :
      (l : List ℕ) (q : EpollQueue) (handlers : List (ℕ × Handler))
      → Handled l small q handlers
      → Handled l large q handlers
  Handled-grow l q handlers all fd h m out e =
      let (placed, coherent, stored) = all fd h m out e in
      (subst (λ o. Placed o fd q) (sym (same_place h)) placed, coherent, Stored-grow h stored)

pub grow-LinkedBut :
    (l : List ℕ) (s : ProxyServer) (rs : List ClientRequest) (ps : List ServerResponse)
    (ws : List RawMessage)
    → length s.requests ≤ length rs
    → length s.responses ≤ length ps
    → length s.raws ≤ length ws
    → LinkedBut l s
    → LinkedBut l (record s { requests = rs; responses = ps; raws = ws })
grow-LinkedBut l s rs ps ws x y z (shape, handled) = (
  shape,
  Handled-grow s.listener s.notifier s.timer (length s.requests) (length s.responses)
      (length s.raws) (length rs) (length ps) (length ws) x y z l s.queue s.handlers handled,
)

length-put_message :
    {A : Type 0} (i : ℕ) (m : A) (l : List A) → length (put_message i m l) ≡ length l
unfolding put_message
length-put_message i m [] = refl
length-put_message zero m (a ∷ l) = refl
length-put_message (suc i) m (a ∷ l) = ap suc (length-put_message i m l)

module _ (l : List ℕ) (s : ProxyServer) (h : LinkedBut l s) where
  pub add_request : (m : ClientRequest) → LinkedBut l (record s { requests = s.requests ++ m ∷ [] })
  add_request m =
      grow-LinkedBut l s (s.requests ++ m ∷ []) s.responses s.raws
        (omega (arith, length-append s.requests (m ∷ []))) (omega arith) (omega arith) h

  pub add_response :
      (m : ServerResponse) → LinkedBut l (record s { responses = s.responses ++ m ∷ [] })
  add_response m =
      grow-LinkedBut l s s.requests (s.responses ++ m ∷ []) s.raws (omega arith)
        (omega (arith, length-append s.responses (m ∷ []))) (omega arith) h

  pub put_request :
      (i : ℕ) (m : ClientRequest) → LinkedBut l (record s { requests = put_message i m s.requests })
  put_request i m =
      grow-LinkedBut l s (put_message i m s.requests) s.responses s.raws
        (omega (arith, length-put_message i m s.requests)) (omega arith) (omega arith) h

  pub put_response :
      (i : ℕ) (m : ServerResponse)
      → LinkedBut l (record s { responses = put_message i m s.responses })
  put_response i m =
      grow-LinkedBut l s s.requests (put_message i m s.responses) s.raws (omega arith)
        (omega (arith, length-put_message i m s.responses)) (omega arith) h

  pub put_raw : (i : ℕ) (m : RawMessage) → LinkedBut l (record s { raws = put_message i m s.raws })
  put_raw i m =
      grow-LinkedBut l s s.requests s.responses (put_message i m s.raws) (omega arith) (omega arith)
        (omega (arith, length-put_message i m s.raws)) h

-- The place of a message that is added.
pub added : {A : Type 0} (l : List A) (m : A) → length l < length (l ++ m ∷ [])
added l m = omega (arith, length-append l (m ∷ []))
