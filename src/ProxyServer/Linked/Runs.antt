-- ===== src/ProxyServer/Linked/Runs.antt =====
-- Every handler finds its element and its messages, from the constructors and through every run of the server.
use proxi.Base.{
  ℕ, ◌≡◌, ◌≢◌, refl, sym, ◌∙◌, ap, subst, List, [], ◌∷◌, some, ok, Returns, Returns-either,
  Returns-maybe, All, Bool-cases, Option-cases, ==_iff, eq→==, ne→==, ◌==◌, inl, inr, arith, ◌&&◌,
  length, take, ok-injective,
}
use proxi.EpollCore.{find_handler}
use proxi.EpollQueue.Timer.{KeysDiffer, find_connection}
use proxi.EpollQueue.{EpollElem, EpollQueue, find_socket}
use proxi.FdState.{in_state}
use proxi.FileDescriptor
use proxi.ProxyServer.Connecting.{has_event}
use proxi.ProxyServer.Handlers.{run, run_signals, handle, siginfo_size, sigint, number_of}
use proxi.ProxyServer.Linked.Events.{
  after_any, take_request-Linked, take_response-Linked, run_read-Linked, run_send-Linked,
  give_request-Linked, give_response-Linked, run_server_waits-Linked,
}
use proxi.ProxyServer.Linked.Relays.{transfer_in-Linked, transfer_out-Linked, run_relays-Linked}
use proxi.ProxyServer.Linked.Ticks.{run_ticks-Linked}
use proxi.ProxyServer.Linked.Accepts.{run_listens-Linked, run_notifies-Linked}
use proxi.ProxyServer.Linked.Waits.{
  run_resolving-Linked, run_client_waits-Linked, run_connects-Linked,
}
use proxi.ProxyServer.Linked.{fd_at, Frame, frame, Good, Coherent, Shape, Handled, Linked, Gives}
use proxi.ProxyServer.Reaches.{Reaches}
use proxi.ProxyServer.Serving.{Works, ready, construct-ready}
use proxi.ProxyServer.Startup.{Boot, construct, blank}
use proxi.ProxyServer.{
  ProxyServer, Os, Place, Handler, at_socket, client_of, server_of, connection, listens, notifies,
  timer_runs, signal_comes, resolving, client_waits, connects, request_read, response_read,
  request_sent, response_sent, server_waits, server_transfers, client_transfers, relays,
}
use proxi.Text.Numbers.{pos}

module _ (os : Os) where
  run_signals-Linked :
      (state : ℕ) (s : ProxyServer) → Linked s → Returns Linked (run_signals os state s)
  unfolding run_signals
  run_signals-Linked state s h =
      Returns-either Linked (has_event state (in_state ∷ [])) _ _
        (after_any Linked (FileDescriptor.read (os.read s.signal) siginfo_size) _ (λ bytes.
          elim (Bool-cases (length bytes == siginfo_size && number_of (take 4 bytes) == sigint)) [
            | inl e ↦ rw e h
            | inr e ↦ rw e h
          ]))
        h

  run-Linked :
      (h : Handler) (state : ℕ) (s : ProxyServer)
      → Gives os s
      → Coherent h
      → Linked s
      → Returns Linked (run os h state s)
  unfolding run
  run-Linked listens state s g c h = run_listens-Linked os state s g h
  run-Linked notifies state s g c h = run_notifies-Linked os state s g h
  run-Linked timer_runs state s g c h = run_ticks-Linked os state s h
  run-Linked signal_comes state s g c h = run_signals-Linked state s h
  run-Linked (resolving sock host) state s g c h = run_resolving-Linked os sock host state s h
  run-Linked (client_waits extra conn) state s g c h =
      run_client_waits-Linked os extra conn state s h
  run-Linked (connects conn ip) state s g c h = run_connects-Linked os conn ip state s h
  run-Linked (request_read from i it next) state s g c h =
      run_read-Linked os from it _ state s (λ s'. take_request-Linked os from i it next s') h
  run-Linked (response_read from i it next) state s g c h =
      run_read-Linked os from it _ state s (λ s'. take_response-Linked os from i it next s') h
  run-Linked (request_sent to i it next) state s g c h =
      run_send-Linked os to it _ state s (λ s'. give_request-Linked os to i it next s' c.1) h
  run-Linked (response_sent to i it next) state s g c h =
      run_send-Linked os to it _ state s (λ s'. give_response-Linked os to i it next s' c.1) h
  run-Linked (server_waits conn) state s g c h = run_server_waits-Linked os conn state s h
  run-Linked (server_transfers conn rqst i) state s g c h =
      run_read-Linked os (server_of conn) (connection conn) _ state s
        (λ s'. transfer_in-Linked os conn rqst i s') h
  run-Linked (client_transfers conn i) state s g c h =
      run_send-Linked os (client_of conn) (connection conn) _ state s
        (λ s'. transfer_out-Linked os conn i s') h
  run-Linked (relays a i b j conn) state s g c h = run_relays-Linked os a i b j conn state s h

  handle-Linked :
      (fd state : ℕ) (s : ProxyServer)
      → fd ≢ 0
      → Gives os s
      → Linked s
      → Returns Linked (handle os fd state s)
  unfolding handle
  handle-Linked fd state s n g h =
      Returns-maybe Linked (find_handler fd s.handlers) _ _ h
        (λ handler found. run-Linked handler state s g (h.1 fd handler n tt found).1 h)

-- Along a run the events are of descriptors that are not 0, and the system gives none in use.
abbrev pub Given : {s s' : ProxyServer} → Reaches s s' → Type 0
Given Reaches.start = Unit {0}
Given (Reaches.event {s1} os fd state r e) = Given r × Gives os s1 × (fd ≢ 0)
Given (Reaches.threads resolver r) = Given r

reached-Linked : {s s' : ProxyServer} (r : Reaches s s') → Given r → Linked s → Linked s'
reached-Linked Reaches.start g h = h
reached-Linked (Reaches.threads resolver r) g h = reached-Linked r g h
reached-Linked (Reaches.event {s1} os fd state r e) (g, gives, n) h =
    subst (Returns Linked) e (handle-Linked os fd state s1 n gives (reached-Linked r g h))

-- Sockets alone, each at the key that is its descriptor.
find-keyed :
    (k : ℕ) (e : EpollElem) (l : List (ℕ × EpollElem))
    → All (λ (x : ℕ × EpollElem). x.1.fd ≡ x.0) l
    → find_socket k l ≡ some e
    → e.fd ≡ k
unfolding find_socket
find-keyed k e [] a h = cc
find-keyed k e ((j, d) ∷ l) (same, a) h = ground (arith, same, find-keyed k e l a, h)

sockets-Shape :
    (q : EpollQueue)
    → q.connections ≡ []
    → KeysDiffer q.sockets
    → All (λ (x : ℕ × EpollElem). x.1.fd ≡ x.0) q.sockets
    → Shape q
unfolding find_connection
sockets-Shape q none_yet keys same = record {
  keys = keys;
  ids = rw none_yet tt;
  unused = λ id le. rw none_yet refl;
  keyed = keyed;
  unique = unique;
}
  where
    keyed : (k fd : ℕ) → fd_at (at_socket k) q ≡ some fd → fd ≡ k
    keyed k fd h = elim (Option-cases (find_socket k q.sockets)) [
      | inl gone ↦ absurd (grind (arith, gone, h))
      | inr (e, there) ↦ grind (arith, there, h, find-keyed k e q.sockets same there)
    ]

    unique : (p p' : Place) (fd : ℕ) → fd ≢ 0 → fd_at p q ≡ some fd → fd_at p' q ≡ some fd → p ≡ p'
    unique (at_socket j) (at_socket k) fd n h h' = ap at_socket (sym (keyed j fd h) ∙ keyed k fd h')
    unique (client_of j) p' fd n h h' = absurd (grind (arith, none_yet, h))
    unique (server_of j) p' fd n h h' = absurd (grind (arith, none_yet, h))
    unique (at_socket j) (client_of k) fd n h h' = absurd (grind (arith, none_yet, h'))
    unique (at_socket j) (server_of k) fd n h h' = absurd (grind (arith, none_yet, h'))

Handled-nil : (r : Frame) (q : EpollQueue) → Handled [] r q []
unfolding find_handler
Handled-nil r q fd h n out e = absurd (cc)

Handled-cons :
    (r : Frame) (q : EpollQueue) (k : ℕ) (h : Handler) (l : List (ℕ × Handler))
    → Good r q k h
    → Handled [] r q l
    → Handled [] r q ((k, h) ∷ l)
unfolding find_handler
Handled-cons r q k h l good rest fd h' n out e = elim (Bool-cases (k == fd)) [
  | inl same ↦
      let here : k ≡ fd = (==_iff k fd).0 same in
      let was : h ≡ h' = grind (arith, e, same) in
      subst (λ j. Good r q j h') here (subst (Good r q k) was good)
  | inr differ ↦ rest fd h' n out (grind (arith, e, differ))
]

module _ (os : Os) (boot : Boot) (port n sig timer listener notifier : ℕ)
    (w : Works os boot port n sig timer listener notifier) (a : sig ≢ timer) (b : timer ≢ notifier)
    (c : timer ≢ listener) (d : notifier ≢ listener) (z : sig ≢ 0) where
  ready-Linked : Linked (ready os boot port n sig timer listener notifier w a b c d z)
  unfolding find_socket find_handler blank
  ready-Linked =
      let s = ready os boot port n sig timer listener notifier w a b c d z in
      let one = ne→== timer notifier b in
      let two = ne→== timer listener c in
      let three = ne→== notifier listener d in
      let one' = ne→== notifier timer (λ e. b (sym e)) in
      let two' = ne→== listener timer (λ e. c (sym e)) in
      let three' = ne→== listener notifier (λ e. d (sym e)) in
      (
        sockets-Shape s.queue refl (rw (one', two') refl, (rw three' refl, (refl, tt)))
            (refl, (refl, (refl, tt))),
        Handled-cons (frame s) s.queue timer timer_runs
            ((notifier, notifies) ∷ (listener, listens) ∷ [])
            (rw (eq→== timer timer refl) refl, tt, tt)
            (Handled-cons (frame s) s.queue notifier notifies ((listener, listens) ∷ [])
              (rw (one, eq→== notifier notifier refl) refl, tt, tt)
              (Handled-cons (frame s) s.queue listener listens []
                (rw (two, three, eq→== listener listener refl) refl, tt, tt)
                (Handled-nil (frame s) s.queue))),
      )

-- If no call of the constructors fails and the four descriptors differ: in every state that the
-- server they make reaches, where events are of descriptors that are not 0 and the system gives
-- none that is in use, every handler of a descriptor that is not 0 finds its element and its
-- messages. The place that its closure captured is alive, holds the descriptor of the handler and
-- belongs to the object of its iterator, no other place holds that descriptor, and the messages
-- that the closure shares are there.
pub Reaches-Linked :
    (os : Os) (boot : Boot) (port n sig timer listener notifier : ℕ) (s s' : ProxyServer)
    → Works os boot port n sig timer listener notifier
    → sig ≢ timer
    → timer ≢ notifier
    → timer ≢ listener
    → notifier ≢ listener
    → sig ≢ 0
    → construct os boot port (pos n) ≡ ok s
    → (r : Reaches s s') → Given r
    → Linked s'
Reaches-Linked os boot port n sig timer listener notifier s s' w a b c d z made r g =
    let done = construct-ready os boot port n sig timer listener notifier w a b c d z in
    let same : ready os boot port n sig timer listener notifier w a b c d z ≡ s =
      ok-injective (sym done ∙ made) in
    reached-Linked r g
      (subst Linked same (ready-Linked os boot port n sig timer listener notifier w a b c d z))
