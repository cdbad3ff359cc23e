-- ===== src/ProxyServer/Tunnel/Runs.antt =====
-- What a run of the server brings into the message of a tunnel, and what it takes out of it: no
-- event but those of the relaying handlers does either.
use proxi.Base.{
  ℕ, ◌≡◌, ◌≢◌, refl, sym, ap, ◌∙◌, subst, [], ◌++◌, none, some, Returns, append_assoc, append-nil,
  inl, inr, Option-cases,
}
use proxi.EpollCore.{find_handler}
use proxi.ProxyServer.Handlers.{handle, run}
use proxi.ProxyServer.Kept.Calls.{Allowed}
use proxi.ProxyServer.Kept.Events.{run-Kept}
use proxi.ProxyServer.Reaches.{Reaches, start, event, threads}
use proxi.ProxyServer.Tunnel.Order.{
  Leaves, Holds-Stands, Leaves-Holds, relayed_in, relayed_out, run_relays-Leaves,
}
use proxi.ProxyServer.Tunnel.Stands.{Stands, Stands-Keeps}
use proxi.ProxyServer.Tunnel.{Holds}
use proxi.ProxyServer.{ProxyServer, Os, Handler, relays}
use proxi.Text.{Bytes}

-- The bytes that the kernel gives to a handler for the message `i`, and those that it takes.
unfoldable pub handler_in : Os → ℕ → Handler → ℕ → ProxyServer → Bytes
handler_in os i (relays a k b j conn) state s = relayed_in os i a k b j conn state s
handler_in os i h state s = []

unfoldable pub handler_out : Os → ℕ → Handler → ℕ → ProxyServer → Bytes
handler_out os i (relays a k b j conn) state s = relayed_out os i a k b j conn state s
handler_out os i h state s = []

unfoldable pub event_in : Os → ℕ → ℕ → ℕ → ProxyServer → Bytes
event_in os i fd state s = elim (find_handler fd s.handlers) [
  | none ↦ []
  | some h ↦ handler_in os i h state s
]

unfoldable pub event_out : Os → ℕ → ℕ → ℕ → ProxyServer → Bytes
event_out os i fd state s = elim (find_handler fd s.handlers) [
  | none ↦ []
  | some h ↦ handler_out os i h state s
]

-- The bytes that the kernel gave for the message `i` in a run, and those that it took.
unfoldable pub input : ℕ → {s s' : ProxyServer} → Reaches s s' → Bytes
input i start = []
input i (event {s1 = s1} os fd state r e) = input i r ++ event_in os i fd state s1
input i (threads resolver r) = input i r

unfoldable pub output : ℕ → {s s' : ProxyServer} → Reaches s s' → Bytes
output i start = []
output i (event {s1 = s1} os fd state r e) = output i r ++ event_out os i fd state s1
output i (threads resolver r) = output i r

module _ (os : Os) (i : ℕ) (bytes : Bytes) (s : ProxyServer) (h : Holds i bytes s) where
  quiet-Leaves :
      (h' : Handler) (state : ℕ)
      → Allowed (λ j. j ≢ i) h'
      → Returns (Leaves i (bytes ++ []) []) (run os h' state s)
  quiet-Leaves h' state allowed =
      let (m, there, v, p) = h in
      rw (append-nil bytes) (
        Leaves-Holds i bytes _ (
          Holds-Stands i bytes s m _ v p
            (run-Kept (Stands i m) (λ j. j ≢ i) (Stands-Keeps i m) os h' state s allowed there)))

  run-Leaves :
      (h' : Handler) (state : ℕ)
      → Returns
          (Leaves i (bytes ++ handler_in os i h' state s) (handler_out os i h' state s))
          (run os h' state s)
  unfolding run handler_in handler_out
  run-Leaves (relays a k b j conn) state = run_relays-Leaves os i a k b j conn state bytes s h
  run-Leaves h' state = quiet-Leaves h' state tt

  handle-Leaves :
      (fd state : ℕ)
      → Returns
          (Leaves i (bytes ++ event_in os i fd state s) (event_out os i fd state s))
          (handle os fd state s)
  unfolding handle event_in event_out
  handle-Leaves fd state = elim (Option-cases (find_handler fd s.handlers)) [
    | inl e ↦ rw (handle, event_in, event_out, e) (bytes, h, append-nil bytes)
    | inr (h', e) ↦ rw (handle, event_in, event_out, e) (run-Leaves h' state)
  ]

-- In a run of the server from a state with the message `i` well formed and without bytes, whatever
-- events come and whatever the system answers: the message stays well formed, and the bytes that
-- the kernel gave to the run's calls of `relay_in` for the message are, in order, the bytes that it
-- took from the run's calls of `relay_out`, with what the message holds behind them.
pub Reaches-Tunnel :
    {s s' : ProxyServer} (i : ℕ)
    → Holds i [] s
    → (r : Reaches s s') → (bytes : Bytes) × Holds i bytes s' × (input i r ≡ output i r ++ bytes)
unfolding input output
Reaches-Tunnel i h start = ([], h, refl)
Reaches-Tunnel i h (threads resolver r) = Reaches-Tunnel i h r
Reaches-Tunnel i h (event {s1 = s1} os fd state r e) =
    let (bytes, holds, order) = Reaches-Tunnel i h r in
    let (left, after, split) = subst (Returns _) e (handle-Leaves os i bytes s1 holds fd state) in
    (
      left,
      after,
      ap (λ (x : Bytes). x ++ event_in os i fd state s1) order
          ∙ append_assoc (output i r) bytes (event_in os i fd state s1)
          ∙ ap (λ (x : Bytes). output i r ++ x) split
          ∙ sym (append_assoc (output i r) (event_out os i fd state s1) left),
    )
