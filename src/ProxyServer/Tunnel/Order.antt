-- ===== src/ProxyServer/Tunnel/Order.antt =====
-- What the handler of `make_connect_transfer_handler` takes into a message and gives out of it, in
-- the order of its calls.
use native.Mathlib.Decide.{ℕ_discrete}
use proxi.Base.{
  ℕ, ◌≡◌, ◌≢◌, refl, sym, subst, [], ◌∷◌, ◌++◌, Outcome-cases, none, some, Bool, true, false,
  Outcome, ok, fault, ◌>>=◌, Returns, arith, append-nil, get_elem?, ◌==◌, eq→==, ne→==, Bool-cases,
  inl, inr,
}
use proxi.EpollQueue.{EpollElem}
use proxi.FdState.{in_state, out_state, rdhup_state}
use proxi.ProxyServer.Connecting.{has_event}
use proxi.ProxyServer.Elems.{elem_at, set_active, close}
use proxi.ProxyServer.Kept.{set_active-Kept, close-Kept}
use proxi.ProxyServer.Kept.Events.{relay_in-Kept, relay_out-Kept}
use proxi.ProxyServer.Transfers.{message_at, relay_in, relay_out, run_relays}
use proxi.ProxyServer.Tunnel.Stands.{Stands, Stands-Keeps}
use proxi.ProxyServer.{ProxyServer, Os, Place, connection}
use proxi.RawMessage
use proxi.RawMessage.Relay.{IsValid, pending}
use proxi.RawMessage.{RawMessage}
use proxi.Text.{Bytes}
use proxi.ProxyServer.Tunnel.{Holds, bytes_in, bytes_out, relay_in_lem, relay_out_lem}

-- Bytes that pass under a condition.
abbrev pub when : Bool → Bytes → Bytes
when true bytes = bytes
when false bytes = []

-- The bytes that the kernel gives to a call of `relay_in` on the message `i`, and those that it
-- takes from a call of `relay_out`.
unfoldable pub taken_in : Os → Place → ℕ → ProxyServer → Bytes
taken_in os a i s = elim (elem_at a s) [
  | fault x ↦ []
  | ok e ↦ elim (get_elem? s.raws i) [ none ↦ [] | some m ↦ bytes_in os e.fd m ]
]

unfoldable pub given_out : Os → Place → ℕ → ProxyServer → Bytes
given_out os a i s = elim (elem_at a s) [
  | fault x ↦ []
  | ok e ↦ elim (get_elem? s.raws i) [ none ↦ [] | some m ↦ bytes_out os e.fd m ]
]

-- What is left of the bytes of the message `i` behind those that went out.
abbrev pub Leaves : ℕ → Bytes → Bytes → ProxyServer → Type 0
Leaves i bytes gone s = (left : Bytes) × Holds i left s × (bytes ≡ gone ++ left)

module _ (i : ℕ) (bytes : Bytes) where
  pub Holds-Stands :
      (s : ProxyServer) (m : RawMessage) (o : Outcome ProxyServer)
      → IsValid m
      → pending m ≡ bytes
      → Returns (λ (s' : ProxyServer). get_elem? s'.raws i ≡ some m) o
      → Returns (Holds i bytes) o
  Holds-Stands s m (ok s') v p there = (m, there, v, p)
  Holds-Stands s m (fault x) v p there = tt

  pub Leaves-Holds :
      (o : Outcome ProxyServer) → Returns (Holds i bytes) o → Returns (Leaves i bytes []) o
  Leaves-Holds (ok s') h = (bytes, h, refl)
  Leaves-Holds (fault x) h = tt

module _ (os : Os) (i : ℕ) (bytes : Bytes) (a b : Place) (conn : ℕ) (s : ProxyServer)
    (h : Holds i bytes s) where
  relay_in_here : Returns (Holds i (bytes ++ taken_in os a i s)) (relay_in os a i b conn s)
  unfolding relay_in message_at taken_in
  relay_in_here = by_elem (elem_at a s) refl
    where
      by_elem :
          (o : Outcome EpollElem)
          → elem_at a s ≡ o
          → Returns (Holds i (bytes ++ taken_in os a i s)) (relay_in os a i b conn s)
      by_elem (ok e) at =
          let (m, there, v, p) = h in
          let same : taken_in os a i s ≡ bytes_in os e.fd m = grind (arith, at, there) in
          rw (same, sym p) (relay_in_lem os a i b conn e m s at there v)
      by_elem (fault x) at =
          let (m, there, v, p) = h in
          let none_taken : taken_in os a i s ≡ [] = grind (arith, at) in
          elim (Bool-cases (RawMessage.can_read m)) [
            | inl room ↦
                let done : relay_in os a i b conn s ≡ fault x = grind (arith, there, room, at) in
                rw done tt
            | inr full ↦
                let done : relay_in os a i b conn s ≡ ok s = grind (arith, there, full) in
                rw (done, none_taken, append-nil bytes) h
          ]

  relay_out_here : Returns (Leaves i bytes (given_out os a i s)) (relay_out os a i b conn s)
  unfolding relay_out message_at given_out
  relay_out_here = by_elem (elem_at a s) refl
    where
      by_elem :
          (o : Outcome EpollElem)
          → elem_at a s ≡ o
          → Returns (Leaves i bytes (given_out os a i s)) (relay_out os a i b conn s)
      by_elem (ok e) at =
          let (m, there, v, p) = h in
          let same : given_out os a i s ≡ bytes_out os e.fd m = grind (arith, at, there) in
          rw (same, sym p) (relay_out_lem os a i b conn e m s at there v)
      by_elem (fault x) at =
          let (m, there, v, p) = h in
          let none_given : given_out os a i s ≡ [] = grind (arith, at) in
          elim (Bool-cases (RawMessage.can_write m)) [
            | inl more ↦
                let done : relay_out os a i b conn s ≡ fault x = grind (arith, there, more, at) in
                rw done tt
            | inr idle ↦
                let done : relay_out os a i b conn s ≡ ok s = grind (arith, there, idle) in
                rw (done, none_given) (bytes, h, refl)
          ]

  -- The two calls at any message: those of another one take and give nothing.
  relay_in-Holds :
      (k : ℕ)
      → Returns (Holds i (bytes ++ when (k == i) (taken_in os a i s))) (relay_in os a k b conn s)
  relay_in-Holds k = elim (ℕ_discrete k i) [
    | yes same ↦ rw (eq→== k i same, same) relay_in_here
    | no differ ↦
        let (m, there, v, p) = h in
        rw (ne→== k i differ, append-nil bytes)
          (Holds-Stands i bytes s m _ v p (
            relay_in-Kept (Stands i m) (λ j. j ≢ i) (Stands-Keeps i m) os a k b conn s differ
              there))
  ]

  relay_out-Leaves :
      (k : ℕ)
      → Returns (Leaves i bytes (when (k == i) (given_out os a i s))) (relay_out os a k b conn s)
  relay_out-Leaves k = elim (ℕ_discrete k i) [
    | yes same ↦ rw (eq→== k i same, same) relay_out_here
    | no differ ↦
        let (m, there, v, p) = h in
        rw (ne→== k i differ) (
          Leaves-Holds i bytes _ (
            Holds-Stands i bytes s m _ v p (
              relay_out-Kept (Stands i m) (λ j. j ≢ i) (Stands-Keeps i m) os a k b conn s differ
                there)))
  ]

  set_active-Holds : Returns (Holds i bytes) (set_active (connection conn) s)
  set_active-Holds =
      let (m, there, v, p) = h in
      Holds-Stands i bytes s m _ v p (set_active-Kept (Stands i m) os (connection conn) s there)

  close-Holds : Returns (Holds i bytes) (close os (connection conn) s)
  close-Holds =
      let (m, there, v, p) = h in
      Holds-Stands i bytes s m _ v p (close-Kept (Stands i m) os (connection conn) s there)

-- What an event brings into the message `i` and takes out of it: its handler reads into the
-- message `k`, if the event says so and the peer is there, and then writes from the message `j`.
module _ (os : Os) (i : ℕ) (a : Place) (k : ℕ) (b : Place) (j conn : ℕ) where
  abbrev reads : Bool → ProxyServer → Outcome ProxyServer
  reads event s = elim event [ true ↦ relay_in os a k b conn s | false ↦ ok s ]

  abbrev writes : Bool → ProxyServer → Outcome ProxyServer
  writes event s = elim event [ true ↦ relay_out os a j b conn s | false ↦ ok s ]

  abbrev read_bytes : Bool → ProxyServer → Bytes
  read_bytes event s = when event (when (k == i) (taken_in os a i s))

  abbrev written_bytes : Bool → Outcome ProxyServer → Bytes
  written_bytes event (ok s) = when event (when (j == i) (given_out os a i s))
  written_bytes event (fault x) = []

  unfoldable pub relayed_in : ℕ → ProxyServer → Bytes
  relayed_in state s = elim (set_active (connection conn) s) [
    | fault x ↦ []
    | ok s1 ↦ elim (has_event state (rdhup_state ∷ [])) [
      | true ↦ []
      | false ↦ read_bytes (has_event state (in_state ∷ [])) s1
    ]
  ]

  unfoldable pub relayed_out : ℕ → ProxyServer → Bytes
  relayed_out state s = elim (set_active (connection conn) s) [
    | fault x ↦ []
    | ok s1 ↦ elim (has_event state (rdhup_state ∷ [])) [
      | true ↦ []
      | false ↦
          written_bytes (has_event state (out_state ∷ []))
            (reads (has_event state (in_state ∷ [])) s1)
    ]
  ]

  reads-Holds :
      (event : Bool) (bytes : Bytes) (s : ProxyServer)
      → Holds i bytes s
      → Returns (Holds i (bytes ++ read_bytes event s)) (reads event s)
  reads-Holds true bytes s h = relay_in-Holds os i bytes a b conn s h k
  reads-Holds false bytes s h = rw (append-nil bytes) h

  writes-Leaves :
      (event : Bool) (bytes : Bytes) (o : Outcome ProxyServer)
      → Returns (Holds i bytes) o
      → Returns (Leaves i bytes (written_bytes event o)) (o >>= λ s. writes event s)
  writes-Leaves true bytes (ok s) h = relay_out-Leaves os i bytes a b conn s h j
  writes-Leaves false bytes (ok s) h = (bytes, h, refl)
  writes-Leaves event bytes (fault x) h = tt

  -- What the message held and what came in are what went out, with what it holds behind it.
  pub run_relays-Leaves :
      (state : ℕ) (bytes : Bytes) (s : ProxyServer)
      → Holds i bytes s
      → Returns
          (Leaves i (bytes ++ relayed_in state s) (relayed_out state s))
          (run_relays os a k b j conn state s)
  unfolding run_relays relayed_in relayed_out
  run_relays-Leaves state bytes s h = elim (Outcome-cases (set_active (connection conn) s)) [
    | inr (x, e) ↦ rw e tt
    | inl (s1, e) ↦
        let h1 = subst (Returns (Holds i bytes)) e (set_active-Holds os i bytes a b conn s h) in
        elim (Bool-cases (has_event state (rdhup_state ∷ []))) [
          | inl gone ↦
              let none_in : relayed_in state s ≡ [] = rw (relayed_in, e, gone) refl in
              let none_out : relayed_out state s ≡ [] = rw (relayed_out, e, gone) refl in
              let closes : run_relays os a k b j conn state s ≡ close os (connection conn) s1 =
                rw (run_relays, e, gone) refl in
              rw (none_in, none_out, closes, append-nil bytes)
                (Leaves-Holds i bytes _ (close-Holds os i bytes a b conn s1 h1))
          | inr there ↦
              rw (run_relays, relayed_in, relayed_out, e, there)
                (writes-Leaves (has_event state (out_state ∷ [])) _ _
                  (reads-Holds (has_event state (in_state ∷ [])) bytes s1 h1))
        ]
  ]
