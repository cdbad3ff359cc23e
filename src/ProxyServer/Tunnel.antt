-- ===== src/ProxyServer/Tunnel.antt =====
-- The tunnel of a CONNECT request: a raw message that one end fills and the other end drains.
pub mod Order
pub mod Runs
pub mod Stands
use proxi.Base.{
  ℕ, zero, suc, ◌-◌, ◌≡◌, refl, sym, ◌∙◌, ap, subst, List, [], ◌∷◌, ◌++◌, Option, none, some, true,
  false, Outcome, ok, fault, annotated, ◌>>=◌, Returns, arith, append_assoc, append-nil, get_elem?,
  take, Option-cases, Bool-cases, inl, inr,
}
use proxi.EpollQueue.{EpollElem}
use proxi.FileDescriptor.{SysRead, SysWrite, read_fails, write_fails}
use proxi.ProxyServer.Elems.{elem_at, update_state, put_elem, control, close, destroy}
use proxi.ProxyServer.Transfers.{
  message_at, put_message, relay_in, relay_out, after_read, after_write,
}
use proxi.ProxyServer.{
  ProxyServer, Os, Place, Owner, at_socket, client_of, server_of, socket, connection,
}
use proxi.RawMessage
use proxi.RawMessage.Relay.{IsValid, pending, read_from_lem, write_to_lem}
use proxi.RawMessage.{RawMessage, buffer_length}
use proxi.Text.{Bytes, sub64}

-- What a call of the kernel gave, and what it took.
abbrev pub given : Option Bytes → Bytes
given none = []
given (some bytes) = bytes

abbrev pub taken : Option ℕ → Bytes → Bytes
taken none bytes = []
taken (some n) bytes = take n bytes

-- The bytes that one call reads into a message, and writes from it.
unfoldable pub bytes_in : Os → ℕ → RawMessage → Bytes
bytes_in os fd m = elim (RawMessage.can_read m) [
  | false ↦ []
  | true ↦ given ((os.read fd).answer (buffer_length - m.read_length))
]

unfoldable pub bytes_out : Os → ℕ → RawMessage → Bytes
bytes_out os fd m = elim (RawMessage.can_write m) [
  | false ↦ []
  | true ↦ taken ((os.write fd).answer (pending m)) (pending m)
]

abbrev pub SameRaws : ProxyServer → ProxyServer → Type 0
SameRaws s s' = s'.raws ≡ s.raws

update_state-SameRaws :
    (os : Os) (p : Place) (state : ℕ) (s : ProxyServer)
    → Returns (SameRaws s) (update_state os p state s)
unfolding update_state put_elem control
update_state-SameRaws os (at_socket fd) state s = ground arith
update_state-SameRaws os (client_of id) state s = ground arith
update_state-SameRaws os (server_of id) state s = ground arith

after_read-SameRaws :
    (os : Os) (a b : Place) (m : RawMessage) (s : ProxyServer)
    → Returns (SameRaws s) (after_read os a b m s)
unfolding after_read
after_read-SameRaws os a b m s = grind (arith, update_state-SameRaws)

after_write-SameRaws :
    (os : Os) (a b : Place) (m : RawMessage) (s : ProxyServer)
    → Returns (SameRaws s) (after_write os a b m s)
unfolding after_write
after_write-SameRaws os a b m s = grind (arith, update_state-SameRaws)

close-SameRaws : (os : Os) (it : Owner) (s : ProxyServer) → Returns (SameRaws s) (close os it s)
unfolding close destroy
close-SameRaws os (socket fd) s = ground arith
close-SameRaws os (connection id) s = ground arith

get-put_message :
    (i : ℕ) (m m' : RawMessage) (l : List RawMessage)
    → get_elem? l i ≡ some m
    → get_elem? (put_message i m' l) i ≡ some m'
unfolding put_message
get-put_message i m m' [] e = cc
get-put_message zero m m' (a ∷ l) e = refl
get-put_message (suc i) m m' (a ∷ l) e = get-put_message i m m' l e

-- A message and what it holds.
abbrev pub Holds : ℕ → Bytes → ProxyServer → Type 0
Holds i bytes s = (m : RawMessage) × (get_elem? s.raws i ≡ some m) × IsValid m × (pending m ≡ bytes)

read_from-none :
    (kernel : SysRead) (m : RawMessage)
    → IsValid m
    → kernel.answer (buffer_length - m.read_length) ≡ none
    → RawMessage.read_from kernel m ≡ fault annotated
unfolding RawMessage.read_from
read_from-none kernel m v e =
    let asked : sub64 buffer_length m.read_length ≡ buffer_length - m.read_length = omega arith in
    rw (asked, read_fails kernel (buffer_length - m.read_length) e) refl

write_to-none :
    (kernel : SysWrite) (m : RawMessage)
    → IsValid m
    → kernel.answer (pending m) ≡ none
    → RawMessage.write_to kernel m ≡ fault annotated
unfolding RawMessage.write_to
write_to-none kernel m v e =
    let size : sub64 m.read_length m.write_length ≡ m.read_length - m.write_length = omega arith in
    rw (size, write_fails kernel (pending m) e) refl

Holds-SameRaws :
    (i : ℕ) (m : RawMessage) (bytes : Bytes) (s : ProxyServer) (o : Outcome ProxyServer)
    → get_elem? s.raws i ≡ some m
    → IsValid m
    → pending m ≡ bytes
    → Returns (SameRaws s) o
    → Returns (Holds i bytes) o
Holds-SameRaws i m bytes s (ok s') there v p same =
    (m, ap (λ (l : List RawMessage). get_elem? l i) same ∙ there, v, p)
Holds-SameRaws i m bytes s (fault x) there v p same = tt

Holds-left :
    (i : ℕ) (m : RawMessage) (s : ProxyServer) (o : Outcome ProxyServer) (bytes gone : Bytes)
    → get_elem? s.raws i ≡ some m
    → IsValid m
    → bytes ≡ gone ++ pending m
    → Returns (SameRaws s) o
    → Returns (λ s'. (left : Bytes) × Holds i left s' × (bytes ≡ gone ++ left)) o
Holds-left i m s (ok s') bytes gone there v p same =
    (pending m, (m, ap (λ (l : List RawMessage). get_elem? l i) same ∙ there, v, refl), p)
Holds-left i m s (fault x) bytes gone there v p same = tt

close-then_read :
    (os : Os) (a b : Place) (conn : ℕ) (m : RawMessage) (s : ProxyServer)
    → Returns (SameRaws s) (close os (connection conn) s >>= λ s'. after_read os a b m s')
close-then_read os a b conn m s = grind (arith, close-SameRaws, after_read-SameRaws)

close-then_write :
    (os : Os) (a b : Place) (conn : ℕ) (m : RawMessage) (s : ProxyServer)
    → Returns (SameRaws s) (close os (connection conn) s >>= λ s'. after_write os a b m s')
close-then_write os a b conn m s = grind (arith, close-SameRaws, after_write-SameRaws)

module _ (os : Os) (a : Place) (i : ℕ) (b : Place) (conn : ℕ) (e : EpollElem) (m : RawMessage)
    (s : ProxyServer) (at : elem_at a s ≡ ok e) (there : get_elem? s.raws i ≡ some m)
    (v : IsValid m) where
  -- One end reads into the message.
  pub relay_in_lem : Returns (Holds i (pending m ++ bytes_in os e.fd m)) (relay_in os a i b conn s)
  unfolding relay_in bytes_in message_at
  relay_in_lem = elim (Bool-cases (RawMessage.can_read m)) [
    | inr full ↦
        let done : relay_in os a i b conn s ≡ ok s = grind (arith, there, full) in
        let nothing : bytes_in os e.fd m ≡ [] = grind (arith, full) in
        rw (done, nothing) (m, there, v, sym (append-nil (pending m)))
    | inl room ↦ elim (Option-cases ((os.read e.fd).answer (buffer_length - m.read_length))) [
      | inl none_given ↦
          let fails = read_from-none (os.read e.fd) m v none_given in
          let done : relay_in os a i b conn s
              ≡ (close os (connection conn) s >>= λ s'. after_read os a b m s') =
            grind (arith, there, room, at, fails) in
          let nothing : bytes_in os e.fd m ≡ [] = grind (arith, room, none_given) in
          rw (done, nothing)
            (Holds-SameRaws i m _ s _ there v (sym (append-nil (pending m)))
              (close-then_read os a b conn m s))
      | inr (bytes, answer) ↦
          let (m', runs, v', p') = read_from_lem (os.read e.fd) m bytes v answer in
          let s1 = record s { raws = put_message i m' s.raws } in
          let done : relay_in os a i b conn s ≡ after_read os a b m' s1 =
            grind (arith, there, room, at, runs) in
          let some_bytes : bytes_in os e.fd m ≡ bytes = grind (arith, room, answer) in
          rw (done, some_bytes)
            (Holds-SameRaws i m' (pending m ++ bytes) s1 (after_read os a b m' s1)
              (get-put_message i m m' s.raws there) v' p' (after_read-SameRaws os a b m' s1))
    ]
  ]

  -- The other end writes from it.
  pub relay_out_lem :
      Returns
        (λ s'. (left : Bytes) × Holds i left s' × (pending m ≡ bytes_out os e.fd m ++ left))
        (relay_out os a i b conn s)
  unfolding relay_out bytes_out message_at
  relay_out_lem = elim (Bool-cases (RawMessage.can_write m)) [
    | inr idle ↦
        let done : relay_out os a i b conn s ≡ ok s = grind (arith, there, idle) in
        let nothing : bytes_out os e.fd m ≡ [] = grind (arith, idle) in
        rw (done, nothing) (pending m, (m, there, v, refl), refl)
    | inl more ↦ elim (Option-cases ((os.write e.fd).answer (pending m))) [
      | inl none_taken ↦
          let fails = write_to-none (os.write e.fd) m v none_taken in
          let done : relay_out os a i b conn s
              ≡ (close os (connection conn) s >>= λ s'. after_write os a b m s') =
            grind (arith, there, more, at, fails) in
          let nothing : bytes_out os e.fd m ≡ [] = grind (arith, more, none_taken) in
          rw (done, nothing)
            (Holds-left i m s _ (pending m) [] there v refl (close-then_write os a b conn m s))
      | inr (n, answer) ↦
          let (m', runs, v', p') = write_to_lem (os.write e.fd) m n v answer in
          let s1 = record s { raws = put_message i m' s.raws } in
          let done : relay_out os a i b conn s ≡ after_write os a b m' s1 =
            grind (arith, there, more, at, runs) in
          let some_bytes : bytes_out os e.fd m ≡ take n (pending m) = grind (arith, more, answer) in
          rw (done, some_bytes)
            (Holds-left i m' s1 (after_write os a b m' s1) (pending m) (take n (pending m))
              (get-put_message i m m' s.raws there) v' p' (after_write-SameRaws os a b m' s1))
    ]
  ]
