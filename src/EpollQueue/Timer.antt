-- ===== src/EpollQueue/Timer.antt =====
-- What the timer closes, and how fast its clock runs.
use proxi.Base.{
  ℕ, zero, suc, ◌+◌, ◌*◌, ◌^◌, ◌≤◌, ◌<◌, ◌≡◌, refl, ◌∙◌, ap, List, [], ◌∷◌, Option, none, some, leb,
  ◌==◌, if◌then◌else◌, arith, Bool-cases, inl, inr,
}
use proxi.EpollQueue.{
  EpollElem, Connection, EpollQueue, find_socket, sweep_sockets, sweep_connections, timer_handler,
}
use proxi.Text.{add64}

unfoldable pub find_connection : ℕ → List Connection → Option Connection
find_connection id [] = none
find_connection id (c ∷ l) = if c.id == id then some c else find_connection id l

abbrev pub KeysDiffer : List (ℕ × EpollElem) → Type 0
KeysDiffer [] = Unit {0}
KeysDiffer ((k, e) ∷ l) = (find_socket k l ≡ none) × KeysDiffer l

abbrev pub IdsDiffer : List Connection → Type 0
IdsDiffer [] = Unit {0}
IdsDiffer (c ∷ l) = (find_connection c.id l ≡ none) × IdsDiffer l

-- What stays of a result that is kept only until `ticks`.
abbrev pub until : ℕ → Option EpollElem → Option EpollElem
until ticks none = none
until ticks (some e) = if leb e.expires_in ticks then none else some e

abbrev pub until_connection : ℕ → Option Connection → Option Connection
until_connection ticks none = none
until_connection ticks (some c) = if leb c.expires_in ticks then none else some c

pub find-sweep_absent :
    (ticks fd : ℕ) (l : List (ℕ × EpollElem))
    → find_socket fd l ≡ none
    → find_socket fd (sweep_sockets ticks l) ≡ none
unfolding find_socket sweep_sockets
find-sweep_absent ticks fd [] h = refl
find-sweep_absent ticks fd ((k, e) ∷ l) h = ground (arith, find-sweep_absent ticks fd l)

-- The sweep takes a socket out exactly if its time is over.
pub find-sweep_sockets :
    (ticks fd : ℕ) (l : List (ℕ × EpollElem))
    → KeysDiffer l
    → find_socket fd (sweep_sockets ticks l) ≡ until ticks (find_socket fd l)
unfolding find_socket sweep_sockets
find-sweep_sockets ticks fd [] d = refl
find-sweep_sockets ticks fd ((k, e) ∷ l) d =
    ground (arith, d.0, find-sweep_absent ticks k l, find-sweep_sockets ticks fd l d.1)

find-sweep_absent_connection :
    (ticks id : ℕ) (l : List Connection)
    → find_connection id l ≡ none
    → find_connection id (sweep_connections ticks l) ≡ none
unfolding find_connection sweep_connections
find-sweep_absent_connection ticks id [] h = refl
find-sweep_absent_connection ticks id (c ∷ l) h =
    ground (arith, find-sweep_absent_connection ticks id l)

pub find-sweep_connections :
    (ticks id : ℕ) (l : List Connection)
    → IdsDiffer l
    → find_connection id (sweep_connections ticks l) ≡ until_connection ticks (find_connection id l)
unfolding find_connection sweep_connections
find-sweep_connections ticks id [] d = refl
find-sweep_connections ticks id (c ∷ l) d =
    ground
      (arith, d.0, find-sweep_absent_connection ticks c.id l, find-sweep_connections ticks id l d.1)

-- One call of the timer's handler, where descriptors and connections are listed once and the
-- clock does not overflow: a socket stays exactly if it expires later than two units per tick
-- from now, a connection exactly if it expires later than three, and the clock has then gone
-- on by three units per tick, though a tick is an interval of two.
pub timer_handler_lem :
    (ticked : ℕ) (q : EpollQueue)
    → KeysDiffer q.sockets
    → IdsDiffer q.connections
    → q.ticks + 3 * ticked < 2 ^ 64
    → let q' = timer_handler ticked q in
      (q'.ticks ≡ q.ticks + 3 * ticked)
      × ((fd : ℕ)
          → find_socket fd q'.sockets ≡ until (q.ticks + 2 * ticked) (find_socket fd q.sockets))
      × ((id : ℕ)
          → find_connection id q'.connections
            ≡ until_connection (q.ticks + 3 * ticked) (find_connection id q.connections))
unfolding timer_handler
timer_handler_lem ticked q k d room =
    let first : add64 q.ticks (ticked * 2) ≡ q.ticks + 2 * ticked = omega arith in
    let second : add64 (add64 q.ticks (ticked * 2)) ticked ≡ q.ticks + 3 * ticked = omega arith in
    (
      second,
      λ fd. rw first (find-sweep_sockets (q.ticks + 2 * ticked) fd q.sockets k),
      λ id. rw second (find-sweep_connections (q.ticks + 3 * ticked) id q.connections d),
    )

pub sweep_connections-IdsDiffer :
    (ticks : ℕ) (l : List Connection) → IdsDiffer l → IdsDiffer (sweep_connections ticks l)
unfolding sweep_connections
sweep_connections-IdsDiffer ticks [] d = tt
sweep_connections-IdsDiffer ticks (c ∷ l) d = elim (Bool-cases (leb c.expires_in ticks)) [
  | inl out ↦ rw (sweep_connections, out) (sweep_connections-IdsDiffer ticks l d.1)
  | inr stays ↦
      rw (sweep_connections, stays)
        (find-sweep_absent_connection ticks c.id l d.0, sweep_connections-IdsDiffer ticks l d.1)
]

until_twice :
    (a b : ℕ) (o : Option Connection)
    → a ≤ b
    → until_connection b (until_connection a o) ≡ until_connection b o
until_twice a b none h = refl
until_twice a b (some c) h = ground arith

-- `n` calls of the handler, one for each tick, with no activity between them.
unfoldable pub idle : ℕ → EpollQueue → EpollQueue
idle zero q = q
idle (suc n) q = idle n (timer_handler 1 q)

clock-timer_handler :
    (q : EpollQueue) → q.ticks + 3 < 2 ^ 64 → (timer_handler 1 q).ticks ≡ q.ticks + 3
unfolding timer_handler
clock-timer_handler q room = omega arith

find-timer_handler :
    (q : EpollQueue) (id : ℕ)
    → IdsDiffer q.connections
    → q.ticks + 3 < 2 ^ 64
    → find_connection id (timer_handler 1 q).connections
      ≡ until_connection (q.ticks + 3) (find_connection id q.connections)
unfolding timer_handler
find-timer_handler q id d room =
    let clock : add64 (add64 q.ticks 2) 1 ≡ q.ticks + 3 = omega arith in
    rw clock (find-sweep_connections (q.ticks + 3) id q.connections d)

ids-timer_handler :
    (q : EpollQueue) → IdsDiffer q.connections → IdsDiffer (timer_handler 1 q).connections
unfolding timer_handler
ids-timer_handler q d = sweep_connections-IdsDiffer _ q.connections d

-- Where connections are listed once and the clock does not overflow, a connection that nothing
-- happens on is still there after `n + 1` ticks exactly if it expires later than `3 * (n + 1)`
-- units from now.
pub idle-find :
    (n : ℕ) (q : EpollQueue) (id : ℕ)
    → IdsDiffer q.connections
    → q.ticks + 3 * suc n < 2 ^ 64
    → find_connection id (idle (suc n) q).connections
      ≡ until_connection (q.ticks + 3 * suc n) (find_connection id q.connections)
unfolding idle
idle-find zero q id d room = find-timer_handler q id d room
idle-find (suc n) q id d room =
    let q' = timer_handler 1 q in
    let now : q.ticks + 3 < 2 ^ 64 = omega arith in
    let clock = clock-timer_handler q now in
    let still : q'.ticks + 3 * suc n ≡ q.ticks + 3 * suc (suc n) = omega arith in
    let later : q'.ticks + 3 * suc n < 2 ^ 64 = omega arith in
    let rest = idle-find n q' id (ids-timer_handler q d) later in
    let once = find-timer_handler q id d now in
    let twice =
      until_twice (q.ticks + 3) (q.ticks + 3 * suc (suc n)) (find_connection id q.connections)
        (omega arith) in
    rest
    ∙ ap (λ t. until_connection t (find_connection id q'.connections)) still
    ∙ ap (until_connection (q.ticks + 3 * suc (suc n))) once
    ∙ twice
