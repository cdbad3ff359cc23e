-- ===== src/ProxyServer/Linked/Finds.antt =====
-- What the operations on the two containers of elements and on the handlers let a search find.
use proxi.Base.{ℕ, ◌≡◌, refl, List, [], ◌∷◌, ◌++◌, Option, none, some, arith, ◌==◌, if◌then◌else◌}
use proxi.EpollCore.{find_handler, erase_handler}
use proxi.EpollQueue.Timer.{KeysDiffer, IdsDiffer, find_connection}
use proxi.EpollQueue.{
  EpollElem, Connection, find_socket, insert_socket, erase_socket, erase_connection, touch_sockets,
  touch_connections,
}
use proxi.ProxyServer.Elems.{put_socket, put_connection}

-- The descriptors of what a search finds.
abbrev pub fd_of : Option EpollElem → Option ℕ
fd_of none = none
fd_of (some e) = some e.fd

abbrev pub client_fd : Option Connection → Option ℕ
client_fd none = none
client_fd (some c) = some c.client.fd

abbrev pub server_fd : Option Connection → Option ℕ
server_fd none = none
server_fd (some c) = some c.server.fd

module _ (k k' : ℕ) where
  pub find-put_socket :
      (e old : EpollElem) (l : List (ℕ × EpollElem))
      → find_socket k l ≡ some old
      → find_socket k' (put_socket k e l) ≡ (if k' == k then some e else find_socket k' l)
  unfolding find_socket put_socket
  find-put_socket e old [] h = cc
  find-put_socket e old ((j, d) ∷ l) h = ground (arith, find-put_socket e old l)

  pub find-insert_socket :
      (e : EpollElem) (l : List (ℕ × EpollElem))
      → find_socket k l ≡ none
      → find_socket k' (insert_socket k e l) ≡ (if k' == k then some e else find_socket k' l)
  unfolding find_socket insert_socket
  find-insert_socket e [] h = ground arith
  find-insert_socket e ((j, d) ∷ l) h = ground (arith, find-insert_socket e l)

  pub find-erase_socket :
      (l : List (ℕ × EpollElem))
      → KeysDiffer l
      → find_socket k' (erase_socket k l) ≡ (if k' == k then none else find_socket k' l)
  unfolding find_socket erase_socket
  find-erase_socket [] h = ground arith
  find-erase_socket ((j, d) ∷ l) h = ground (arith, h.0, find-erase_socket l h.1)

  pub find-touch_sockets :
      (ticks : ℕ) (l : List (ℕ × EpollElem))
      → fd_of (find_socket k' (touch_sockets ticks k l)) ≡ fd_of (find_socket k' l)
  unfolding find_socket touch_sockets
  find-touch_sockets ticks [] = refl
  find-touch_sockets ticks ((j, d) ∷ l) = ground (arith, find-touch_sockets ticks l)

  pub find-erase_connection :
      (l : List Connection)
      → IdsDiffer l
      → find_connection k' (erase_connection k l) ≡ (if k' == k then none else find_connection k' l)
  unfolding find_connection erase_connection
  find-erase_connection [] h = ground arith
  find-erase_connection (d ∷ l) h = ground (arith, h.0, find-erase_connection l h.1)

  pub clients-touch_connections :
      (ticks : ℕ) (l : List Connection)
      → client_fd (find_connection k' (touch_connections ticks k l))
        ≡ client_fd (find_connection k' l)
  unfolding find_connection touch_connections
  clients-touch_connections ticks [] = refl
  clients-touch_connections ticks (d ∷ l) = ground (arith, clients-touch_connections ticks l)

  pub servers-touch_connections :
      (ticks : ℕ) (l : List Connection)
      → server_fd (find_connection k' (touch_connections ticks k l))
        ≡ server_fd (find_connection k' l)
  unfolding find_connection touch_connections
  servers-touch_connections ticks [] = refl
  servers-touch_connections ticks (d ∷ l) = ground (arith, servers-touch_connections ticks l)

  pub find-erase_handler :
      {H : Type 0} (l : List (ℕ × H))
      → find_handler k' (erase_handler k l) ≡ (if k' == k then none else find_handler k' l)
  unfolding find_handler erase_handler
  find-erase_handler [] = ground arith
  find-erase_handler ((j, d) ∷ l) = ground (arith, find-erase_handler l)

pub find-put_connection :
    (c old : Connection) (k' : ℕ) (l : List Connection)
    → find_connection c.id l ≡ some old
    → find_connection k' (put_connection c l)
      ≡ (if k' == c.id then some c else find_connection k' l)
unfolding find_connection put_connection
find-put_connection c old k' [] h = cc
find-put_connection c old k' (d ∷ l) h = ground (arith, find-put_connection c old k' l)

pub find-append_connection :
    (c : Connection) (k' : ℕ) (l : List Connection)
    → find_connection c.id l ≡ none
    → find_connection k' (l ++ c ∷ []) ≡ (if k' == c.id then some c else find_connection k' l)
unfolding find_connection
find-append_connection c k' [] h = ground arith
find-append_connection c k' (d ∷ l) h = ground (arith, find-append_connection c k' l)

pub find-id :
    (k : ℕ) (c : Connection) (l : List Connection) → find_connection k l ≡ some c → c.id ≡ k
unfolding find_connection
find-id k c [] h = cc
find-id k c (d ∷ l) h = ground (arith, find-id k c l)
