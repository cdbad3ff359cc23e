-- ===== src/ProxyServer/Linked/Keys.antt =====
-- The operations on the two containers of elements keep their keys distinct.
use proxi.Base.{ℕ, ◌≡◌, ◌≢◌, refl, List, [], ◌∷◌, ◌++◌, none, arith}
use proxi.EpollQueue.Timer.{KeysDiffer, IdsDiffer, find_connection}
use proxi.EpollQueue.{
  EpollElem, Connection, find_socket, insert_socket, erase_socket, erase_connection, touch_sockets,
  touch_connections,
}
use proxi.ProxyServer.Elems.{put_socket, put_connection}

module _ (k : ℕ) where
  -- A key that is not there is not there behind an operation.
  put_absent :
      (j : ℕ) (e : EpollElem) (l : List (ℕ × EpollElem))
      → find_socket j l ≡ none
      → find_socket j (put_socket k e l) ≡ none
  unfolding find_socket put_socket
  put_absent j e [] h = refl
  put_absent j e ((i, d) ∷ l) h = ground (arith, put_absent j e l)

  pub put_socket-KeysDiffer :
      (e : EpollElem) (l : List (ℕ × EpollElem)) → KeysDiffer l → KeysDiffer (put_socket k e l)
  unfolding put_socket
  put_socket-KeysDiffer e [] h = tt
  put_socket-KeysDiffer e ((i, d) ∷ l) h =
      ground (arith, h.0, put_absent i e l, put_socket-KeysDiffer e l h.1)

  insert_absent :
      (j : ℕ) (e : EpollElem) (l : List (ℕ × EpollElem))
      → k ≢ j
      → find_socket j l ≡ none
      → find_socket j (insert_socket k e l) ≡ none
  unfolding find_socket insert_socket
  insert_absent j e [] n h = ground arith
  insert_absent j e ((i, d) ∷ l) n h = ground (arith, insert_absent j e l n)

  pub insert_socket-KeysDiffer :
      (e : EpollElem) (l : List (ℕ × EpollElem)) → KeysDiffer l → KeysDiffer (insert_socket k e l)
  unfolding insert_socket find_socket
  insert_socket-KeysDiffer e [] h = (refl, tt)
  insert_socket-KeysDiffer e ((i, d) ∷ l) h =
      ground (arith, h.0, insert_absent i e l, insert_socket-KeysDiffer e l h.1)

  erase_absent :
      (j : ℕ) (l : List (ℕ × EpollElem))
      → find_socket j l ≡ none
      → find_socket j (erase_socket k l) ≡ none
  unfolding find_socket erase_socket
  erase_absent j [] h = refl
  erase_absent j ((i, d) ∷ l) h = ground (arith, erase_absent j l)

  pub erase_socket-KeysDiffer :
      (l : List (ℕ × EpollElem)) → KeysDiffer l → KeysDiffer (erase_socket k l)
  unfolding erase_socket
  erase_socket-KeysDiffer [] h = tt
  erase_socket-KeysDiffer ((i, d) ∷ l) h =
      ground (arith, h.0, h.1, erase_absent i l, erase_socket-KeysDiffer l h.1)

  touch_absent :
      (ticks j : ℕ) (l : List (ℕ × EpollElem))
      → find_socket j l ≡ none
      → find_socket j (touch_sockets ticks k l) ≡ none
  unfolding find_socket touch_sockets
  touch_absent ticks j [] h = refl
  touch_absent ticks j ((i, d) ∷ l) h = ground (arith, touch_absent ticks j l)

  pub touch_sockets-KeysDiffer :
      (ticks : ℕ) (l : List (ℕ × EpollElem)) → KeysDiffer l → KeysDiffer (touch_sockets ticks k l)
  unfolding touch_sockets
  touch_sockets-KeysDiffer ticks [] h = tt
  touch_sockets-KeysDiffer ticks ((i, d) ∷ l) h =
      ground (arith, h.0, h.1, touch_absent ticks i l, touch_sockets-KeysDiffer ticks l h.1)

  erase_absent_id :
      (j : ℕ) (l : List Connection)
      → find_connection j l ≡ none
      → find_connection j (erase_connection k l) ≡ none
  unfolding find_connection erase_connection
  erase_absent_id j [] h = refl
  erase_absent_id j (d ∷ l) h = ground (arith, erase_absent_id j l)

  pub erase_connection-IdsDiffer :
      (l : List Connection) → IdsDiffer l → IdsDiffer (erase_connection k l)
  unfolding erase_connection
  erase_connection-IdsDiffer [] h = tt
  erase_connection-IdsDiffer (d ∷ l) h =
      ground (arith, h.0, h.1, erase_absent_id d.id l, erase_connection-IdsDiffer l h.1)

  touch_absent_id :
      (ticks j : ℕ) (l : List Connection)
      → find_connection j l ≡ none
      → find_connection j (touch_connections ticks k l) ≡ none
  unfolding find_connection touch_connections
  touch_absent_id ticks j [] h = refl
  touch_absent_id ticks j (d ∷ l) h = ground (arith, touch_absent_id ticks j l)

  pub touch_connections-IdsDiffer :
      (ticks : ℕ) (l : List Connection) → IdsDiffer l → IdsDiffer (touch_connections ticks k l)
  unfolding touch_connections
  touch_connections-IdsDiffer ticks [] h = tt
  touch_connections-IdsDiffer ticks (d ∷ l) h =
      ground
        (arith, h.0, h.1, touch_absent_id ticks d.id l, touch_connections-IdsDiffer ticks l h.1)

module _ (c : Connection) where
  put_absent_id :
      (j : ℕ) (l : List Connection)
      → find_connection j l ≡ none
      → find_connection j (put_connection c l) ≡ none
  unfolding find_connection put_connection
  put_absent_id j [] h = refl
  put_absent_id j (d ∷ l) h = ground (arith, put_absent_id j l)

  pub put_connection-IdsDiffer :
      (l : List Connection) → IdsDiffer l → IdsDiffer (put_connection c l)
  unfolding put_connection
  put_connection-IdsDiffer [] h = tt
  put_connection-IdsDiffer (d ∷ l) h =
      ground (arith, h.0, h.1, put_absent_id d.id l, put_connection-IdsDiffer l h.1)

  append_absent :
      (j : ℕ) (l : List Connection)
      → c.id ≢ j
      → find_connection j l ≡ none
      → find_connection j (l ++ c ∷ []) ≡ none
  unfolding find_connection
  append_absent j [] n h = ground arith
  append_absent j (d ∷ l) n h = ground (arith, append_absent j l n)

  pub append-IdsDiffer :
      (l : List Connection) → find_connection c.id l ≡ none → IdsDiffer l → IdsDiffer (l ++ c ∷ [])
  unfolding find_connection
  append-IdsDiffer [] n h = (refl, tt)
  append-IdsDiffer (d ∷ l) n h = ground (arith, h.0, h.1, append_absent d.id l, append-IdsDiffer l)
