-- ===== src/Tests/Queues.antt =====
-- The results on the timer and on sets of states.
use proxi.Base.{ℕ, ◌≡◌, refl, [], ◌∷◌, arith}
use proxi.EpollQueue.{EpollElem, EpollQueue, find_socket, timer_handler}
use proxi.EpollQueue.Timer.{
  find_connection, until, until_connection, timer_handler_lem, idle, idle-find,
}

abbrev client : EpollElem
client = record { fd = 5; events = 1; timeout = 240; expires_in = 241 }

abbrev server : EpollElem
server = record { fd = 6; events = 4; timeout = 240; expires_in = 240 }

abbrev queue : EpollQueue
queue = record {
  connections =
      record { id = 0; client = client; server = server; timeout = 10; expires_in = 16 }
      ∷ record { id = 1; client = client; server = server; timeout = 20; expires_in = 26 }
      ∷ [];
  sockets = (5, client) ∷ (6, server) ∷ [];
  ticks = 10;
  fresh = 2;
}

timer_handler_lem_example :
    let q' = timer_handler 2 queue in
    (q'.ticks ≡ 16)
    × ((fd : ℕ) → find_socket fd q'.sockets ≡ until 14 (find_socket fd queue.sockets))
    × ((id : ℕ)
        → find_connection id q'.connections
          ≡ until_connection 16 (find_connection id queue.connections))
unfolding find_socket find_connection
timer_handler_lem_example =
    timer_handler_lem 2 queue (refl, (refl, tt)) (refl, (refl, tt)) (omega arith)

idle-find_example :
    find_connection 1 (idle 4 queue).connections
    ≡ until_connection 22 (find_connection 1 queue.connections)
unfolding find_connection
idle-find_example = idle-find 3 queue 1 (refl, (refl, tt)) (omega arith)
