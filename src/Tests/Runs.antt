-- ===== src/Tests/Runs.antt =====
-- The result on the places of handlers at a run of a constructed server: a client comes, a thread
-- of the resolver runs, and the client leaves.
use proxi.Base.{ℕ, ◌≡◌, refl, [], ◌∷◌, some, Outcome, ok, fault, arith}
use proxi.EpollQueue.{find_socket}
use proxi.EpollQueue.Timer.{find_connection}
use proxi.FdState.{in_state, rdhup_state}
use proxi.ProxyServer.Elems.{states}
use proxi.ProxyServer.Handlers.{handle}
use proxi.ProxyServer.Linked.{Linked, Gives, Nowhere}
use proxi.ProxyServer.Linked.Runs.{Reaches-Linked}
use proxi.ProxyServer.Reaches.{Reaches}
use proxi.ProxyServer.Serving.{ready, construct-ready}
use proxi.ProxyServer.Startup.{blank}
use proxi.ProxyServer.{ProxyServer, Os, Place, at_socket, client_of, server_of}
use proxi.Tests.Starts.{boot, start, works}

abbrev made : ProxyServer
made =
    ready start boot 8080 200 4 5 6 7 works (omega arith) (omega arith) (omega arith) (omega arith)
      (omega arith)

-- The system while the client 9 comes, and while it leaves.
abbrev comes : Os
comes = record start { accept4 = λ fd. some 9 }

abbrev leaves : Os
leaves = record start { available = λ fd. some 0 }

abbrev after : Outcome ProxyServer → ProxyServer
after (ok s) = s
after (fault x) = blank

abbrev with_client : ProxyServer
with_client = after (handle comes 6 (states (in_state ∷ [])) made)

abbrev without_client : ProxyServer
without_client = after (handle leaves 9 (states (rdhup_state ∷ [])) with_client)

made-Gives : Gives comes made
unfolding find_socket find_connection blank
made-Gives = (λ listener fd e. nowhere fd e, λ fd e. absurd (cc))
  where
    nowhere : (fd : ℕ) → some 9 ≡ some fd → Nowhere fd made.queue
    nowhere fd e n (at_socket j) at = ground (arith, e, at)
    nowhere fd e n (client_of j) at = absurd (cc)
    nowhere fd e n (server_of j) at = absurd (cc)

with_client-Gives : Gives leaves with_client
with_client-Gives = (λ listener fd e. absurd (cc), λ fd e. absurd (cc))

Reaches-Linked_example : Linked without_client
unfolding handle proxi.EpollCore.find_handler proxi.ProxyServer.Handlers.run
    proxi.ProxyServer.Connecting.run_listens proxi.FdState.is proxi.FdState.value_of
    proxi.ProxyServer.Elems.socket_at find_socket proxi.ProxyServer.Connecting.save_client
    proxi.ProxyServer.Elems.control proxi.ProxyServer.Connecting.accept_client
    proxi.EpollQueue.save_socket proxi.EpollQueue.insert_socket proxi.ProxyServer.Elems.put_elem
    proxi.ProxyServer.Actions.read_request proxi.ProxyServer.Elems.update
    proxi.ProxyServer.Elems.update_state proxi.ProxyServer.Elems.elem_at proxi.FdState.ne
    proxi.EpollQueue.new_elem proxi.ProxyServer.Elems.update_handler
    proxi.ProxyServer.Elems.put_socket proxi.EpollCore.insert_handler proxi.EpollCore.erase_handler
    proxi.ProxyServer.Transfers.run_read proxi.ProxyServer.Elems.set_active
    proxi.ProxyServer.Transfers.is_gone proxi.ProxyServer.Elems.close
    proxi.EpollQueue.set_active_socket proxi.EpollQueue.touch_sockets
    proxi.ProxyServer.Elems.destroy
Reaches-Linked_example =
    Reaches-Linked start boot 8080 200 4 5 6 7 made without_client works (omega arith) (omega arith)
      (omega arith) (omega arith) (omega arith)
      (construct-ready start boot 8080 200 4 5 6 7 works (omega arith) (omega arith) (omega arith)
        (omega arith) (omega arith))
      (Reaches.event leaves 9 (states (rdhup_state ∷ []))
        (Reaches.event {s2 = with_client} comes 6 (states (in_state ∷ [])) Reaches.start refl) refl)
      ((tt, made-Gives, omega arith), with_client-Gives, omega arith)
