-- ===== src/ProxyServer/Linked/Moves.antt =====
-- What the operations on elements keep: assignment and activity.
use proxi.Base.{
  ℕ, ◌≡◌, refl, sym, ◌∙◌, subst, List, some, ok, Returns, Returns-bind, Returns-each, Returns-any,
  arith,
}
use proxi.EpollQueue.Timer.{find_connection}
use proxi.EpollQueue.{EpollElem, Connection, find_socket, set_active_socket, set_active_connection}
use proxi.ProxyServer.Elems.{put_elem, socket_at, connection_at, elem_at, set_active}
use proxi.ProxyServer.Linked.Finds.{find-id}
use proxi.ProxyServer.Linked.Places.{
  put_socket-Same, put_connection-Same, set_active_socket-Same, set_active_connection-Same,
}
use proxi.ProxyServer.Linked.Shapes.{Same, Same-Less, Less-Shape, Handled-move}
use proxi.ProxyServer.Linked.{fd_at, frame, Handled, LinkedBut}
use proxi.ProxyServer.{
  ProxyServer, Place, Owner, at_socket, client_of, server_of, socket, connection,
}

-- A state with the same descriptors at the same places and the same handlers.
pub record Alike (s s' : ProxyServer) : Type 0 where
  pub same : Same s.queue s'.queue
  pub handlers : s'.handlers ≡ s.handlers
  pub kept : frame s' ≡ frame s

pub Alike-LinkedBut :
    (l : List ℕ) (s s' : ProxyServer) → Alike s s' → LinkedBut l s → LinkedBut l s'
Alike-LinkedBut l s s' a (shape, handled) =
    let moved =
      Handled-move l l (frame s) s.queue s'.queue s.handlers (λ fd out. out)
        (λ fd p n out e. a.same.places p ∙ e) handled in
    (
      Less-Shape s.queue s'.queue (Same-Less s.queue s'.queue a.same) shape,
      subst (λ r. Handled l r s'.queue s'.handlers) (sym a.kept)
          (subst (Handled l (frame s) s'.queue) (sym a.handlers) moved),
    )

pub socket_at-ok :
    (k : ℕ) (s : ProxyServer) (e : EpollElem)
    → socket_at k s ≡ ok e
    → find_socket k s.queue.sockets ≡ some e
unfolding socket_at
socket_at-ok k s e h = ground (arith, h)

pub connection_at-ok :
    (id : ℕ) (s : ProxyServer) (c : Connection)
    → connection_at id s ≡ ok c
    → find_connection id s.queue.connections ≡ some c
unfolding connection_at
connection_at-ok id s c h = ground (arith, h)

pub elem_at-ok :
    (p : Place) (s : ProxyServer) (e : EpollElem) → elem_at p s ≡ ok e → fd_at p s.queue ≡ some e.fd
unfolding elem_at socket_at connection_at
elem_at-ok (at_socket k) s e h = ground (arith, h)
elem_at-ok (client_of id) s e h = ground (arith, h)
elem_at-ok (server_of id) s e h = ground (arith, h)

pub own :
    (id : ℕ) (c : Connection) (s : ProxyServer)
    → find_connection id s.queue.connections ≡ some c
    → find_connection c.id s.queue.connections ≡ some c
own id c s there =
    subst (λ k. find_connection k s.queue.connections ≡ some c)
      (sym (find-id id c s.queue.connections there)) there

pub put_elem-Alike :
    (p : Place) (e old : EpollElem) (s : ProxyServer)
    → elem_at p s ≡ ok old
    → e.fd ≡ old.fd
    → Returns (Alike s) (put_elem p e s)
unfolding put_elem
put_elem-Alike (at_socket k) e old s h same =
    Returns-bind (λ d. find_socket k s.queue.sockets ≡ some d) _ (socket_at k s) _
      (Returns-each _ (socket_at k s) (λ d. socket_at-ok k s d))
      (λ d there.
        let same' : e.fd ≡ d.fd = grind (arith, elem_at-ok (at_socket k) s old h, there, same) in
        record { same = put_socket-Same s.queue k e d there same'; handlers = refl; kept = refl })
put_elem-Alike (client_of id) e old s h same =
    Returns-bind (λ c. find_connection id s.queue.connections ≡ some c) _ (connection_at id s) _
      (Returns-each _ (connection_at id s) (λ c. connection_at-ok id s c))
      (λ c there.
        let same' : e.fd ≡ c.client.fd =
          grind (arith, elem_at-ok (client_of id) s old h, there, same) in
        record {
          same =
              put_connection-Same s.queue (record c { client = e }) c (own id c s there) same' refl;
          handlers = refl;
          kept = refl;
        })
put_elem-Alike (server_of id) e old s h same =
    Returns-bind (λ c. find_connection id s.queue.connections ≡ some c) _ (connection_at id s) _
      (Returns-each _ (connection_at id s) (λ c. connection_at-ok id s c))
      (λ c there.
        let same' : e.fd ≡ c.server.fd =
          grind (arith, elem_at-ok (server_of id) s old h, there, same) in
        record {
          same =
              put_connection-Same s.queue (record c { server = e }) c (own id c s there) refl same';
          handlers = refl;
          kept = refl;
        })

pub set_active-LinkedBut :
    (l : List ℕ) (it : Owner) (s : ProxyServer)
    → LinkedBut l s
    → Returns (LinkedBut l) (set_active it s)
unfolding set_active
set_active-LinkedBut l (socket k) s h =
    Returns-bind (λ e. Unit {0}) _ (socket_at k s) _ (Returns-any _)
      λ e u.
        Alike-LinkedBut l s (record s { queue = set_active_socket s.queue k })
          (record { same = set_active_socket-Same s.queue k; handlers = refl; kept = refl }) h
set_active-LinkedBut l (connection id) s h =
    Returns-bind (λ e. Unit {0}) _ (connection_at id s) _ (Returns-any _)
      λ e u.
        Alike-LinkedBut l s (record s { queue = set_active_connection s.queue id })
          (record { same = set_active_connection-Same s.queue id; handlers = refl; kept = refl }) h
