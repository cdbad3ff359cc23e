-- ===== src/ProxyServer/Linked/Shapes.antt =====
-- What the operations on the two containers do to the places of descriptors.
use proxi.Base.{
  ℕ, ◌≡◌, ◌≢◌, refl, sym, ◌∙◌, ap, subst, List, ◌∷◌, Option, none, some, arith, ◌==◌, if◌then◌else◌,
  eq→==, ==_iff, false, Bool-cases, inl, inr, All,
}
use proxi.EpollCore.{find_handler, insert_handler, erase_handler, update_fd_handler}
use proxi.EpollCore.Dispatch.{find-update_fd_handler}
use proxi.EpollQueue.Timer.{KeysDiffer, IdsDiffer, find_connection}
use proxi.EpollQueue.{EpollQueue, Connection}
use proxi.ProxyServer.Linked.Finds.{client_fd, find-erase_handler}
use proxi.ProxyServer.Linked.{fd_at, Frame, place_of, Placed, Good, Shape, Handled}
use proxi.ProxyServer.{Place, Handler, at_socket, client_of}

client_none : (o : Option Connection) → client_fd o ≡ none → o ≡ none
client_none none e = refl
client_none (some c) e = cc

-- The same descriptors at the same places.
pub record Same (q q' : EpollQueue) : Type 0 where
  pub places : (p : Place) → fd_at p q' ≡ fd_at p q
  pub keys : KeysDiffer q.sockets → KeysDiffer q'.sockets
  pub ids : IdsDiffer q.connections → IdsDiffer q'.connections
  pub fresh : q'.fresh ≡ q.fresh

-- No new descriptors at places.
pub record Less (q q' : EpollQueue) : Type 0 where
  pub back : (p : Place) (fd : ℕ) → fd ≢ 0 → fd_at p q' ≡ some fd → fd_at p q ≡ some fd
  pub sockets : (k fd : ℕ) → fd_at (at_socket k) q' ≡ some fd → fd_at (at_socket k) q ≡ some fd
  pub keys : KeysDiffer q.sockets → KeysDiffer q'.sockets
  pub ids : IdsDiffer q.connections → IdsDiffer q'.connections
  pub unused :
      (id : ℕ) → find_connection id q.connections ≡ none → find_connection id q'.connections ≡ none
  pub fresh : q'.fresh ≡ q.fresh

pub Same-Less : (q q' : EpollQueue) → Same q q' → Less q q'
Same-Less q q' l = record {
  back = λ p fd n e. sym (l.places p) ∙ e;
  sockets = λ k fd e. sym (l.places (at_socket k)) ∙ e;
  keys = l.keys;
  ids = l.ids;
  unused = λ id e.
      client_none (find_connection id q'.connections) (l.places (client_of id) ∙ ap client_fd e);
  fresh = l.fresh;
}

pub Less-Shape : (q q' : EpollQueue) → Less q q' → Shape q → Shape q'
Less-Shape q q' l g = record {
  keys = l.keys g.keys;
  ids = l.ids g.ids;
  unused = λ id le. l.unused id (g.unused id (omega (arith, l.fresh)));
  keyed = λ k fd e. g.keyed k fd (l.sockets k fd e);
  unique = λ p p' fd n e f. g.unique p p' fd n (l.back p fd n e) (l.back p' fd n f);
}

-- Handlers stay good where every descriptor but those exempted stays at its place.
Placed-move :
    (o : Option Place) (fd : ℕ) (q q' : EpollQueue)
    → ((p : Place) → fd_at p q ≡ some fd → fd_at p q' ≡ some fd)
    → Placed o fd q
    → Placed o fd q'
Placed-move none fd q q' stay h = tt
Placed-move (some p) fd q q' stay h = stay p h

pub Handled-move :
    (l l' : List ℕ) (r : Frame) (q q' : EpollQueue) (handlers : List (ℕ × Handler))
    → ((fd : ℕ) → All (λ x. fd ≢ x) l' → All (λ x. fd ≢ x) l)
    → ((fd : ℕ) (p : Place)
        → fd ≢ 0
        → All (λ x. fd ≢ x) l'
        → fd_at p q ≡ some fd
        → fd_at p q' ≡ some fd)
    → Handled l r q handlers
    → Handled l' r q' handlers
Handled-move l l' r q q' handlers less stay h fd h' n out e =
    let (placed, coherent, stored) = h fd h' n (less fd out) e in
    (Placed-move (place_of r h') fd q q' (λ p. stay fd p n out) placed, coherent, stored)

find-set_handler :
    (fd other : ℕ) (h : Handler) (l : List (ℕ × Handler))
    → find_handler other (insert_handler fd h (erase_handler fd l))
      ≡ (if fd == other then some h else find_handler other l)
unfolding update_fd_handler
find-set_handler fd other h l =
    find-update_fd_handler {K = Unit {0}} fd other h
      (record { kernel = tt; handlers = l; started = false; stopped = false })

-- A new handler at a descriptor.
pub Handled-set :
    (l l' : List ℕ) (fd : ℕ) (h : Handler) (r : Frame) (q : EpollQueue)
    (handlers : List (ℕ × Handler))
    → Good r q fd h
    → ((other : ℕ) → other ≢ fd → All (λ x. other ≢ x) l' → All (λ x. other ≢ x) l)
    → Handled l r q handlers
    → Handled l' r q (insert_handler fd h (erase_handler fd handlers))
Handled-set l l' fd h r q handlers good less all other h' n out e =
    elim (Bool-cases (fd == other)) [
      | inl same ↦
          let here : fd ≡ other = (==_iff fd other).0 same in
          let was : h ≡ h' = grind (arith, find-set_handler fd other h handlers, e, same) in
          subst (λ k. Good r q k h') here (subst (Good r q fd) was good)
      | inr differ ↦
          let apart : other ≢ fd = λ e'. grind (arith, eq→== fd other (sym e'), differ) in
          let old : find_handler other handlers ≡ some h' =
            grind (arith, find-set_handler fd other h handlers, e, differ) in
          all other h' n (less other apart out) old
    ]

pub Handled-erase :
    (l : List ℕ) (fd : ℕ) (r : Frame) (q : EpollQueue) (handlers : List (ℕ × Handler))
    → Handled (fd ∷ l) r q handlers
    → Handled l r q (erase_handler fd handlers)
Handled-erase l fd r q handlers all other h' n out e = elim (Bool-cases (other == fd)) [
  | inl same ↦ absurd (grind (arith, find-erase_handler fd other handlers, e, same))
  | inr differ ↦
      let apart : other ≢ fd = λ e'. grind (arith, eq→== other fd e', differ) in
      let old : find_handler other handlers ≡ some h' =
        grind (arith, find-erase_handler fd other handlers, e, differ) in
      all other h' n (apart, out) old
]
