-- ===== src/ProxyServer/Linked/Updates.antt =====
-- What updating an element and its handler keeps.
use proxi.Base.{
  ℕ, ◌≡◌, ◌≢◌, refl, sym, ◌∙◌, subst, List, [], ◌∷◌, some, ok, Returns, Returns-bind,
  Returns-either, Returns-each, Returns-any, Bool-cases, inl, inr, All,
}
use proxi.EpollCore.{Operation, ctl_mod}
use proxi.FdState
use proxi.ProxyServer.Elems.{put_elem, elem_at, control, update_state, update_handler, update}
use proxi.ProxyServer.Linked.Shapes.{Handled-set}
use proxi.ProxyServer.Linked.{
  Stored, fd_at, frame, place_of, Good, Coherent, LinkedBut, Linked, Frame,
}
use proxi.ProxyServer.{ProxyServer, Os, Place, Handler, at_socket}
use proxi.ProxyServer.Linked.Moves.{Alike, Alike-LinkedBut, elem_at-ok, put_elem-Alike}

-- A new handler for the element at a place, which may be the one that was exempted.
pub update_handler-LinkedBut :
    (l l' : List ℕ) (p : Place) (h : Handler) (s : ProxyServer)
    → LinkedBut l s
    → place_of (frame s) h ≡ some p
    → Coherent h
    → Stored (frame s) h
    → ((fd other : ℕ)
        → fd_at p s.queue ≡ some fd
        → other ≢ fd
        → All (λ x. other ≢ x) l'
        → All (λ x. other ≢ x) l)
    → Returns (LinkedBut l') (update_handler p h s)
unfolding update_handler
update_handler-LinkedBut l l' p h s (shape, handled) at fits stored less =
    Returns-bind (λ e. fd_at p s.queue ≡ some e.fd) _ (elem_at p s) _
      (Returns-each _ (elem_at p s) (λ e. elem_at-ok p s e))
      (λ e there.
        let good : Good (frame s) s.queue e.fd h = (rw at there, fits, stored) in
        (
          shape,
          Handled-set l l' e.fd h (frame s) s.queue s.handlers good (λ other. less e.fd other there)
              handled,
        ))

pub control-≡ :
    (os : Os) (op : Operation) (fd events : ℕ) (s : ProxyServer)
    → Returns (λ s'. s' ≡ s) (control os op fd events s)
unfolding control
control-≡ os op fd events s = elim (Bool-cases (os.epoll_ctl op fd events)) [
  | inl e ↦ rw (control, e) refl
  | inr e ↦ rw (control, e) tt
]

Alike-refl : (s : ProxyServer) → Alike s s
Alike-refl s = record {
  same = record { places = λ p. refl; keys = λ k. k; ids = λ k. k; fresh = refl };
  handlers = refl;
  kept = refl;
}

module _ (os : Os) where
  pub update_state-Alike :
      (p : Place) (state : ℕ) (s : ProxyServer) → Returns (Alike s) (update_state os p state s)
  unfolding update_state
  update_state-Alike p state s =
      Returns-bind (λ e. elem_at p s ≡ ok e) _ (elem_at p s) _
        (Returns-each _ (elem_at p s) (λ e e'. e'))
        (λ e there.
          Returns-either (Alike s) (FdState.ne e.events state) _ _
            (Returns-bind (Alike s) _ (put_elem p (record e { events = state }) s) _
              (put_elem-Alike p (record e { events = state }) e s there refl)
              (λ s' a. Returns-each _ (control os ctl_mod e.fd state s') (λ s'' runs.
                subst (Alike s)
                  (sym (subst (Returns (λ t. t ≡ s')) runs (control-≡ os ctl_mod e.fd state s')))
                  a)))
            (Alike-refl s))

  pub update_state-LinkedBut :
      (l : List ℕ) (p : Place) (state : ℕ) (s : ProxyServer)
      → LinkedBut l s
      → Returns (LinkedBut l) (update_state os p state s)
  update_state-LinkedBut l p state s h = Returns-each _ (update_state os p state s) (λ s' runs.
      Alike-LinkedBut l s s' (subst (Returns (Alike s)) runs (update_state-Alike p state s)) h)

  -- `update(state, handler)`, where the descriptor at the place is exempted, or no other one is.
  pub update-LinkedBut :
      (l l' : List ℕ) (p : Place) (state : ℕ) (h : Handler) (s : ProxyServer)
      → LinkedBut l s
      → ((r : Frame) → place_of r h ≡ some p)
      → Coherent h
      → Stored (frame s) h
      → ((fd other : ℕ)
          → fd_at p s.queue ≡ some fd
          → other ≢ fd
          → All (λ x. other ≢ x) l'
          → All (λ x. other ≢ x) l)
      → Returns (LinkedBut l') (update os p state h s)
  unfolding update
  update-LinkedBut l l' p state h s linked at fits stored less =
      Returns-bind (Alike s) _ (update_state os p state s) _ (update_state-Alike p state s) (λ s' a.
        update_handler-LinkedBut l l' p h s' (Alike-LinkedBut l s s' a linked) (at (frame s')) fits
          (subst (λ r. Stored r h) (sym a.kept) stored)
          (λ fd other there. less fd other (sym (a.same.places p) ∙ there)))

  pub update-Linked :
      (p : Place) (state : ℕ) (h : Handler) (s : ProxyServer)
      → Linked s
      → ((r : Frame) → place_of r h ≡ some p)
      → Coherent h
      → Stored (frame s) h
      → Returns Linked (update os p state h s)
  update-Linked p state h s linked at fits stored =
      update-LinkedBut [] [] p state h s linked at fits stored (λ fd other there n out. tt)

  update-frame :
      (p : Place) (state : ℕ) (h : Handler) (s : ProxyServer)
      → Returns (λ s'. frame s' ≡ frame s) (update os p state h s)
  unfolding update update_handler
  update-frame p state h s =
      Returns-bind (Alike s) _ (update_state os p state s) _ (update_state-Alike p state s)
        (λ s' a. Returns-bind (λ e. Unit {0}) _ (elem_at p s') _ (Returns-any _) (λ e u. a.kept))

  -- The same, with what it leaves of the messages.
  pub update-Linked-frame :
      (p : Place) (state : ℕ) (h : Handler) (s : ProxyServer)
      → Linked s
      → ((r : Frame) → place_of r h ≡ some p)
      → Coherent h
      → Stored (frame s) h
      → Returns (λ s'. Linked s' × (frame s' ≡ frame s)) (update os p state h s)
  update-Linked-frame p state h s linked at fits stored =
      Returns-each _ (update os p state h s) (λ s' runs. (
        subst (Returns Linked) runs (update-Linked p state h s linked at fits stored),
        subst (Returns (λ s'. frame s' ≡ frame s)) runs (update-frame p state h s),
      ))

  -- The handler of a socket that was exempted.
  pub update-settles :
      (k state : ℕ) (h : Handler) (s : ProxyServer)
      → LinkedBut (k ∷ []) s
      → ((r : Frame) → place_of r h ≡ some (at_socket k))
      → Coherent h
      → Stored (frame s) h
      → Returns Linked (update os (at_socket k) state h s)
  update-settles k state h s linked at fits stored =
      update-LinkedBut (k ∷ []) [] (at_socket k) state h s linked at fits stored
        (λ fd other there n out. (λ e. n (e ∙ sym (linked.0.keyed k fd there)), tt))
