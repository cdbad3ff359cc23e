-- ===== src/ProxyServer/Linked/Ends.antt =====
-- What closing, saving, and moving a client out of its connection keep.
use proxi.Base.{
  ℕ, ◌≡◌, refl, sym, ◌∙◌, subst, List, [], ◌∷◌, some, ok, Returns, Returns-bind, Returns-each,
  Option-cases, Bool-cases, ◌==◌, inl, inr, ==_iff,
}
use proxi.EpollCore.{ctl_del}
use proxi.EpollQueue
use proxi.Text.{add64}
use proxi.EpollQueue.Timer.{find_connection}
use proxi.EpollQueue.{
  EpollElem, Connection, EpollQueue, find_socket, set_active_socket, set_active_connection,
  close_socket, close_connection, save_registration,
}
use proxi.ProxyServer.Elems.{
  put_elem, socket_at, connection_at, destroy, close, save_elem, take_client, escape_client,
}
use proxi.ProxyServer.Linked.News.{with_socket, with_socket-Shape, with_socket_stays}
use proxi.ProxyServer.Linked.Moves.{own, socket_at-ok, connection_at-ok}
use proxi.ProxyServer.Linked.Places.{
  close_socket-Less, close_socket_stays, close_connection-Less, close_connection_stays, without,
  without-Less, without_stays, without-Nowhere,
}
use proxi.ProxyServer.Linked.Shapes.{Less, Less-Shape, Handled-move, Handled-erase}
use proxi.ProxyServer.Linked.{frame, LinkedBut, Linked, Nowhere}
use proxi.ProxyServer.{ProxyServer, Os, Owner, socket, connection}

module _ (os : Os) where
  -- The destructor takes out the handler of its descriptor.
  pub destroy-LinkedBut :
      (l : List ℕ) (e : EpollElem) (s : ProxyServer)
      → LinkedBut (e.fd ∷ l) s
      → Returns (λ s'. LinkedBut l s' × (s'.queue ≡ s.queue)) (destroy os e s)
  unfolding destroy
  destroy-LinkedBut l e s (shape, handled) = elim (Bool-cases (e.fd == 0)) [
    | inl zero ↦
        let none_at = (==_iff e.fd 0).0 zero in
        rw (destroy, zero)
          ((shape, λ fd h n out. handled fd h n (λ same. n (same ∙ none_at), out)), refl)
    | inr some_at ↦ elim (Bool-cases (os.epoll_ctl ctl_del e.fd 0)) [
      | inl done ↦
          rw (destroy, some_at, done)
            ((shape, Handled-erase l e.fd (frame s) s.queue s.handlers handled), refl)
      | inr failed ↦ rw (destroy, some_at, failed) tt
    ]
  ]

  -- What is closed is gone, and no place gets a new descriptor.
  pub close-LinkedBut :
      (l : List ℕ) (it : Owner) (s : ProxyServer)
      → LinkedBut l s
      → Returns (λ s'. LinkedBut l s' × Less s.queue s'.queue) (close os it s)
  unfolding close
  close-LinkedBut l (socket k) s (shape, handled) =
      Returns-bind (λ e. find_socket k s.queue.sockets ≡ some e) _ (socket_at k s) _
        (Returns-each _ (socket_at k s) (λ e. socket_at-ok k s e))
        (λ e there.
          let s1 = record s { queue = close_socket s.queue k } in
          let less = close_socket-Less s.queue k shape in
          let moved =
            Handled-move l (e.fd ∷ l) (frame s) s.queue s1.queue s.handlers (λ fd out. out.1)
              (λ fd p n out at. close_socket_stays s.queue k e fd p shape there out.0 at) handled in
          Returns-each _ (destroy os e s1) (λ s' runs.
            let (linked, same) =
              subst (Returns (λ s'. LinkedBut l s' × (s'.queue ≡ s1.queue))) runs
                (destroy-LinkedBut l e s1 (Less-Shape s.queue s1.queue less shape, moved)) in
            (linked, subst (Less s.queue) (sym same) less)))
  close-LinkedBut l (connection id) s (shape, handled) =
      Returns-bind (λ c. find_connection id s.queue.connections ≡ some c) _ (connection_at id s) _
        (Returns-each _ (connection_at id s) (λ c. connection_at-ok id s c))
        (λ c there.
          let s1 = record s { queue = close_connection s.queue id } in
          let less = close_connection-Less s.queue id shape in
          let moved =
            Handled-move l (c.server.fd ∷ c.client.fd ∷ l) (frame s) s.queue s1.queue s.handlers
              (λ fd out. out.1.1)
              (λ fd p n out at.
                close_connection_stays s.queue id c fd p shape there out.0 out.1.0 at)
              handled in
          Returns-bind (λ s2. LinkedBut (c.client.fd ∷ l) s2 × (s2.queue ≡ s1.queue)) _
            (destroy os c.server s1) _
            (destroy-LinkedBut (c.client.fd ∷ l) c.server s1
              (Less-Shape s.queue s1.queue less shape, moved))
            (λ s2 (linked2, same2). Returns-each _ (destroy os c.client s2) (λ s' runs.
              let (linked, same) =
                subst (Returns (λ s'. LinkedBut l s' × (s'.queue ≡ s2.queue))) runs
                  (destroy-LinkedBut l c.client s2 linked2) in
              (linked, subst (Less s.queue) (sym (same ∙ same2)) less))))

  pub close-Linked : (it : Owner) (s : ProxyServer) → Linked s → Returns Linked (close os it s)
  close-Linked it s linked = Returns-each _ (close os it s) (λ s' runs.
      (subst (Returns (λ s'. Linked s' × Less s.queue s'.queue)) runs
        (close-LinkedBut [] it s linked)).0)

-- An element outside the two containers, whose descriptor no place holds.
abbrev pub Loose : EpollElem × ProxyServer → Type 0
Loose r = LinkedBut (r.0.fd ∷ []) r.1 × Nowhere r.0.fd r.1.queue

pub take_client-Loose : (id : ℕ) (s : ProxyServer) → Linked s → Returns Loose (take_client id s)
unfolding take_client put_elem
take_client-Loose id s (shape, handled) =
    Returns-bind (λ c. connection_at id s ≡ ok c) _ (connection_at id s) _
      (Returns-each _ (connection_at id s) (λ c e. e))
      (λ c got.
        let found = connection_at-ok id s c got in
        let there = own id c s found in
        let q = without s.queue c there in
        let less = without-Less s.queue c there in
        let moved =
          Handled-move [] (c.client.fd ∷ []) (frame s) s.queue q s.handlers (λ fd out. tt)
            (λ fd p n out at. without_stays s.queue c there fd p out.0 at) handled in
        rw got ((Less-Shape s.queue q less shape, moved), without-Nowhere s.queue c there shape))

module _ (os : Os) where
  pub save_elem-LinkedBut :
      (e : EpollElem) (timeout : ℕ) (s : ProxyServer)
      → Loose (e, s)
      → Returns (LinkedBut (e.fd ∷ [])) (save_elem os e timeout s)
  unfolding save_elem save_registration
  save_elem-LinkedBut e timeout s ((shape, handled), nowhere) =
      elim (Option-cases (find_socket e.fd s.queue.sockets)) [
        | inl new ↦
            let e' : EpollElem = record e {
              expires_in = add64 s.queue.ticks timeout;
              timeout = timeout;
            } in
            let moved =
              Handled-move (e.fd ∷ []) (e.fd ∷ []) (frame s) s.queue (with_socket s.queue e' new)
                s.handlers (λ fd out. out)
                (λ fd p n out at. with_socket_stays s.queue e' new fd p at) handled in
            rw (save_elem, new) (with_socket-Shape s.queue e' new shape nowhere, moved)
        | inr (old, there) ↦
            rw (save_elem, there)
              (Returns-each _ (destroy os e s) (λ s' runs.
                let (linked, same) =
                  subst (Returns (λ s'. LinkedBut [] s' × (s'.queue ≡ s.queue))) runs
                    (destroy-LinkedBut os [] e s (shape, handled)) in
                (linked.0, λ fd h n out at. linked.1 fd h n tt at)))
      ]

  -- The key of what `escape_client` returns is exempted.
  pub escape_client-LinkedBut :
      (id : ℕ) (s : ProxyServer)
      → Linked s
      → Returns (λ (r : ℕ × ProxyServer). LinkedBut (r.0 ∷ []) r.1) (escape_client os id s)
  unfolding escape_client
  escape_client-LinkedBut id s linked =
      Returns-bind Loose _ (take_client id s) _ (take_client-Loose id s linked) (λ r loose.
        Returns-bind (LinkedBut (r.0.fd ∷ [])) _
          (save_elem os r.0 EpollQueue.short_socket_timeout r.1) _
          (save_elem-LinkedBut r.0 EpollQueue.short_socket_timeout r.1 loose)
          (λ s'' linked'. linked'))
