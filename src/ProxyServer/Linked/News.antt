-- ===== src/ProxyServer/Linked/News.antt =====
-- The places of descriptors after a new socket, and a new connection.
use proxi.Base.{
  ℕ, ◌≡◌, ◌≢◌, sym, ◌∙◌, ap, none, some, arith, ◌==◌, ne→==, ==_iff, Bool-cases, inl, inr, ◌⊎◌,
}
use proxi.EpollQueue.Timer.{find_connection}
use proxi.EpollQueue.{
  EpollQueue, EpollElem, Connection, find_socket, insert_socket, save_connection,
}
use proxi.ProxyServer.Linked.Finds.{find-insert_socket, find-append_connection}
use proxi.ProxyServer.Linked.Keys.{insert_socket-KeysDiffer, append-IdsDiffer}
use proxi.ProxyServer.Linked.{fd_at, Shape, Nowhere}
use proxi.ProxyServer.{Place, at_socket, client_of, server_of}

module _ (q : EpollQueue) (e : EpollElem) (new : find_socket e.fd q.sockets ≡ none) where
  abbrev pub with_socket : EpollQueue
  with_socket = record q { sockets = insert_socket e.fd e q.sockets }

  -- What is at a place is the new socket, or was there.
  at_cases :
      (p : Place) (fd : ℕ)
      → fd_at p with_socket ≡ some fd
      → ((p ≡ at_socket e.fd) × (fd ≡ e.fd)) ⊎ (fd_at p q ≡ some fd)
  at_cases (at_socket j) fd h = elim (Bool-cases (j == e.fd)) [
    | inl same ↦ inl (
      ap at_socket ((==_iff j e.fd).0 same),
      grind (arith, find-insert_socket e.fd j e q.sockets new, h, same),
    )
    | inr differ ↦ inr (grind (arith, find-insert_socket e.fd j e q.sockets new, h, differ))
  ]
  at_cases (client_of j) fd h = inr h
  at_cases (server_of j) fd h = inr h

  pub with_socket_stays : (fd : ℕ) (p : Place) → fd_at p q ≡ some fd → fd_at p with_socket ≡ some fd
  with_socket_stays fd (at_socket j) h = elim (Bool-cases (j == e.fd)) [
    | inl same ↦ absurd (grind (arith, (==_iff j e.fd).0 same, new, h))
    | inr differ ↦ grind (arith, find-insert_socket e.fd j e q.sockets new, h, differ)
  ]
  with_socket_stays fd (client_of j) h = h
  with_socket_stays fd (server_of j) h = h

  pub with_socket-Shape : Shape q → Nowhere e.fd q → Shape with_socket
  with_socket-Shape g nowhere = record {
    keys = insert_socket-KeysDiffer e.fd e q.sockets g.keys;
    ids = g.ids;
    unused = g.unused;
    keyed = λ k fd h. elim (at_cases (at_socket k) fd h) [
      | inl (same, here) ↦ grind (arith, same, here)
      | inr old ↦ g.keyed k fd old
    ];
    unique = λ p p' fd n h h'. elim (at_cases p fd h) [
      | inl (a, b) ↦ elim (at_cases p' fd h') [
        | inl (c, d) ↦ a ∙ sym c
        | inr old ↦ absurd (nowhere (λ z. n (b ∙ z)) p' (old ∙ ap some b))
      ]
      | inr old ↦ elim (at_cases p' fd h') [
        | inl (c, d) ↦ absurd (nowhere (λ z. n (d ∙ z)) p (old ∙ ap some d))
        | inr old' ↦ g.unique p p' fd n old old'
      ]
    ];
  }

module _ (q : EpollQueue) (c : Connection) (g : Shape q) where
  abbrev saved : Connection
  saved = record c { id = q.fresh }

  new_conn : find_connection saved.id q.connections ≡ none
  new_conn = g.unused q.fresh (omega arith)

  conn_cases :
      (p : Place) (fd : ℕ)
      → fd_at p (save_connection q c) ≡ some fd
      → ((p ≡ client_of q.fresh) × (fd ≡ c.client.fd))
        ⊎ (((p ≡ server_of q.fresh) × (fd ≡ c.server.fd)) ⊎ (fd_at p q ≡ some fd))
  unfolding save_connection
  conn_cases (at_socket j) fd h = inr (inr h)
  conn_cases (client_of j) fd h = elim (Bool-cases (j == q.fresh)) [
    | inl same ↦ inl (
      ap client_of ((==_iff j q.fresh).0 same),
      grind (arith, find-append_connection saved j q.connections new_conn, h, same),
    )
    | inr differ ↦
        inr (inr (grind (arith, find-append_connection saved j q.connections new_conn, h, differ)))
  ]
  conn_cases (server_of j) fd h = elim (Bool-cases (j == q.fresh)) [
    | inl same ↦ inr (
        inl (
          ap server_of ((==_iff j q.fresh).0 same),
          grind (arith, find-append_connection saved j q.connections new_conn, h, same),
        ))
    | inr differ ↦
        inr (inr (grind (arith, find-append_connection saved j q.connections new_conn, h, differ)))
  ]

  pub save_connection_stays :
      (fd : ℕ) (p : Place) → fd_at p q ≡ some fd → fd_at p (save_connection q c) ≡ some fd
  unfolding save_connection
  save_connection_stays fd (at_socket j) h = h
  save_connection_stays fd (client_of j) h = elim (Bool-cases (j == q.fresh)) [
    | inl same ↦ absurd (grind (arith, (==_iff j q.fresh).0 same, new_conn, h))
    | inr differ ↦ grind (arith, find-append_connection saved j q.connections new_conn, h, differ)
  ]
  save_connection_stays fd (server_of j) h = elim (Bool-cases (j == q.fresh)) [
    | inl same ↦ absurd (grind (arith, (==_iff j q.fresh).0 same, new_conn, h))
    | inr differ ↦ grind (arith, find-append_connection saved j q.connections new_conn, h, differ)
  ]

  pub save_connection-Shape :
      Nowhere c.client.fd q
      → Nowhere c.server.fd q
      → (c.client.fd ≢ 0 → c.client.fd ≢ c.server.fd)
      → Shape (save_connection q c)
  unfolding save_connection
  save_connection-Shape client server apart = record {
    keys = g.keys;
    ids = append-IdsDiffer saved q.connections new_conn g.ids;
    unused = λ id le. grind (
      arith,
      find-append_connection saved id q.connections new_conn,
      g.unused id (omega (arith, le)),
      ne→== id q.fresh (omega (arith, le)),
    );
    keyed = λ k fd h. g.keyed k fd h;
    unique = λ p p' fd n h h'. elim (conn_cases p fd h) [
      | inl (a, b) ↦ elim (conn_cases p' fd h') [
        | inl (a', b') ↦ a ∙ sym a'
        | inr (inl (a', b')) ↦ absurd (apart (λ z. n (b ∙ z)) (sym b ∙ b'))
        | inr (inr old) ↦ absurd (client (λ z. n (b ∙ z)) p' (old ∙ ap some b))
      ]
      | inr (inl (a, b)) ↦ elim (conn_cases p' fd h') [
        | inl (a', b') ↦ absurd (apart (λ z. n (b' ∙ z)) (sym b' ∙ b))
        | inr (inl (a', b')) ↦ a ∙ sym a'
        | inr (inr old) ↦ absurd (server (λ z. n (b ∙ z)) p' (old ∙ ap some b))
      ]
      | inr (inr old) ↦ elim (conn_cases p' fd h') [
        | inl (a', b') ↦ absurd (client (λ z. n (b' ∙ z)) p (old ∙ ap some b'))
        | inr (inl (a', b')) ↦ absurd (server (λ z. n (b' ∙ z)) p (old ∙ ap some b'))
        | inr (inr old') ↦ g.unique p p' fd n old old'
      ]
    ];
  }
