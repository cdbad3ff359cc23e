-- ===== src/SimpleCache/Links.antt =====
-- The pointer code of `simple_cache` on well-formed lists of nodes: linking in a new node, and
-- unlinking any node.
use proxi.Base.{
  ℕ, suc, ◌≤◌, List, [], ◌∷◌, ◌++◌, ◌≡◌, refl, sym, ◌∙◌, ap, ne→==, eq→==, ok, arith, length,
  length-append, drop,
}
use proxi.SimpleCache.{
  Node, SimpleCache, node_at, modify, erase_at, make_room, link_inserted, unlink,
}
use proxi.SimpleCache.Shape.{
  Shape, relink, modify_mid, modify_next, erase_mid, last_id-ge, last_id-append, LinkedFrom-split,
  set_next-last_id, Below-relink, Below-last, Shape-relink,
}

module _ {ℓ} {K V : Type ℓ} where
  -- What the cache holds, the oldest first.
  abbrev pub view : List (Node K V) → List (K × V)
  view [] = []
  view (n ∷ l) = (n.key, n.value) ∷ view l

  pub length-view : (l : List (Node K V)) → length (view l) ≡ length l
  length-view [] = refl
  length-view (n ∷ l) = ap suc (length-view l)

  view-append : (l r : List (Node K V)) → view (l ++ r) ≡ view l ++ view r
  view-append [] r = refl
  view-append (n ∷ l) r = ap (◌∷◌ (n.key, n.value)) (view-append l r)

  view-relink : (n : ℕ) (a : Node K V) (p : List (Node K V)) → view (relink n a p) ≡ view (a ∷ p)
  view-relink n a [] = refl
  view-relink n a (b ∷ p) = ap (◌∷◌ (a.key, a.value)) (view-relink n b p)

  make_room_lem :
      (c : SimpleCache K V) (a b : Node K V) (r : List (Node K V))
      → c.values ≡ a ∷ b ∷ r
      → Shape (a ∷ b ∷ r) c.first c.last c.fresh
      → make_room c ≡ ok (record c { values = record b { prev = b.id } ∷ r; first = b.id })
  unfolding make_room node_at erase_at modify
  make_room_lem c a b r e h = rw e (ground arith)

  -- Evicting the oldest node of a cache that holds two or more is safe.
  pub make_room-refines :
      (c : SimpleCache K V) (l : List (Node K V))
      → c.values ≡ l
      → 2 ≤ length l
      → Shape l c.first c.last c.fresh
      → (c' : SimpleCache K V) × (make_room c ≡ ok c')
        × Shape c'.values c'.first c'.last c'.fresh
        × (view c'.values ≡ drop 1 (view l))
  make_room-refines c [] e m h = absurd (omega arith)
  make_room-refines c (a ∷ []) e m h = absurd (omega arith)
  make_room-refines c (a ∷ b ∷ r) e m h = (
    record c { values = record b { prev = b.id } ∷ r; first = b.id },
    make_room_lem c a b r e h,
    (refl, h.1, h.2, h.3.3),
    refl,
  )

  -- The new node `e`, behind nodes `l`.
  pub link_inserted-refines :
      (c : SimpleCache K V) (l : List (Node K V)) (e : Node K V)
      → c.values ≡ l ++ e ∷ []
      → c.fresh ≡ suc e.id
      → Shape l c.first c.last e.id
      → (c' : SimpleCache K V) × (link_inserted c e.id ≡ ok c')
        × Shape c'.values c'.first c'.last c'.fresh
        × (view c'.values ≡ view l ++ (e.key, e.value) ∷ [])
  unfolding link_inserted
  link_inserted-refines c [] e v f h = (
    record c { values = record e { prev = e.id; next = e.id } ∷ []; first = e.id; last = e.id },
    rw v (unfold modify in ground arith),
    (refl, refl, omega arith, tt),
    refl,
  )
  link_inserted-refines c (a ∷ p) e v f h =
      let below = Below-last e.id a.id a.next p h.3 (omega arith) in
      let e1 = record e { prev = c.last } in
      let e2 = record e1 { next = e.id } in
      let l2 = relink e.id a p in
      (
        record c { values = l2 ++ e2 ∷ []; last = e.id },
        rw (
          v,
          ne→== (length (a ∷ (p ++ e ∷ []))) 1 (omega (arith, length-append p (e ∷ []))),
          v,
          modify_mid (λ n. record n { prev = c.last }) (a ∷ p) e [] e.id refl below,
          set_next-last_id a p (e1 ∷ []) e.id c.last h.1 h.3,
          modify_mid (λ n. record n { next = e.id }) l2 e1 [] e.id refl
              (Below-relink e.id e.id a p below.0 below.1),
        ),
        rw h.0 (
            Shape-relink e.id a p (e2 ∷ []) e.id c.fresh h.3 (omega arith, refl, h.1, tt) refl
              (omega arith)),
        view-append l2 (e2 ∷ []) ∙ ap (λ x. x ++ (e.key, e.value) ∷ []) (view-relink e.id a p),
      )

  abbrev pub Unlinked : SimpleCache K V → Node K V → List (Node K V) → List (Node K V) → Type ℓ
  Unlinked c e p q =
      (c' : SimpleCache K V) × (unlink c e ≡ ok c')
      × Shape c'.values c'.first c'.last c'.fresh
      × (view c'.values ≡ view p ++ view q)

  unlink_only :
      (c : SimpleCache K V) (e : Node K V)
      → c.values ≡ e ∷ []
      → Shape (e ∷ []) c.first c.last c.fresh
      → Unlinked c e [] []
  unfolding unlink erase_at
  unlink_only c e v h =
      (record c { values = []; first = e.next; last = e.prev }, ground arith, tt, refl)

  unlink_first :
      (c : SimpleCache K V) (e b : Node K V) (r : List (Node K V))
      → c.values ≡ e ∷ b ∷ r
      → Shape (e ∷ b ∷ r) c.first c.last c.fresh
      → Unlinked c e [] (b ∷ r)
  unfolding unlink erase_at modify
  unlink_first c e b r v h = (
    record c { values = record b { prev = e.prev } ∷ r; first = e.next },
    ground (arith, last_id-ge b.id b.next r h.3.3),
    (h.3.1, h.1, h.2, h.3.3),
    refl,
  )

  unlink_last :
      (c : SimpleCache K V) (a : Node K V) (p : List (Node K V)) (e : Node K V)
      → c.values ≡ a ∷ (p ++ e ∷ [])
      → Shape (a ∷ (p ++ e ∷ [])) c.first c.last c.fresh
      → Unlinked c e (a ∷ p) []
  unfolding unlink
  unlink_last c a p e v h =
      let (l, pr, lt, r) = LinkedFrom-split a.id a.next p e [] h.3 in
      let below = Below-last e.id a.id a.next p l lt in
      (
        record c { values = relink e.next a p ++ []; last = e.prev },
        rw (
          ne→== e.id c.first (omega arith),
          v,
          set_next-last_id a p (e ∷ []) e.next e.prev pr l,
          eq→== e.id c.last (sym (h.1 ∙ last_id-append a.id p e [])),
          erase_mid (relink e.next a p) e [] e.id refl
              (Below-relink e.id e.next a p below.0 below.1),
        ),
        rw h.0 (
            Shape-relink e.next a p [] e.prev c.fresh l tt pr
              (omega (arith, last_id-append a.id p e []))),
        view-append (relink e.next a p) [] ∙ ap (λ x. x ++ []) (view-relink e.next a p),
      )

  unlink_middle :
      (c : SimpleCache K V) (a : Node K V) (p : List (Node K V)) (e b : Node K V)
      (r : List (Node K V))
      → c.values ≡ a ∷ (p ++ e ∷ b ∷ r)
      → Shape (a ∷ (p ++ e ∷ b ∷ r)) c.first c.last c.fresh
      → Unlinked c e (a ∷ p) (b ∷ r)
  unfolding unlink
  unlink_middle c a p e b r v h =
      let (l, pr, lt, t) = LinkedFrom-split a.id a.next p e (b ∷ r) h.3 in
      let below = Below-last e.id a.id a.next p l lt in
      let before = Below-relink e.id e.next a p below.0 below.1 in
      let below_b = Below-last b.id a.id a.next p l (omega arith) in
      let b1 = record b { prev = e.prev } in
      let last_is = h.1 ∙ last_id-append a.id p e (b ∷ r) in
      (
        record c { values = relink e.next a p ++ b1 ∷ r },
        rw (
          ne→== e.id c.first (omega arith),
          v,
          set_next-last_id a p (e ∷ b ∷ r) e.next e.prev pr l,
          ne→== e.id c.last (omega (arith, last_id-ge b.id b.next r t.3)),
          modify_next (λ n. record n { prev = e.prev }) (relink e.next a p) e b r e.next t.1
              (omega arith) (Below-relink e.next e.next a p (omega arith) (rw t.1 below_b.1)),
          erase_mid (relink e.next a p) e (b1 ∷ r) e.id refl before,
        ),
        rw h.0 (
            Shape-relink e.next a p (b1 ∷ r) c.last c.fresh l (omega arith, t.1, pr, t.3) last_is
              h.2),
        view-append (relink e.next a p) (b1 ∷ r)
            ∙ ap (λ x. x ++ (b.key, b.value) ∷ view r) (view-relink e.next a p),
      )

  -- Erasing through the iterator of any node is safe, and takes that node out.
  pub unlink-refines :
      (c : SimpleCache K V) (p : List (Node K V)) (e : Node K V) (q : List (Node K V))
      → c.values ≡ p ++ e ∷ q
      → Shape (p ++ e ∷ q) c.first c.last c.fresh
      → Unlinked c e p q
  unlink-refines c [] e [] v h = unlink_only c e v h
  unlink-refines c [] e (b ∷ r) v h = unlink_first c e b r v h
  unlink-refines c (a ∷ p) e [] v h = unlink_last c a p e v h
  unlink-refines c (a ∷ p) e (b ∷ r) v h = unlink_middle c a p e b r v h
