-- ===== src/SimpleCache/Refines.antt =====
-- The operations of `simple_cache` against those of the queue in `Fifo`.
use mathlib.Core.List.{lookup}
use mathlib.Core.Option
use proxi.Base.{
  ℕ, suc, ◌≤◌, List, [], ◌∷◌, ◌++◌, none, some, ◌≡◌, refl, sym, ◌∙◌, ap, inl, inr, ok, arith,
  length, ◌==◌, if◌then◌else◌, Bool-cases, Option-cases, length-append, subst, length-drop,
}
use proxi.SimpleCache.{Node, SimpleCache, make_room, find_node, insert_node, insert, erase, size}
use proxi.SimpleCache.Shape.{Shape}
use proxi.SimpleCache.Links.{
  view, length-view, make_room-refines, link_inserted-refines, unlink-refines,
}
use proxi.SimpleCache.Fifo
use proxi.SimpleCache.Fifo.{Distinct}

module _ {ℓ} {K V : Type ℓ} where
  pub record IsValid (max_size : ℕ) (c : SimpleCache K V) : Type ℓ where
    pub shape : Shape c.values c.first c.last c.fresh
    pub bounded : size c ≤ max_size
    pub distinct : Distinct (view c.values)

module _ {ℓ} {K V : Type ℓ} (dec : Discrete K) where
  pub find_node-lookup :
      (k : K) (l : List (Node K V))
      → lookup dec k (view l) ≡ Option.map (λ (n : Node K V). n.value) (find_node dec k l)
  unfolding find_node lookup
  find_node-lookup k [] = refl
  find_node-lookup k (n ∷ l) = ground (arith, find_node-lookup k l)

  -- A node that is found splits the list where `remove` does.
  find_node_split :
      (k : K) (l : List (Node K V)) (e : Node K V)
      → find_node dec k l ≡ some e
      → (p : List (Node K V)) × (q : List (Node K V)) × (l ≡ p ++ e ∷ q)
        × (Fifo.remove dec k (view l) ≡ view p ++ view q)
  unfolding find_node Fifo.remove
  find_node_split k [] e h = cc
  find_node_split k (n ∷ l) e h = elim (dec k n.key) [
    | yes p ↦ ([], l, ground arith, ground arith)
    | no p ↦
        let (pre, q, s, r) = find_node_split k l e (ground arith) in
        (n ∷ pre, q, ap (◌∷◌ n) s, ground (arith, r))
  ]

  remove_absent : (k : K) (q : List (K × V)) → lookup dec k q ≡ none → Fifo.remove dec k q ≡ q
  unfolding lookup Fifo.remove
  remove_absent k [] h = refl
  remove_absent k (e ∷ q) h = ground (arith, remove_absent k q)

  -- On a well-formed cache `erase` returns and dereferences no dangling iterator, keeps the
  -- cache well formed, and takes out the entry of the key, if there is one, and nothing else.
  pub erase-refines :
      (max_size : ℕ) (c : SimpleCache K V) (k : K)
      → IsValid max_size c
      → (c' : SimpleCache K V) × (erase dec c k ≡ ok c')
        × IsValid max_size c'
        × (view c'.values ≡ Fifo.remove dec k (view c.values))
  unfolding erase
  erase-refines max_size c k h = elim (Option-cases (find_node dec k c.values)) [
    | inl e ↦ (
      c,
      rw (e, erase) refl,
      h,
      sym (
          remove_absent k (view c.values)
            (find_node-lookup k c.values ∙ ap (Option.map (λ (n : Node K V). n.value)) e)),
    )
    | inr (e, found) ↦
        let (p, q, s, r) = find_node_split k c.values e found in
        let (c', runs, shape, v) =
          unlink-refines c p e q s (subst (λ l. Shape l c.first c.last c.fresh) s h.shape) in
        let same = v ∙ sym r in
        (
          c',
          rw (found, erase) runs,
          record {
            shape = shape;
            bounded = omega (
              arith,
              length-view c'.values,
              length-view c.values,
              ap length same,
              Fifo.length-remove-le dec k (view c.values),
              h.bounded,
            );
            distinct = rw same (Fifo.remove-Distinct dec k (view c.values) h.distinct);
          },
          same,
        )
  ]

  -- At a full cache, the oldest entry goes.
  room-refines :
      (max_size : ℕ) (c : SimpleCache K V)
      → 2 ≤ max_size
      → IsValid max_size c
      → (c' : SimpleCache K V) × ((if length c.values == max_size then make_room c else ok c)
          ≡ ok c')
        × IsValid max_size c'
        × (suc (size c') ≤ max_size)
        × (view c'.values ≡ Fifo.evict max_size (view c.values))
  unfolding Fifo.evict
  room-refines max_size c m h = elim (Bool-cases (length c.values == max_size)) [
    | inl full ↦
        let (c', runs, shape, v) = make_room-refines c c.values refl (ground arith) h.shape in
        let same : view c'.values ≡ Fifo.evict max_size (view c.values) =
          v ∙ rw (length-view c.values, full) refl in
        let smaller : suc (size c') ≤ max_size = omega (
          arith,
          length-view c'.values,
          length-view c.values,
          ap length v,
          length-drop 1 (view c.values),
          h.bounded,
        ) in
        (
          c',
          rw full runs,
          record {
            shape = shape;
            bounded = omega arith;
            distinct = rw same (Fifo.evict-Distinct dec max_size (view c.values) h.distinct);
          },
          smaller,
          same,
        )
    | inr roomy ↦
        (c, rw roomy refl, h, ground (arith, h.bounded), rw (length-view c.values, roomy) refl)
  ]

  insert_node-refines :
      (max_size : ℕ) (c : SimpleCache K V) (k : K) (v : V)
      → IsValid max_size c
      → suc (size c) ≤ max_size
      → (c' : SimpleCache K V) × (insert_node dec c k v ≡ ok c')
        × IsValid max_size c'
        × (view c'.values ≡ Fifo.put dec k v (view c.values))
  unfolding insert_node Fifo.put
  insert_node-refines max_size c k v h room = elim (Option-cases (find_node dec k c.values)) [
    | inr (e, found) ↦
        (c, rw (found, insert_node) refl, h, rw (Fifo.put, find_node-lookup k c.values, found) refl)
    | inl missing ↦
        let node : Node K V = record { id = c.fresh; key = k; value = v; next = 0; prev = 0 } in
        let start : SimpleCache K V = record c {
          values = c.values ++ node ∷ [];
          fresh = suc c.fresh;
        } in
        let (c', runs, shape, seen) = link_inserted-refines start c.values node refl refl h.shape in
        let same : view c'.values ≡ Fifo.put dec k v (view c.values) =
          seen ∙ rw (Fifo.put, find_node-lookup k c.values, missing) refl in
        (
          c',
          rw (missing, insert_node) runs,
          record {
            shape = shape;
            bounded = omega (
              arith,
              length-view c'.values,
              length-view c.values,
              ap length seen,
              length-append (view c.values) ((k, v) ∷ []),
            );
            distinct = rw same (Fifo.put-Distinct dec k v (view c.values) h.distinct);
          },
          same,
        )
  ]

  -- On a well-formed cache with room for two entries or more, `insert` returns and
  -- dereferences no dangling iterator, keeps the cache well formed and within its size, and
  -- does what `insert` does to the queue.
  pub insert-refines :
      (max_size : ℕ) (c : SimpleCache K V) (k : K) (v : V)
      → 2 ≤ max_size
      → IsValid max_size c
      → (c' : SimpleCache K V) × (insert dec max_size c k v ≡ ok c')
        × IsValid max_size c'
        × (view c'.values ≡ Fifo.insert dec max_size k v (view c.values))
  unfolding insert Fifo.insert
  insert-refines max_size c k v m h =
      let (roomy, made, valid, smaller, seen) = room-refines max_size c m h in
      let (c', runs, valid', seen') = insert_node-refines max_size roomy k v valid smaller in
      (c', rw made runs, valid', seen' ∙ ap (Fifo.put dec k v) seen)
