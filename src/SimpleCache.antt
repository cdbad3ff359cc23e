-- ===== src/SimpleCache.antt =====
-- proxy/request_processing/simple_cache.h: `simple_cache<K, V, MAX_SIZE>`, a map whose nodes also
-- form a doubly linked list in order of insertion, through iterators stored in the nodes.
-- An iterator is the number of the node that it was made for; numbers are never used twice, so an
-- iterator to an erased node stays distinct from every later one. Dereferencing such an iterator
-- is `fault undefined`. No operation observes the map's own order of keys: the model lists the
-- nodes in order of insertion. `MAX_SIZE` is the argument `max_size`.
pub mod Shape
pub mod Fifo
pub mod Links
pub mod Refines
pub mod Reads
use proxi.Base.{
  ℕ, suc, List, [], ◌∷◌, ◌++◌, Option, none, some, Bool, true, false, Outcome, ok, fault, annotated,
  undefined, ◌>>=◌, length, ◌==◌, if◌then◌else◌,
}

-- A node of the map, with its key; `id` is what an iterator to it holds.
pub record Node {ℓ} (K V : Type ℓ) : Type ℓ where
  pub id : ℕ
  pub key : K
  pub value : V
  pub next : ℕ
  pub prev : ℕ

pub record SimpleCache {ℓ} (K V : Type ℓ) : Type ℓ where
  pub values : List (Node K V)
  pub first : ℕ
  pub last : ℕ
  -- the number that the next node of the map gets
  pub fresh : ℕ

-- `values.begin()` and `values.end()` of the empty map are one iterator, 0.
unfoldable pub empty {ℓ} : {K V : Type ℓ} → SimpleCache K V
empty = record { values = []; first = 0; last = 0; fresh = 1 }

module _ {ℓ} {K V : Type ℓ} where
  -- `it->second`
  unfoldable pub node_at : ℕ → List (Node K V) → Outcome (Node K V)
  node_at it [] = fault undefined
  node_at it (n ∷ l) = if n.id == it then ok n else node_at it l

  -- an assignment to a field of `it->second`
  unfoldable pub modify : ℕ → (Node K V → Node K V) → List (Node K V) → Outcome (List (Node K V))
  modify it f [] = fault undefined
  modify it f (n ∷ l) = if n.id == it then ok (f n ∷ l) else (modify it f l >>= λ l'. ok (n ∷ l'))

  abbrev pub set_next : ℕ → ℕ → List (Node K V) → Outcome (List (Node K V))
  set_next it to = modify it (λ n. record n { next = to })

  abbrev pub set_prev : ℕ → ℕ → List (Node K V) → Outcome (List (Node K V))
  set_prev it to = modify it (λ n. record n { prev = to })

  -- `values.erase(it)`
  unfoldable pub erase_at : ℕ → List (Node K V) → Outcome (List (Node K V))
  erase_at it [] = fault undefined
  erase_at it (n ∷ l) = if n.id == it then ok l else (erase_at it l >>= λ l'. ok (n ∷ l'))

  -- the head of `insert`, at a full cache
  unfoldable pub make_room : SimpleCache K V → Outcome (SimpleCache K V)
  make_room c = do
    n ← node_at c.first c.values
    rest ← erase_at c.first c.values
    relinked ← set_prev n.next n.next rest
    ok (record c { values = relinked; first = n.next })

  -- the body of `if (it.second)`, after `values.insert` has put the node in the map
  unfoldable pub link_inserted : SimpleCache K V → ℕ → Outcome (SimpleCache K V)
  link_inserted c inserted = do
    linked ← elim (length c.values == 1) [
      | true ↦ do
        l ← set_prev inserted inserted c.values
        ok (record c { values = l; first = inserted })
      | false ↦ do
        l ← set_prev inserted c.last c.values
        l' ← set_next c.last inserted l
        ok (record c { values = l' })
    ]
    l ← set_next inserted inserted linked.values
    ok (record linked { values = l; last = inserted })

  -- `erase` behind the search
  unfoldable pub unlink : SimpleCache K V → Node K V → Outcome (SimpleCache K V)
  unlink c it = do
    front ← elim (it.id == c.first) [
      | true ↦ ok (record c { first = it.next })
      | false ↦ do l ← set_next it.prev it.next c.values; ok (record c { values = l })
    ]
    back ← elim (it.id == c.last) [
      | true ↦ ok (record front { last = it.prev })
      | false ↦ do l ← set_prev it.next it.prev front.values; ok (record front { values = l })
    ]
    l ← erase_at it.id back.values
    ok (record back { values = l })

module _ {ℓ} {K V : Type ℓ} (dec : Discrete K) where
  -- `values.find(key)`; `none` is `values.end()`
  unfoldable pub find_node : K → List (Node K V) → Option (Node K V)
  find_node k [] = none
  find_node k (n ∷ l) = elim (dec k n.key) [ yes _ ↦ some n | no _ ↦ find_node k l ]

  -- `values.insert(...)` and what follows it: a key that is there already changes nothing
  unfoldable pub insert_node : SimpleCache K V → K → V → Outcome (SimpleCache K V)
  insert_node c key value = elim (find_node key c.values) [
    | some _ ↦ ok c
    | none ↦
        let node : Node K V = record {
          id = c.fresh;
          key = key;
          value = value;
          next = 0;
          prev = 0;
        } in
        link_inserted (record c { values = c.values ++ node ∷ []; fresh = suc c.fresh }) c.fresh
  ]

  unfoldable pub insert : ℕ → SimpleCache K V → K → V → Outcome (SimpleCache K V)
  insert max_size c key value = do
    roomy ← if length c.values == max_size then make_room c else ok c
    insert_node roomy key value

  unfoldable pub has : SimpleCache K V → K → Bool
  has c key = elim (find_node key c.values) [ some _ ↦ true | none ↦ false ]

  unfoldable pub find : SimpleCache K V → K → Outcome V
  find c key = elim (find_node key c.values) [ some n ↦ ok n.value | none ↦ fault annotated ]

  unfoldable pub erase : SimpleCache K V → K → Outcome (SimpleCache K V)
  erase c key = elim (find_node key c.values) [ some it ↦ unlink c it | none ↦ ok c ]

abbrev pub size {ℓ} : {K V : Type ℓ} → SimpleCache K V → ℕ
size c = length c.values
