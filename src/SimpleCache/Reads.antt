-- ===== src/SimpleCache/Reads.antt =====
-- What `has` and `find` see after `insert` and `erase`, histories of calls, and a cache for one
-- entry.
use mathlib.Core.List.{lookup, foldl}
use mathlib.Core.Option
use proxi.Base.{
  ℕ, ◌≤◌, List, [], ◌∷◌, Option, none, some, ◌≡◌, refl, sym, ◌∙◌, ap, ◌≢◌, inl, inr, Bool, true,
  false, Outcome, ok, fault, annotated, undefined, ◌>>=◌, arith, length, Option-cases,
}
use proxi.SimpleCache.{
  Node, SimpleCache, empty, node_at, modify, erase_at, make_room, find_node, insert, has, find,
  erase, size,
}
use proxi.SimpleCache.Shape.{Shape}
use proxi.SimpleCache.Links.{view}
use proxi.SimpleCache.Refines.{IsValid, find_node-lookup, insert-refines, erase-refines}
use proxi.SimpleCache.Fifo

-- The calls that change a cache.
pub data Call {ℓ} (K V : Type ℓ) : Type ℓ where
  insert_call : K → V → Call K V
  erase_call : K → Call K V

abbrev pub is_some {ℓ} : {A : Type ℓ} → Option A → Bool
is_some none = false
is_some (some _) = true

abbrev pub or_fault {ℓ} : {A : Type ℓ} → Option A → Outcome A
or_fault none = fault annotated
or_fault (some a) = ok a

pub empty-IsValid {ℓ} : {K V : Type ℓ} (max_size : ℕ) → IsValid max_size (empty {K = K} {V = V})
unfolding empty
empty-IsValid max_size = record { shape = tt; bounded = omega arith; distinct = tt }

module _ {ℓ} {K V : Type ℓ} (dec : Discrete K) where
  -- `has` and `find` read the queue.
  pub has-view :
      (c : SimpleCache K V) (k : K) → has dec c k ≡ is_some (lookup dec k (view c.values))
  unfolding has
  has-view c k = elim (Option-cases (find_node dec k c.values)) [
    | inl e ↦ rw (find_node-lookup dec k c.values, has, e) refl
    | inr (n, e) ↦ rw (find_node-lookup dec k c.values, has, e) refl
  ]

  pub find-view :
      (c : SimpleCache K V) (k : K) → find dec c k ≡ or_fault (lookup dec k (view c.values))
  unfolding find
  find-view c k = elim (Option-cases (find_node dec k c.values)) [
    | inl e ↦ rw (find_node-lookup dec k c.values, find, e) refl
    | inr (n, e) ↦ rw (find_node-lookup dec k c.values, find, e) refl
  ]

  -- After `insert` of a key into a well-formed cache with room for two or more: the cache has the
  -- key, and `find` returns the value that the key had, if it was there and not evicted, and the
  -- new value otherwise. Every other key reads as in the cache behind the eviction.
  pub find-insert :
      (max_size : ℕ) (c : SimpleCache K V) (k : K) (v : V)
      → 2 ≤ max_size
      → IsValid max_size c
      → (c' : SimpleCache K V) × (insert dec max_size c k v ≡ ok c')
        × (has dec c' k ≡ true)
        × (find dec c' k
            ≡ ok (Option.get_or (lookup dec k (Fifo.evict max_size (view c.values))) v))
        × ((j : K)
            → j ≢ k
            → find dec c' j ≡ or_fault (lookup dec j (Fifo.evict max_size (view c.values))))
  unfolding Fifo.insert
  find-insert max_size c k v m h =
      let q = Fifo.evict max_size (view c.values) in
      let (c', runs, _, seen) = insert-refines dec max_size c k v m h in
      let kept = ap (lookup dec k) seen ∙ Fifo.lookup-put_self dec k v q in
      (
        c',
        runs,
        has-view c' k ∙ ap is_some kept,
        find-view c' k ∙ ap or_fault kept,
        λ j n.
            find-view c' j
            ∙ ap (λ l. or_fault (lookup dec j l)) seen
            ∙ ap or_fault (Fifo.lookup-put_ne dec k j v q n),
      )

  -- After `erase` of a key from a well-formed cache: the cache has the key no more, `find` throws
  -- at it, and every other key reads as before.
  pub find-erase :
      (max_size : ℕ) (c : SimpleCache K V) (k : K)
      → IsValid max_size c
      → (c' : SimpleCache K V) × (erase dec c k ≡ ok c')
        × (has dec c' k ≡ false)
        × (find dec c' k ≡ fault annotated)
        × ((j : K) → j ≢ k → find dec c' j ≡ find dec c j)
  find-erase max_size c k h =
      let (c', runs, _, seen) = erase-refines dec max_size c k h in
      let gone =
        ap (lookup dec k) seen ∙ Fifo.lookup-remove_self dec k (view c.values) h.distinct in
      (
        c',
        runs,
        has-view c' k ∙ ap is_some gone,
        find-view c' k ∙ ap or_fault gone,
        λ j n.
            find-view c' j
            ∙ ap or_fault (ap (lookup dec j) seen ∙ Fifo.lookup-remove_ne dec k j (view c.values) n)
            ∙ sym (find-view c j),
      )

  unfoldable pub run : ℕ → List (Call K V) → SimpleCache K V → Outcome (SimpleCache K V)
  run max_size [] c = ok c
  run max_size (insert_call k v ∷ calls) c = do
    c' ← insert dec max_size c k v
    run max_size calls c'
  run max_size (erase_call k ∷ calls) c = do c' ← erase dec c k; run max_size calls c'

  unfoldable pub note : ℕ → List (K × V) → Call K V → List (K × V)
  note max_size q (insert_call k v) = Fifo.insert dec max_size k v q
  note max_size q (erase_call k) = Fifo.remove dec k q

  run_from :
      (max_size : ℕ) (calls : List (Call K V)) (c : SimpleCache K V)
      → 2 ≤ max_size
      → IsValid max_size c
      → (c' : SimpleCache K V) × (run max_size calls c ≡ ok c')
        × IsValid max_size c'
        × (view c'.values ≡ foldl (note max_size) (view c.values) calls)
  unfolding run note
  run_from max_size [] c m h = (c, refl, h, refl)
  run_from max_size (insert_call k v ∷ calls) c m h =
      let (d, runs, valid, seen) = insert-refines dec max_size c k v m h in
      let (c', rest, valid', seen') = run_from max_size calls d m valid in
      (c', rw runs rest, valid', seen' ∙ ap (λ q. foldl (note max_size) q calls) seen)
  run_from max_size (erase_call k ∷ calls) c m h =
      let (d, runs, valid, seen) = erase-refines dec max_size c k h in
      let (c', rest, valid', seen') = run_from max_size calls d m valid in
      (c', rw runs rest, valid', seen' ∙ ap (λ q. foldl (note max_size) q calls) seen)

  -- With room for two entries or more, every sequence of `insert` and `erase` on a new cache ends
  -- with no exception and no dangling iterator dereferenced, in a well-formed cache of at most
  -- `max_size` entries that holds what the same calls leave in the queue.
  pub run-refines :
      (max_size : ℕ) (calls : List (Call K V))
      → 2 ≤ max_size
      → (c : SimpleCache K V) × (run max_size calls empty ≡ ok c)
        × IsValid max_size c
        × (view c.values ≡ foldl (note max_size) [] calls)
  unfolding empty
  run-refines max_size calls m = run_from max_size calls empty m (empty-IsValid max_size)

  insert_at_one_from :
      (c : SimpleCache K V) (l : List (Node K V)) (k : K) (v : V)
      → c.values ≡ l
      → Shape l c.first c.last c.fresh
      → length l ≡ 1
      → insert dec 1 c k v ≡ fault undefined
  unfolding insert make_room node_at erase_at modify
  insert_at_one_from c [] k v e s h = absurd (omega arith)
  insert_at_one_from c (a ∷ []) k v e s h = rw e (ground arith)
  insert_at_one_from c (a ∷ b ∷ r) k v e s h = absurd (omega arith)

  -- A well-formed and full cache for one entry: `insert` dereferences an iterator to the node
  -- that it has just erased.
  pub insert_at_one :
      (c : SimpleCache K V) (k : K) (v : V)
      → IsValid 1 c
      → size c ≡ 1
      → insert dec 1 c k v ≡ fault undefined
  insert_at_one c k v h full = insert_at_one_from c c.values k v refl h.shape full
