-- ===== src/SimpleCache/Shape.antt =====
-- The linked list inside the map: which states of `simple_cache` are well formed, and what the
-- primitive accesses do to a list of nodes that is split at an iterator.
use proxi.Base.{ℕ, ◌≤◌, ◌<◌, List, [], ◌∷◌, ◌++◌, ◌≡◌, refl, sym, ◌∙◌, ok, arith}
use proxi.SimpleCache.{Node, modify, erase_at, set_next}

module _ {ℓ} {K V : Type ℓ} where
  -- The nodes behind one with the number `i` and the field `next = n`: numbers ascend, and the
  -- pointers of neighbours meet. The `prev` of the first node and the `next` of the last one are
  -- not constrained, since the code leaves them dangling.
  abbrev pub LinkedFrom : ℕ → ℕ → List (Node K V) → Type 0
  LinkedFrom i n [] = Unit {0}
  LinkedFrom i n (b ∷ r) = (i < b.id) × (n ≡ b.id) × (b.prev ≡ i) × LinkedFrom b.id b.next r

  abbrev pub last_id : ℕ → List (Node K V) → ℕ
  last_id i [] = i
  last_id i (b ∷ r) = last_id b.id r

  abbrev pub Shape : List (Node K V) → ℕ → ℕ → ℕ → Type 0
  Shape [] first last fresh = Unit {0}
  Shape (a ∷ r) first last fresh =
      (first ≡ a.id) × (last ≡ last_id a.id r) × (last < fresh) × LinkedFrom a.id a.next r

  -- All nodes stand before the node numbered `n`.
  abbrev pub Below : ℕ → List (Node K V) → Type 0
  Below n [] = Unit {0}
  Below n (a ∷ r) = (a.id < n) × Below n r

  -- The list with the last `next` set to `n`.
  abbrev pub relink : ℕ → Node K V → List (Node K V) → List (Node K V)
  relink n a [] = record a { next = n } ∷ []
  relink n a (b ∷ r) = a ∷ relink n b r

  pub modify_mid :
      (f : Node K V → Node K V) (p : List (Node K V)) (e : Node K V) (q : List (Node K V)) (x : ℕ)
      → e.id ≡ x
      → Below x p
      → modify x f (p ++ e ∷ q) ≡ ok (p ++ f e ∷ q)
  unfolding modify
  modify_mid f [] e q x h b = ground arith
  modify_mid f (a ∷ p) e q x h b = ground (arith, modify_mid f p e q x h b.1)

  -- The same one place further on.
  pub modify_next :
      (f : Node K V → Node K V) (p : List (Node K V)) (e b : Node K V) (q : List (Node K V)) (x : ℕ)
      → x ≡ b.id
      → e.id < x
      → Below x p
      → modify x f (p ++ e ∷ b ∷ q) ≡ ok (p ++ e ∷ f b ∷ q)
  unfolding modify
  modify_next f [] e b q x h g l = ground arith
  modify_next f (a ∷ p) e b q x h g l = ground (arith, modify_next f p e b q x h g l.1)

  pub erase_mid :
      (p : List (Node K V)) (e : Node K V) (q : List (Node K V)) (x : ℕ)
      → e.id ≡ x
      → Below x p
      → erase_at x (p ++ e ∷ q) ≡ ok (p ++ q)
  unfolding erase_at
  erase_mid [] e q x h b = ground arith
  erase_mid (a ∷ p) e q x h b = ground (arith, erase_mid p e q x h b.1)

  pub last_id-ge : (i n : ℕ) (r : List (Node K V)) → LinkedFrom i n r → i ≤ last_id i r
  last_id-ge i n [] h = omega arith
  last_id-ge i n (b ∷ r) h = omega (arith, last_id-ge b.id b.next r h.3)

  pub last_id-append :
      (i : ℕ) (p : List (Node K V)) (e : Node K V) (q : List (Node K V))
      → last_id i (p ++ e ∷ q) ≡ last_id e.id q
  last_id-append i [] e q = refl
  last_id-append i (b ∷ p) e q = last_id-append b.id p e q

  -- Every node in front of `e` has a smaller number.
  pub Below-append :
      (i n : ℕ) (p : List (Node K V)) (e : Node K V) (q : List (Node K V))
      → LinkedFrom i n (p ++ e ∷ q)
      → (i < e.id) × Below e.id p
  Below-append i n [] e q h = (h.0, tt)
  Below-append i n (b ∷ p) e q h = let ih = Below-append b.id b.next p e q h.3 in (omega arith, ih)

  -- What the links say at a node `e` in the middle.
  pub LinkedFrom-split :
      (i n : ℕ) (p : List (Node K V)) (e : Node K V) (q : List (Node K V))
      → LinkedFrom i n (p ++ e ∷ q)
      → LinkedFrom i n p × (e.prev ≡ last_id i p) × (last_id i p < e.id) × LinkedFrom e.id e.next q
  LinkedFrom-split i n [] e q h = (tt, h.2, h.0, h.3)
  LinkedFrom-split i n (b ∷ p) e q h =
      let (l, pr, lt, r) = LinkedFrom-split b.id b.next p e q h.3 in ((h.0, h.1, h.2, l), pr, lt, r)

  -- The write to the `next` of the last node of a prefix.
  pub set_next-last_id :
      (a : Node K V) (p q : List (Node K V)) (n x : ℕ)
      → x ≡ last_id a.id p
      → LinkedFrom a.id a.next p
      → set_next x n (a ∷ (p ++ q)) ≡ ok (relink n a p ++ q)
  unfolding modify
  set_next-last_id a [] q n x e h = ground arith
  set_next-last_id a (b ∷ p) q n x e h =
      ground (arith, last_id-ge b.id b.next p h.3, set_next-last_id b p q n x e h.3)

  pub Below-relink :
      (x n : ℕ) (a : Node K V) (p : List (Node K V)) → a.id < x → Below x p → Below x (relink n a p)
  Below-relink x n a [] h b = (h, tt)
  Below-relink x n a (c ∷ p) h b = (h, Below-relink x n c p b.0 b.1)

  pub Below-last :
      (x i n : ℕ) (p : List (Node K V)) → LinkedFrom i n p → last_id i p < x → (i < x) × Below x p
  Below-last x i n [] h b = (b, tt)
  Below-last x i n (c ∷ p) h b = let ih = Below-last x c.id c.next p h.3 b in (omega arith, ih)

  pub last_id-relink :
      (i n : ℕ) (a : Node K V) (p q : List (Node K V))
      → last_id i (relink n a p ++ q) ≡ last_id (last_id a.id p) q
  last_id-relink i n a [] q = refl
  last_id-relink i n a (b ∷ p) q = last_id-relink a.id n b p q

  LinkedFrom-relink :
      (i n x : ℕ) (a : Node K V) (p q : List (Node K V))
      → (i < a.id) × (n ≡ a.id) × (a.prev ≡ i)
      → LinkedFrom a.id a.next p
      → LinkedFrom (last_id a.id p) x q
      → LinkedFrom i n (relink x a p ++ q)
  LinkedFrom-relink i n x a [] q t h r = (t.0, t.1, t.2, r)
  LinkedFrom-relink i n x a (b ∷ p) q t h r =
      (t.0, t.1, t.2, LinkedFrom-relink a.id a.next x b p q (h.0, h.1, h.2) h.3 r)

  -- A prefix and a suffix that `x` joins have the shape again.
  pub Shape-relink :
      (x : ℕ) (a : Node K V) (p q : List (Node K V)) (last fresh : ℕ)
      → LinkedFrom a.id a.next p
      → LinkedFrom (last_id a.id p) x q
      → last ≡ last_id (last_id a.id p) q
      → last < fresh
      → Shape (relink x a p ++ q) a.id last fresh
  Shape-relink x a [] q last fresh h r e b = (refl, e, b, r)
  Shape-relink x a (c ∷ p) q last fresh h r e b = (
    refl,
    e ∙ sym (last_id-relink a.id x c p q),
    b,
    LinkedFrom-relink a.id a.next x c p q (h.0, h.1, h.2) h.3 r,
  )
