-- ===== src/SimpleCache/Fifo.antt =====
-- What `simple_cache` promises, with no pointers: a queue of distinct keys, the oldest first.
use mathlib.Core.List.{lookup}
use mathlib.Core.Option
use proxi.Base.{
  ℕ, ◌≤◌, List, [], ◌∷◌, ◌++◌, none, some, ◌≡◌, refl, sym, ◌≢◌, arith, length, drop, ◌==◌,
  if◌then◌else◌, length-append, Option-cases, Bool-cases, inl, inr, ◌∙◌,
}

module _ {ℓ} {K V : Type ℓ} where
  -- No entry has the key.
  abbrev pub Absent : K → List (K × V) → Type ℓ
  Absent k [] = Unit
  Absent k (e ∷ q) = (e.0 ≢ k) × Absent k q

  abbrev pub Distinct : List (K × V) → Type ℓ
  Distinct [] = Unit
  Distinct (e ∷ q) = Absent e.0 q × Distinct q

  -- At a full queue the oldest entry goes.
  unfoldable pub evict : ℕ → List (K × V) → List (K × V)
  evict max_size q = if length q == max_size then drop 1 q else q

module _ {ℓ} {K V : Type ℓ} (dec : Discrete K) where
  -- A key that is there keeps its place and its value.
  unfoldable pub put : K → V → List (K × V) → List (K × V)
  put k v q = elim (lookup dec k q) [ some _ ↦ q | none ↦ q ++ (k, v) ∷ [] ]

  unfoldable pub insert : ℕ → K → V → List (K × V) → List (K × V)
  insert max_size k v q = put k v (evict max_size q)

  unfoldable pub remove : K → List (K × V) → List (K × V)
  remove k [] = []
  remove k (e ∷ q) = elim (dec k e.0) [ yes _ ↦ q | no _ ↦ e ∷ remove k q ]

  pub Absent-lookup : (k : K) (q : List (K × V)) → Absent k q → lookup dec k q ≡ none
  unfolding lookup
  Absent-lookup k [] h = refl
  Absent-lookup k (e ∷ q) h = ground (arith, Absent-lookup k q h.1)

  lookup-Absent : (k : K) (q : List (K × V)) → lookup dec k q ≡ none → Absent k q
  unfolding lookup
  lookup-Absent k [] h = tt
  lookup-Absent k (e ∷ q) h = elim (dec k e.0) [
    | yes p ↦ absurd (ground arith)
    | no p ↦ (λ r. p (sym r), lookup-Absent k q (ground arith))
  ]

  Absent-append :
      (k j : K) (v : V) (q : List (K × V)) → Absent j q → k ≢ j → Absent j (q ++ (k, v) ∷ [])
  Absent-append k j v [] h n = (n, tt)
  Absent-append k j v (e ∷ q) h n = (h.0, Absent-append k j v q h.1 n)

  Distinct-append :
      (k : K) (v : V) (q : List (K × V)) → Distinct q → Absent k q → Distinct (q ++ (k, v) ∷ [])
  Distinct-append k v [] d a = (tt, tt)
  Distinct-append k v (e ∷ q) d a =
      (Absent-append k e.0 v q d.0 (λ r. a.0 (sym r)), Distinct-append k v q d.1 a.1)

  pub put-Distinct : (k : K) (v : V) (q : List (K × V)) → Distinct q → Distinct (put k v q)
  unfolding put
  put-Distinct k v q d = elim (Option-cases (lookup dec k q)) [
    | inl e ↦ rw (e, put) (Distinct-append k v q d (lookup-Absent k q e))
    | inr (w, e) ↦ rw (e, put) d
  ]

  pub evict-Distinct : (max_size : ℕ) (q : List (K × V)) → Distinct q → Distinct (evict max_size q)
  unfolding evict
  evict-Distinct max_size [] d = ground arith
  evict-Distinct max_size (e ∷ q) d = elim (Bool-cases (length (e ∷ q) == max_size)) [
    | inl t ↦ rw t d.1
    | inr f ↦ rw f d
  ]

  Absent-remove : (j k : K) (q : List (K × V)) → Absent j q → Absent j (remove k q)
  unfolding remove
  Absent-remove j k [] h = tt
  Absent-remove j k (e ∷ q) h =
      elim (dec k e.0) as (λ b. Absent j (elim b [ yes _ ↦ q | no _ ↦ e ∷ remove k q ])) [
        | yes p ↦ h.1
        | no p ↦ (h.0, Absent-remove j k q h.1)
      ]

  pub remove-Distinct : (k : K) (q : List (K × V)) → Distinct q → Distinct (remove k q)
  unfolding remove
  remove-Distinct k [] d = tt
  remove-Distinct k (e ∷ q) d =
      elim (dec k e.0) as (λ b. Distinct (elim b [ yes _ ↦ q | no _ ↦ e ∷ remove k q ])) [
        | yes p ↦ d.1
        | no p ↦ (Absent-remove e.0 k q d.0, remove-Distinct k q d.1)
      ]

  pub length-remove-le : (k : K) (q : List (K × V)) → length (remove k q) ≤ length q
  unfolding remove
  length-remove-le k [] = omega arith
  length-remove-le k (e ∷ q) = ground (arith, length-remove-le k q)

  pub length-insert-le :
      (max_size : ℕ) (k : K) (v : V) (q : List (K × V))
      → 1 ≤ max_size
      → length q ≤ max_size
      → length (insert max_size k v q) ≤ max_size
  unfolding insert put evict
  length-insert-le max_size k v [] m h = ground arith
  length-insert-le max_size k v (e ∷ q) m h =
      ground (arith, length-append q ((k, v) ∷ []), length-append (e ∷ q) ((k, v) ∷ []))

  -- What a lookup finds after `insert`: the key itself, and any other key but an evicted one.
  lookup-append :
      (j k : K) (v : V) (q : List (K × V))
      → lookup dec k q ≡ none
      → lookup dec j (q ++ (k, v) ∷ []) ≡ elim (dec j k) [ yes _ ↦ some v | no _ ↦ lookup dec j q ]
  unfolding lookup
  lookup-append j k v [] h = ground arith
  lookup-append j k v (e ∷ q) h = ground (arith, lookup-append j k v q)

  pub lookup-put_self :
      (k : K) (v : V) (q : List (K × V))
      → lookup dec k (put k v q) ≡ some (Option.get_or (lookup dec k q) v)
  unfolding put
  lookup-put_self k v q = elim (Option-cases (lookup dec k q)) [
    | inl e ↦ rw (e, put) (lookup-append k k v q e ∙ ground (arith, e))
    | inr (w, e) ↦ rw (e, put) (rw e)
  ]

  pub lookup-put_ne :
      (k j : K) (v : V) (q : List (K × V)) → j ≢ k → lookup dec j (put k v q) ≡ lookup dec j q
  unfolding put
  lookup-put_ne k j v q n = elim (Option-cases (lookup dec k q)) [
    | inl e ↦ rw (e, put) (lookup-append j k v q e ∙ ground (arith, e))
    | inr (w, e) ↦ rw (e, put) refl
  ]

  pub lookup-remove_self :
      (k : K) (q : List (K × V)) → Distinct q → lookup dec k (remove k q) ≡ none
  unfolding remove lookup
  lookup-remove_self k [] d = refl
  lookup-remove_self k (e ∷ q) d =
      elim (dec k e.0)
        as (λ b. lookup dec k (elim b [ yes _ ↦ q | no _ ↦ e ∷ remove k q ]) ≡ none) [
          | yes p ↦ rw p (Absent-lookup e.0 q d.0)
          | no p ↦ ground (arith, lookup-remove_self k q d.1)
        ]

  pub lookup-remove_ne :
      (k j : K) (q : List (K × V)) → j ≢ k → lookup dec j (remove k q) ≡ lookup dec j q
  unfolding remove lookup
  lookup-remove_ne k j [] n = refl
  lookup-remove_ne k j (e ∷ q) n = ground (arith, lookup-remove_ne k j q n)
