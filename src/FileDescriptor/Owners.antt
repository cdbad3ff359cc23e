-- ===== src/FileDescriptor/Owners.antt =====
-- Who owns a descriptor: the objects of `file_descriptor` along any sequence of constructions,
-- moves, assignments and destructions.
use native.Mathlib.Decide.{ℕ_discrete}
use proxi.Base.{
  ℕ, ◌+◌, ◌≤◌, ◌≡◌, ◌≢◌, refl, List, [], ◌∷◌, some, ok, fault, undefined, Returns, Outcome-cases,
  inl, inr, subst, arith, ◌==◌, if◌then◌else◌,
}
use proxi.FileDescriptor.{
  Objects, get, put, end_of, construct, of_call, swap, construct_from, assign, destroy,
}

module _ (d : ℕ) where
  -- How many objects hold the descriptor, and how often a list names it.
  abbrev pub holders : List (ℕ × ℕ) → ℕ
  holders [] = 0
  holders ((k, fd) ∷ l) = (if fd == d then 1 else 0) + holders l

  abbrev pub times : List ℕ → ℕ
  times [] = 0
  times (fd ∷ l) = (if fd == d then 1 else 0) + times l

-- What a program does with its objects, one call after the other: the descriptors that the system
-- has opened, the last first, and the objects. A new object takes the place of no other, and the
-- system opens what is not open.
pub data Uses : List ℕ → Objects → Type 0 where
  start : Uses [] (record { held = []; closed = [] })
  constructs :
      {opened : List ℕ} {o : Objects} (at : ℕ)
      → Uses opened o
      → get at o.held ≡ fault undefined
      → Uses opened (construct at o)
  opens :
      {opened : List ℕ} {o o' : Objects} (at fd : ℕ)
      → Uses opened o
      → get at o.held ≡ fault undefined
      → times fd opened ≡ times fd o.closed
      → of_call at (some fd) o ≡ ok o'
      → Uses (fd ∷ opened) o'
  moves :
      {opened : List ℕ} {o o' : Objects} (at other : ℕ)
      → Uses opened o
      → get at o.held ≡ fault undefined
      → construct_from at other o ≡ ok o'
      → Uses opened o'
  assigns :
      {opened : List ℕ} {o o' : Objects} (at other : ℕ)
      → Uses opened o
      → assign at other o ≡ ok o'
      → Uses opened o'
  ends :
      {opened : List ℕ} {o o' : Objects} (at : ℕ)
      → Uses opened o
      → destroy at o ≡ ok o'
      → Uses opened o'

get-put :
    (a b x y : ℕ) (l : List (ℕ × ℕ)) → get a l ≡ ok x → get b l ≡ ok y → get b (put a y l) ≡ ok y
unfolding get put
get-put a b x y [] e e' = cc
get-put a b x y ((k, fd) ∷ l) e e' = ground (arith, get-put a b x y l)

module _ (d : ℕ) where
  holders-put :
      (a x y : ℕ) (l : List (ℕ × ℕ))
      → get a l ≡ ok x
      → holders d (put a y l) + (if x == d then 1 else 0) ≡ holders d l + (if y == d then 1 else 0)
  unfolding get put
  holders-put a x y [] e = cc
  holders-put a x y ((k, fd) ∷ l) e = ground (arith, holders-put a x y l)

  holders-end_of :
      (a x : ℕ) (l : List (ℕ × ℕ))
      → get a l ≡ ok x
      → holders d (end_of a l) + (if x == d then 1 else 0) ≡ holders d l
  unfolding get end_of
  holders-end_of a x [] e = cc
  holders-end_of a x ((k, fd) ∷ l) e = ground (arith, holders-end_of a x l)

  -- The objects that hold the descriptor, with the calls that closed it.
  abbrev pub known : Objects → ℕ
  known o = holders d o.held + times d o.closed

  abbrev pub Keeps : Objects → Objects → Type 0
  Keeps o o' = (known o' ≡ known o) × (holders d o'.held ≤ holders d o.held)

  swap-Keeps : (a b : ℕ) (o : Objects) → Returns (Keeps o) (swap a b o)
  unfolding swap
  swap-Keeps a b o = elim (Outcome-cases (get a o.held)) [
    | inr (x, e) ↦ rw e tt
    | inl (x, e) ↦ elim (Outcome-cases (get b o.held)) [
      | inr (y, e') ↦ rw (swap, e, e') tt
      | inl (y, e') ↦
          let first = holders-put a x y o.held e in
          let other = holders-put b y x (put a y o.held) (get-put a b x y o.held e e') in
          rw (swap, e, e') (omega (arith, first, other), omega (arith, first, other))
    ]
  ]

  destroy-Keeps : (a : ℕ) (o : Objects) → d ≢ 0 → Returns (Keeps o) (destroy a o)
  unfolding destroy
  destroy-Keeps a o n = elim (Outcome-cases (get a o.held)) [
    | inr (x, e) ↦ rw e tt
    | inl (x, e) ↦ let gone = holders-end_of a x o.held e in ground (arith, e, gone)
  ]

  construct-Keeps : (a : ℕ) (o : Objects) → d ≢ 0 → Keeps o (construct a o)
  unfolding construct
  construct-Keeps a o n = ground arith

  -- The descriptor is open as often as it is held, and it is not held twice.
  abbrev pub Once : List ℕ → Objects → Type 0
  Once opened o = (times d opened ≡ times d o.closed + holders d o.held) × (holders d o.held ≤ 1)

  Keeps-Once : (opened : List ℕ) (o o' : Objects) → Once opened o → Keeps o o' → Once opened o'
  Keeps-Once opened o o' (a, b) (k, l) = (omega (arith, a, k), omega (arith, b, l))

  of_call-Once :
      (a fd : ℕ) (opened : List ℕ) (o : Objects)
      → Once opened o
      → times fd opened ≡ times fd o.closed
      → Returns (Once (fd ∷ opened)) (of_call a (some fd) o)
  unfolding of_call
  of_call-Once a fd opened o (x, y) free = elim (ℕ_discrete fd d) [
    | yes e ↦
        let free' = subst (λ k. times k opened ≡ times k o.closed) e free in
        ground (arith, x, y, free', e)
    | no n ↦ ground (arith, x, y, n)
  ]

-- A descriptor that is not 0 was closed as often as it was opened and is not held any more, and at
-- no time two objects hold it: no close is left out, and none is made twice.
pub Uses-Once : (d : ℕ) {opened : List ℕ} {o : Objects} → d ≢ 0 → Uses opened o → Once d opened o
unfolding construct_from assign
Uses-Once d n start = (refl, omega arith)
Uses-Once d n (constructs {opened} {o} at u new) =
    Keeps-Once d opened o (construct at o) (Uses-Once d n u) (construct-Keeps d at o n)
Uses-Once d n (opens {opened} {o} at fd u new free e) =
    subst (Returns (Once d (fd ∷ opened))) e (of_call-Once d at fd opened o (Uses-Once d n u) free)
Uses-Once d n (moves {opened} {o} {o'} at other u new e) =
    let before =
      Keeps-Once d opened o (construct at o) (Uses-Once d n u) (construct-Keeps d at o n) in
    Keeps-Once d opened (construct at o) o' before
      (subst (Returns (Keeps d (construct at o))) e (swap-Keeps d at other (construct at o)))
Uses-Once d n (assigns {opened} {o} {o'} at other u e) =
    Keeps-Once d opened o o' (Uses-Once d n u)
      (subst (Returns (Keeps d o)) e (swap-Keeps d at other o))
Uses-Once d n (ends {opened} {o} {o'} at u e) =
    Keeps-Once d opened o o' (Uses-Once d n u)
      (subst (Returns (Keeps d o)) e (destroy-Keeps d at o n))
