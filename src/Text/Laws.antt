-- ===== src/Text/Laws.antt =====
-- Laws of the text operations, at a text that is given as a prefix, a piece and a rest.

use proxi.Base.{
  ℕ, ◌+◌, ◌≤◌, ◌<◌, [], ◌∷◌, ◌++◌, none, some, ◌≡◌, refl, ◌↔◌, ◌≢◌, ok, true, false, le→ltb, length,
  take, drop, get_or, arith, length-append, drop_append, take_append, take_of_length-le, Bool-cases,
  inl, inr, ◌⊎◌, ◌==◌, suc, length-drop,
}
use proxi.Text.{Bytes, npos, index_of, find, substr, byte_at, equal, lower, to_lower, Lacks}

pub equal_iff : (a b : Bytes) → (equal a b ≡ true) ↔ (a ≡ b)
unfolding equal
equal_iff [] [] = ground arith
equal_iff [] (y ∷ b) = ground arith
equal_iff (x ∷ a) [] = ground arith
equal_iff (x ∷ a) (y ∷ b) = let tail = equal_iff a b in ground (arith, tail)

pub equal_refl : (a : Bytes) → equal a a ≡ true
equal_refl a = (equal_iff a a).1 refl

pub equal_ne : (a b : Bytes) → a ≢ b → equal a b ≡ false
equal_ne a b h = elim (Bool-cases (equal a b)) [
  | inl e ↦ absurd (h ((equal_iff a b).0 e))
  | inr e ↦ e
]

pub index_of-append : (c : ℕ) (a s : Bytes) → Lacks c a → index_of c (a ++ c ∷ s) ≡ some (length a)
unfolding index_of
index_of-append c [] s h = ground arith
index_of-append c (x ∷ a) s h = ground (arith, index_of-append c a s h.1)

pub index_of-Lacks : (c : ℕ) (s : Bytes) → Lacks c s → index_of c s ≡ none
unfolding index_of
index_of-Lacks c [] h = refl
index_of-Lacks c (x ∷ s) h = ground (arith, index_of-Lacks c s h.1)

-- Searching from the end of a prefix finds the byte behind the piece that lacks it.
pub find_at :
    (m p a s : Bytes) (c pos : ℕ)
    → m ≡ p ++ (a ++ c ∷ s)
    → pos ≡ length p
    → Lacks c a
    → find m c pos ≡ length p + length a
unfolding find
find_at m p a s c pos e i h =
    rw (e, i, find, drop_append p (a ++ c ∷ s), index_of-append c a s h) (omega arith)

pub find_none :
    (m p s : Bytes) (c pos : ℕ) → m ≡ p ++ s → pos ≡ length p → Lacks c s → find m c pos ≡ npos
unfolding find
find_none m p s c pos e i h = rw (e, i, find, drop_append p s, index_of-Lacks c s h) refl

pub substr_at :
    (m p a s : Bytes) (pos n : ℕ)
    → m ≡ p ++ (a ++ s)
    → pos ≡ length p
    → n ≡ length a
    → substr m pos n ≡ ok a
unfolding substr
substr_at m p a s pos n e i j =
    rw
      (
        e,
        i,
        j,
        le→ltb (length (p ++ (a ++ s))) (length p) (omega (arith, length-append p (a ++ s))),
        drop_append p (a ++ s),
        take_append a s,
      )
      refl

-- A count that reaches past the end takes the rest.
pub substr_rest :
    (m p a : Bytes) (pos n : ℕ) → m ≡ p ++ a → pos ≡ length p → length a ≤ n → substr m pos n ≡ ok a
unfolding substr
substr_rest m p a pos n e i h =
    rw
      (
        e,
        i,
        le→ltb (length (p ++ a)) (length p) (omega (arith, length-append p a)),
        drop_append p a,
        take_of_length-le n a h,
      )
      refl

get_or-append : (p : Bytes) (x : ℕ) (s : Bytes) → get_or (p ++ x ∷ s) (length p) 0 ≡ x
get_or-append [] x s = refl
get_or-append (y ∷ p) x s = get_or-append p x s

pub byte_at_lem :
    (m p s : Bytes) (x pos : ℕ) → m ≡ p ++ x ∷ s → pos ≡ length p → byte_at m pos ≡ ok x
unfolding byte_at
byte_at_lem m p s x pos e i =
    rw
      (
        e,
        i,
        le→ltb (length (p ++ x ∷ s)) (length p) (omega (arith, length-append p (x ∷ s))),
        get_or-append p x s,
      )
      refl

lower_idem : (c : ℕ) → lower (lower c) ≡ lower c
unfolding lower
lower_idem c = ground arith

pub to_lower_idem : (s : Bytes) → to_lower (to_lower s) ≡ to_lower s
unfolding to_lower
to_lower_idem [] = refl
to_lower_idem (c ∷ s) = rw (lower_idem c, to_lower_idem s) refl

pub Lacks-append : (c : ℕ) (a b : Bytes) → Lacks c a → Lacks c b → Lacks c (a ++ b)
Lacks-append c [] b h k = k
Lacks-append c (x ∷ a) b h k = (h.0, Lacks-append c a b h.1 k)

pub substr_total :
    (s : Bytes) (pos n : ℕ) → pos ≤ length s → substr s pos n ≡ ok (take n (drop pos s))
unfolding substr
substr_total s pos n h = rw (le→ltb (length s) pos h) refl

index_of-lt :
    (c : ℕ) (s : Bytes)
    → (index_of c s ≡ none) ⊎ ((i : ℕ) × (index_of c s ≡ some i) × (i < length s))
unfolding index_of
index_of-lt c [] = inl refl
index_of-lt c (x ∷ s) = elim (Bool-cases (x == c)) [
  | inl e ↦ inr (0, rw (index_of, e) refl, omega arith)
  | inr e ↦ elim (index_of-lt c s) [
    | inl h ↦ inl (rw (index_of, e, h) refl)
    | inr (i, h, b) ↦ inr (suc i, rw (index_of, e, h) refl, omega arith)
  ]
]

-- A search returns `npos`, or a place inside the text at or behind its start.
pub find_bounds :
    (s : Bytes) (c pos : ℕ)
    → (find s c pos ≡ npos) ⊎ ((pos ≤ find s c pos) × (find s c pos < length s))
unfolding find
find_bounds s c pos = elim (index_of-lt c (drop pos s)) [
  | inl h ↦ inl (rw (find, h) refl)
  | inr (i, h, b) ↦
      inr (rw (find, h) (omega arith), rw (find, h) (omega (arith, length-drop pos s)))
]
