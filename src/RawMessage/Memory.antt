-- ===== src/RawMessage/Memory.antt =====
-- The array of a `raw_message` as a list of bytes.
use native.Mathlib.Nat.{zero-add, add-zero, suc-add}
use proxi.Base.{
  ℕ, zero, suc, ◌+◌, ◌-◌, ◌≤◌, ◌<◌, ◌≡◌, refl, sym, ◌∙◌, ap, [], ◌∷◌, ◌++◌, length, drop, get_or,
  arith, drop_of_length-le, lt→ltb, le→leb,
}
use proxi.RawMessage.{segment, fill}
use proxi.Text.{Bytes}

pub length-segment : (b : ℕ → ℕ) (from n : ℕ) → length (segment b from n) ≡ n
unfolding segment
length-segment b from zero = refl
length-segment b from (suc n) = ap suc (length-segment b (from + 1) n)

pub segment-add :
    (b : ℕ → ℕ) (from m n : ℕ) → segment b from (m + n) ≡ segment b from m ++ segment b (from + m) n
unfolding segment
segment-add b from zero n = rw (zero-add, add-zero) refl
segment-add b from (suc m) n =
    let step : from + 1 + m ≡ from + suc m = omega arith in
    rw (suc-add, segment, segment-add b (from + 1) m n, step) refl

-- Bytes in front of the stored ones stay.
pub segment-fill_before :
    (b : ℕ → ℕ) (at : ℕ) (bytes : Bytes) (from n : ℕ)
    → from + n ≤ at
    → segment (fill b at bytes) from n ≡ segment b from n
unfolding segment fill
segment-fill_before b at bytes from zero h = refl
segment-fill_before b at bytes from (suc n) h =
    ground (arith, segment-fill_before b at bytes (from + 1) n)

drop_get :
    (k : ℕ) (bytes : Bytes)
    → k < length bytes
    → drop k bytes ≡ get_or bytes k 0 ∷ drop (k + 1) bytes
drop_get k [] h = absurd (omega arith)
drop_get zero (x ∷ bytes) h = refl
drop_get (suc k) (x ∷ bytes) h =
    let next : suc k + 1 ≡ suc (k + 1) = omega arith in rw next (drop_get k bytes (omega arith))

fill_inside :
    (b : ℕ → ℕ) (at k : ℕ) (bytes : Bytes)
    → k < length bytes
    → fill b at bytes (at + k) ≡ get_or bytes k 0
unfolding fill
fill_inside b at k bytes h =
    let same : at + k - at ≡ k = omega arith in
    rw (le→leb at (at + k) (omega arith), lt→ltb (at + k) (at + length bytes) (omega arith), same)
      refl

fill_from :
    (b : ℕ → ℕ) (at k : ℕ) (bytes : Bytes) (n : ℕ)
    → k + n ≡ length bytes
    → segment (fill b at bytes) (at + k) n ≡ drop k bytes
unfolding segment
fill_from b at k bytes zero h = sym (drop_of_length-le k bytes (omega arith))
fill_from b at k bytes (suc n) h =
    let next : at + k + 1 ≡ at + (k + 1) = omega arith in
    rw (next, fill_inside b at k bytes (omega arith), fill_from b at (k + 1) bytes n (omega arith))
      (sym (drop_get k bytes (omega arith)))

-- The stored bytes are read back.
pub segment-fill_self :
    (b : ℕ → ℕ) (at : ℕ) (bytes : Bytes) → segment (fill b at bytes) at (length bytes) ≡ bytes
segment-fill_self b at bytes =
    ap (λ (k : ℕ). segment (fill b at bytes) k (length bytes)) (sym (add-zero at))
    ∙ fill_from b at 0 bytes (length bytes) (omega arith)
