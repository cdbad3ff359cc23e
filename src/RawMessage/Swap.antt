-- ===== src/RawMessage/Swap.antt =====
-- `swap` of two `raw_message`s, which the move constructor and the assignment use. The condition
-- of its loop is `(i < (first.read_length > second.read_length)) ? first.read_length :
-- second.read_length`, read as a truth value, where the lengths are already exchanged.
use proxi.Base.{
  ℕ, zero, suc, ◌+◌, ◌<◌, ◌≤◌, ◌≡◌, ◌≢◌, refl, Bool, true, false, not, Outcome, ok, fault,
  undefined, no_fuel, ◌>>=◌, ltb, ◌==◌, if◌then◌else◌, arith, Bool-cases, inl, inr,
}
use proxi.RawMessage.{RawMessage, buffer_length}

unfoldable pub goes_on : ℕ → ℕ → ℕ → Bool
goes_on i first second =
    if ltb i (if ltb second first then 1 else 0) then not (first == 0) else not (second == 0)

-- `swap(first.buffer[i], second.buffer[i])`
unfoldable pub swap_byte : ℕ → RawMessage × RawMessage → Outcome (RawMessage × RawMessage)
swap_byte i (a, b) =
    if ltb i buffer_length
    then ok (
      record a { buffer = λ j. if j == i then b.buffer j else a.buffer j },
      record b { buffer = λ j. if j == i then a.buffer j else b.buffer j },
    )
    else fault undefined

unfoldable pub swap_bytes : ℕ → ℕ → RawMessage × RawMessage → Outcome (RawMessage × RawMessage)
swap_bytes zero i pair = fault no_fuel
swap_bytes (suc fuel) i pair = elim (goes_on i pair.0.read_length pair.1.read_length) [
  | false ↦ ok pair
  | true ↦ do pair' ← swap_byte i pair; swap_bytes fuel (i + 1) pair'
]

-- The array has `buffer_length` places, so the loop has left it or ended after one round more.
unfoldable pub swap : RawMessage → RawMessage → Outcome (RawMessage × RawMessage)
swap first second = swap_bytes (buffer_length + 1) 0 (
  record first { read_length = second.read_length; write_length = second.write_length },
  record second { read_length = first.read_length; write_length = first.write_length },
)

goes_on_always : (i first second : ℕ) → second ≢ 0 → goes_on i first second ≡ true
unfolding goes_on
goes_on_always i first second h = ground arith

swap_bytes-undefined :
    (fuel i : ℕ) (a b : RawMessage)
    → b.read_length ≢ 0
    → buffer_length < i + fuel
    → i ≤ buffer_length
    → swap_bytes fuel i (a, b) ≡ fault undefined
unfolding swap_bytes swap_byte
swap_bytes-undefined zero i a b h l k = absurd (omega arith)
swap_bytes-undefined (suc fuel) i a b h l k = elim (Bool-cases (ltb i buffer_length)) [
  | inl inside ↦
      rw (swap_bytes, goes_on_always i a.read_length b.read_length h, inside)
        (swap_bytes-undefined fuel (i + 1) _ _ h (omega arith) (ground arith))
  | inr outside ↦ rw (swap_bytes, goes_on_always i a.read_length b.read_length h, outside) refl
]

-- Whenever the first message has a read length other than 0, `swap` runs out of the two
-- arrays: the length that ends up on the right is then the condition at every round.
pub swap-undefined :
    (first second : RawMessage) → first.read_length ≢ 0 → swap first second ≡ fault undefined
unfolding swap
swap-undefined first second h =
    swap_bytes-undefined (buffer_length + 1) 0 _ _ h (omega arith) (omega arith)
