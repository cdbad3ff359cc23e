-- ===== src/RawMessage/Copy.antt =====
-- The copy constructor of `raw_message`: the loop stores what stands in front of `read_length`, and
-- the rest of the new array is what the memory held.
use proxi.Base.{ℕ, zero, suc, ◌+◌, ◌-◌, ◌≤◌, ◌≡◌, refl, ltb, if◌then◌else◌, arith}
use proxi.RawMessage.Relay.{IsValid, pending}
use proxi.RawMessage.{RawMessage, segment}

unfoldable pub copy : (ℕ → ℕ) → RawMessage → RawMessage
copy memory other = record {
  read_length = other.read_length;
  write_length = other.write_length;
  buffer = λ i. if ltb i other.read_length then other.buffer i else memory i;
}

-- Places in front of `last` are those of the array that was copied.
segment-copied :
    (memory b : ℕ → ℕ) (last from n : ℕ)
    → from + n ≤ last
    → segment (λ i. if ltb i last then b i else memory i) from n ≡ segment b from n
unfolding segment
segment-copied memory b last from zero h = refl
segment-copied memory b last from (suc n) h =
    let rest = segment-copied memory b last (from + 1) n (omega arith) in ground (arith, rest)

-- A copy of a well-formed message is well formed and has the same bytes to write.
pub copy-IsValid :
    (memory : ℕ → ℕ) (m : RawMessage)
    → IsValid m
    → IsValid (copy memory m) × (pending (copy memory m) ≡ pending m)
unfolding copy
copy-IsValid memory m v = (
  omega arith,
  segment-copied memory m.buffer m.read_length m.write_length (m.read_length - m.write_length)
      (omega arith),
)
