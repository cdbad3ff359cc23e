-- ===== src/RawMessage.antt =====
-- `raw_message` of proxy/request_processing/buffered_message.h and buffered_message.cpp: a buffer
-- between two sockets, filled at `read_length` and drained at `write_length`.
pub mod Copy
pub mod Memory
pub mod Relay
pub mod Swap
use proxi.Base.{
  ℕ, zero, suc, ◌+◌, ◌-◌, ◌*◌, List, [], ◌∷◌, Bool, true, false, Outcome, ok, ◌>>=◌, ltb, ◌==◌,
  if◌then◌else◌, length, get_or, ◌&&◌, leb,
}
use proxi.FileDescriptor.{SysRead, SysWrite, read, write}
use proxi.Text.{Bytes, add64, sub64}

abbrev pub buffer_length : ℕ
buffer_length = 8 * 1024

pub record RawMessage : Type 0 where
  pub read_length : ℕ
  pub write_length : ℕ
  -- the byte at each place of the array
  pub buffer : ℕ → ℕ

-- `n` bytes of the array from a place on
unfoldable pub segment : (ℕ → ℕ) → ℕ → ℕ → Bytes
segment buffer from zero = []
segment buffer from (suc n) = buffer from ∷ segment buffer (from + 1) n

-- the array after bytes were stored from a place on
unfoldable pub fill : (ℕ → ℕ) → ℕ → Bytes → ℕ → ℕ
fill buffer from bytes i =
    if leb from i && ltb i (from + length bytes) then get_or bytes (i - from) 0 else buffer i

unfoldable pub empty : (ℕ → ℕ) → RawMessage
empty buffer = record { read_length = 0; write_length = 0; buffer = buffer }

unfoldable pub can_read : RawMessage → Bool
can_read m = ltb m.read_length buffer_length

unfoldable pub can_write : RawMessage → Bool
can_write m = ltb m.write_length m.read_length

unfoldable pub read_from : SysRead → RawMessage → Outcome RawMessage
read_from kernel m = do
  bytes ← read kernel (sub64 buffer_length m.read_length)
  ok (record m {
    read_length = add64 m.read_length (length bytes);
    buffer = fill m.buffer m.read_length bytes;
  })

unfoldable pub write_to : SysWrite → RawMessage → Outcome RawMessage
write_to kernel m = do
  n ← write kernel (segment m.buffer m.write_length (sub64 m.read_length m.write_length))
  let write_length = add64 m.write_length n
  ok (
      if write_length == buffer_length
      then record m { read_length = 0; write_length = 0 }
      else record m { write_length = write_length })
