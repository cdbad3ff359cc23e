-- ===== src/BufferedMessage/Body.antt =====
-- The reading side of `buffered_message` behind its header.
use proxi.Base.{
  ◌+◌, ◌-◌, ◌^◌, ◌≤◌, ◌<◌, ◌≡◌, ◌≢◌, refl, [], ◌∷◌, ◌++◌, some, false, ok, ltb, ◌==◌, length, arith,
  ne→==, Bool-cases, inl, inr, ltb→lt, ltb→le,
}
use proxi.BufferedMessage.{
  BufferedMessage, HeaderType, inf, buffer_length, is_read, should_read, end_chunks, take_bytes,
  read_from,
}
use proxi.FileDescriptor.{SysRead, read-ok}
use proxi.Text.{Bytes, add64, sub64}

module _ {T : Type 0} where
  -- The header is read, and the array is empty, as `read_from` leaves it.
  pub record InBody (m : BufferedMessage T) : Type 0 where
    pub header_there : m.header_length ≢ 0
    pub nothing_kept : m.buffer ≡ []
    pub from_start : m.read_length ≡ 0
    pub not_beyond : m.read ≤ m.body_length
    pub bounded : m.body_length < 2 ^ 63

  -- Never more than the array holds, and never more than the rest of the body, is asked for.
  pub should_read_lem :
      (m : BufferedMessage T)
      → InBody m
      → (should_read m ≤ buffer_length) × (m.read + should_read m ≤ m.body_length)
  unfolding should_read
  should_read_lem m v =
      let rest : sub64 m.body_length m.read ≡ m.body_length - m.read = omega arith in
      let room : sub64 buffer_length m.read_length ≡ buffer_length = omega arith in
      elim (Bool-cases (ltb (sub64 buffer_length m.read_length) (sub64 m.body_length m.read))) [
        | inl less ↦ rw (should_read, less) (omega (arith, ltb→lt _ _ less))
        | inr all ↦ rw (should_read, all) (omega (arith, ltb→le _ _ all))
      ]

  end_chunks_skip :
      (message : Bytes) (m : BufferedMessage T)
      → (m.body_length == inf) ≡ false
      → end_chunks message m ≡ ok m
  unfolding end_chunks
  end_chunks_skip message m h = rw h refl

module _ {T : Type 0} (header_type : HeaderType T) where
  pub take_bytes_body :
      (bytes : Bytes) (m : BufferedMessage T)
      → InBody m
      → m.read + length bytes ≤ m.body_length
      → take_bytes header_type bytes m
        ≡ ok (
          bytes,
          record m {
            read = m.read + length bytes;
            cache = m.cache ++ bytes ∷ [];
            read_length = 0;
            buffer = [];
          },
        )
  unfolding take_bytes
  take_bytes_body bytes m v h =
      let total : add64 m.read (length bytes) ≡ m.read + length bytes = omega (arith, v.bounded) in
      rw (ne→== m.header_length 0 v.header_there, v.nothing_kept, total) refl

  -- If the header is read, the array is empty, and a length other than the one that stands for
  -- an unknown length was announced and not exceeded, `read_from` returns when the kernel
  -- does: it keeps what the kernel returned as one more part and counts it, never reads beyond
  -- the announced length, and the message is read exactly when that length is reached.
  pub read_from_body :
      (kernel : SysRead) (m : BufferedMessage T) (bytes : Bytes)
      → InBody m
      → m.body_length ≢ inf
      → kernel.answer (should_read m) ≡ some bytes
      → (m' : BufferedMessage T) × (read_from header_type kernel m ≡ ok m')
        × InBody m'
        × (m'.cache ≡ m.cache ++ bytes ∷ [])
        × (m'.read ≡ m.read + length bytes)
        × (m'.body_length ≡ m.body_length)
        × (is_read m' ≡ (m.read + length bytes == m.body_length))
  unfolding read_from is_read
  read_from_body kernel m bytes v n e =
      let fits = kernel.at_most (should_read m) bytes e in
      let inside : m.read + length bytes ≤ m.body_length = omega (arith, should_read_lem m v) in
      let m' = record m {
        read = m.read + length bytes;
        cache = m.cache ++ bytes ∷ [];
        read_length = 0;
        buffer = [];
      } in
      (
        m',
        rw
            (
              read-ok kernel (should_read m) bytes e,
              take_bytes_body bytes m v inside,
              end_chunks_skip bytes m' (ne→== m.body_length inf n),
            )
            refl,
        record {
          header_there = v.header_there;
          nothing_kept = refl;
          from_start = refl;
          not_beyond = inside;
          bounded = v.bounded;
        },
        refl,
        refl,
        refl,
        ground arith,
      )
