-- ===== src/BufferedMessage/Chunks.antt =====
-- When `buffered_message` takes a chunked body for ended: it looks at the last five bytes of each
-- piece that the kernel returns, by itself.
use proxi.Base.{
  ℕ, ◌+◌, ◌-◌, ◌<◌, ◌≡◌, refl, sym, ◌∙◌, ap, [], ◌∷◌, ◌++◌, some, true, false, ok, leb, length,
  arith, eq→==, append-nil, length-append,
}
use proxi.BufferedMessage.Body.{InBody, take_bytes_body}
use proxi.BufferedMessage.Ends.{chunk_end}
use proxi.BufferedMessage.{
  BufferedMessage, HeaderType, inf, find_end, is_read, should_read, end_chunks, take_bytes,
  take_header, read_from, announced,
}
use proxi.FileDescriptor.{SysRead, read-ok}
use proxi.Text.Laws.{equal_refl, substr_rest}
use proxi.Text.{Bytes, codes, equal}

lt→leb : (a b : ℕ) → b < a → leb a b ≡ false
lt→leb a b h = ground arith

module _ {T : Type 0} where
  end_chunks_short :
      (message : Bytes) (m : BufferedMessage T) → length message < 5 → end_chunks message m ≡ ok m
  unfolding end_chunks
  end_chunks_short message m h = rw (lt→leb 5 (length message) h) (ground arith)

  -- The mark of the last chunk ends the body at what was read.
  pub end_chunks_mark :
      (message front : Bytes) (m : BufferedMessage T)
      → m.body_length ≡ inf
      → message ≡ front ++ chunk_end
      → end_chunks message m ≡ ok (record m { body_length = m.read })
  unfolding end_chunks
  end_chunks_mark message front m b e =
      let size = ap length e ∙ length-append front chunk_end in
      let five : leb 5 (length message) ≡ true = ground arith in
      let tail =
        substr_rest message front chunk_end (length message - 5) (length message) e (omega arith)
          (omega arith) in
      rw (eq→== m.body_length inf b, five, tail, equal_refl chunk_end) refl

module _ {T : Type 0} (header_type : HeaderType T) where
  -- In a chunked body of which less than the length that stands for infinity is read, a piece
  -- of fewer than five bytes never ends the body: the mark of the last chunk is not seen if
  -- the kernel returns it in two pieces whose second one is that short.
  pub read_from_short :
      (kernel : SysRead) (m : BufferedMessage T) (bytes : Bytes)
      → InBody m
      → m.body_length ≡ inf
      → kernel.answer (should_read m) ≡ some bytes
      → length bytes < 5
      → m.read + length bytes < inf
      → (m' : BufferedMessage T) × (read_from header_type kernel m ≡ ok m')
        × (m'.cache ≡ m.cache ++ bytes ∷ [])
        × (is_read m' ≡ false)
  unfolding read_from is_read
  read_from_short kernel m bytes v b e short room =
      let m' = record m {
        read = m.read + length bytes;
        cache = m.cache ++ bytes ∷ [];
        read_length = 0;
        buffer = [];
      } in
      (
        m',
        rw
            (
              read-ok kernel (should_read m) bytes e,
              take_bytes_body header_type bytes m v (omega arith),
              end_chunks_short bytes m' short,
            )
            refl,
        refl,
        ground arith,
      )

  take_bytes_header :
      (m : BufferedMessage T) (bytes : Bytes) (p : ℕ) (header : T)
      → m.header_length ≡ 0
      → find_end (m.buffer ++ bytes) ≡ some p
      → length (m.buffer ++ bytes) ≡ p + 4
      → header_type.parse (m.buffer ++ bytes) ≡ ok header
      → header_type.has_property header (codes "content-length") ≡ false
      → equal (header_type.get_property header (codes "transfer-encoding")) (codes "chunked") ≡ true
      → take_bytes header_type bytes m
        ≡ ok (
          header_type.to_string header ++ [],
          record m {
            header_length = length (header_type.to_string header);
            header = header;
            body_length = inf;
            read = 0;
            cache = m.cache ++ (header_type.to_string header ++ []) ∷ [];
            read_length = 0;
            buffer = [];
            cur_part = 0;
          },
        )
  unfolding take_bytes take_header announced
  take_bytes_header m bytes p header z f l parsed no_length chunked =
      let message = m.buffer ++ bytes in
      let no_body =
        substr_rest message message [] (p + 4) (length message) (sym (append-nil message)) (sym l)
          (omega arith) in
      rw (eq→== m.header_length 0 z, f, no_body, parsed, no_length, chunked) refl

  -- A chunked response whose printed header ends in "0" in front of its two line ends, and of
  -- which the kernel has returned the header alone, is taken for read with no body at all.
  pub read_from_header_mark :
      (kernel : SysRead) (m : BufferedMessage T) (bytes front : Bytes) (p : ℕ) (header : T)
      → m.header_length ≡ 0
      → kernel.answer (should_read m) ≡ some bytes
      → find_end (m.buffer ++ bytes) ≡ some p
      → length (m.buffer ++ bytes) ≡ p + 4
      → header_type.parse (m.buffer ++ bytes) ≡ ok header
      → header_type.has_property header (codes "content-length") ≡ false
      → equal (header_type.get_property header (codes "transfer-encoding")) (codes "chunked") ≡ true
      → header_type.to_string header ≡ front ++ chunk_end
      → (m' : BufferedMessage T) × (read_from header_type kernel m ≡ ok m')
        × (is_read m' ≡ true)
        × (m'.read ≡ 0)
        × (m'.cache ≡ m.cache ++ header_type.to_string header ∷ [])
  unfolding read_from is_read
  read_from_header_mark kernel m bytes front p header z e f l parsed no_length chunked mark =
      let printed = header_type.to_string header in
      let m' = record m {
        header_length = length printed;
        header = header;
        body_length = 0;
        read = 0;
        cache = m.cache ++ (printed ++ []) ∷ [];
        read_length = 0;
        buffer = [];
        cur_part = 0;
      } in
      (
        m',
        rw
            (
              read-ok kernel (should_read m) bytes e,
              take_bytes_header m bytes p header z f l parsed no_length chunked,
              end_chunks_mark (printed ++ []) front (record m' { body_length = inf }) refl
                  (append-nil printed ∙ mark),
            )
            refl,
        refl,
        refl,
        ap (λ (s : Bytes). m.cache ++ s ∷ []) (append-nil printed),
      )
