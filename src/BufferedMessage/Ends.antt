-- ===== src/BufferedMessage/Ends.antt =====
-- How `buffered_message` finds the end of a header and of a chunked body, where that fails.

use proxi.Base.{
  ℕ, suc, ◌+◌, ◌-◌, ◌≤◌, ◌<◌, ◌≡◌, refl, sym, ◌∙◌, ap, [], ◌∷◌, ◌++◌, none, some, true, false, ◌&&◌,
  ok, fault, out_of_range, leb, ◌==◌, length, take, drop, arith, ne→==, eq→==, Bool-cases, inl, inr,
  take-append-drop, length-drop, ok-injective, append_assoc, append-nil, lt→ltb, take_of_length-le,
}
use proxi.BufferedMessage.{
  BufferedMessage, HeaderType, inf, buffer_length, find_end, is_read, should_read, end_chunks,
  take_bytes, take_header, read_from,
}
use proxi.FileDescriptor.{SysRead, read-ok}
use proxi.Text.Laws.{equal_iff, substr_total}
use proxi.Text.{Bytes, Lacks, codes, add64, index_of_text, starts_with, substr, equal}

abbrev pub chunk_end : Bytes
chunk_end = codes "0\r\n\r\n"

starts_with_self : (t s : Bytes) → starts_with t (t ++ s) ≡ true
unfolding starts_with
starts_with_self [] s = refl
starts_with_self (c ∷ t) s = ground (arith, starts_with_self t s)

-- A text is found where it stands, or before.
index_of_text-append :
    (c : ℕ) (t p s : Bytes)
    → (i : ℕ) × (index_of_text (c ∷ t) (p ++ ((c ∷ t) ++ s)) ≡ some i) × (i ≤ length p)
unfolding index_of_text
index_of_text-append c t [] s =
    (0, rw (index_of_text, starts_with_self (c ∷ t) s) refl, omega arith)
index_of_text-append c t (x ∷ p) s =
    elim (Bool-cases (starts_with (c ∷ t) (x ∷ (p ++ ((c ∷ t) ++ s))))) [
      | inl here ↦ (0, rw (index_of_text, here) refl, omega arith)
      | inr later ↦
          let (i, found, le) = index_of_text-append c t p s in
          (suc i, rw (index_of_text, later, found) refl, omega arith)
    ]

index_of_text-Lacks : (c : ℕ) (t s : Bytes) → Lacks c s → index_of_text (c ∷ t) s ≡ none
unfolding index_of_text starts_with
index_of_text-Lacks c t [] h = refl
index_of_text-Lacks c t (x ∷ s) h =
    rw (index_of_text, starts_with, ne→== x c h.0, index_of_text-Lacks c t s h.1) refl

substr_beyond : (s : Bytes) (pos n : ℕ) → length s < pos → substr s pos n ≡ fault out_of_range
unfolding substr
substr_beyond s pos n h = rw (substr, lt→ltb (length s) pos h) refl

no_bytes : (bytes : Bytes) → length bytes ≤ 0 → bytes ≡ []
no_bytes [] h = refl
no_bytes (x ∷ bytes) h = absurd (omega arith)

find_end_crlf :
    (message : Bytes) (i : ℕ)
    → index_of_text (codes "\r\n\r\n") message ≡ some i
    → find_end message ≡ some i
unfolding find_end
find_end_crlf message i h = rw (find_end, h) refl

last_five :
    (message tail : Bytes)
    → 5 ≤ length message
    → substr message (length message - 5) (length message) ≡ ok tail
    → take (length message - 5) message ++ tail ≡ message
last_five message tail long s =
    let k = length message - 5 in
    let whole : take (length message) (drop k message) ≡ drop k message =
      take_of_length-le (length message) (drop k message) (omega (arith, length-drop k message)) in
    let is_tail : tail ≡ drop k message =
      ok-injective (sym s ∙ substr_total message k (length message) (omega arith)) ∙ whole in
    ap (λ (t : Bytes). take k message ++ t) is_tail ∙ take-append-drop k message

-- A text that ends with the mark of the last chunk has the end of a header in it.
chunk_end-find_end :
    (message front : Bytes) → front ++ chunk_end ≡ message → (i : ℕ) × (find_end message ≡ some i)
chunk_end-find_end message front e =
    let (i, found, _) = index_of_text-append b'\r' (codes "\n\r\n") (front ++ b'0' ∷ []) [] in
    let same = append_assoc front (b'0' ∷ []) (codes "\r\n\r\n") ∙ e in
    (i, find_end_crlf message i (ap (index_of_text (codes "\r\n\r\n")) (sym same) ∙ found))

module _ {T : Type 0} where
  end_chunks-none :
      (message : Bytes) (m : BufferedMessage T)
      → find_end message ≡ none
      → end_chunks message m ≡ ok m
  unfolding end_chunks
  end_chunks-none message m n = elim (Bool-cases (m.body_length == inf && leb 5 (length message))) [
    | inr e ↦ rw (end_chunks, e) refl
    | inl e ↦
        let k = length message - 5 in
        let long : 5 ≤ length message = ground arith in
        let read = substr_total message k (length message) (omega arith) in
        let tail = take (length message) (drop k message) in
        elim (Bool-cases (equal tail chunk_end)) [
          | inr other ↦ rw (end_chunks, e, read, other) refl
          | inl mark ↦
              let joined =
                ap (λ (t : Bytes). take k message ++ t) (sym ((equal_iff tail chunk_end).0 mark))
                ∙ last_five message tail long read in
              let (i, found) = chunk_end-find_end message (take k message) joined in
              cc (sym n ∙ found)
        ]
  ]

module _ {T : Type 0} (header_type : HeaderType T) where
  -- A header not read before, that ends with two line feeds and has fewer than two bytes
  -- behind them, with no carriage return at all, makes `read_from` throw `std::out_of_range`:
  -- the code skips four bytes behind the place that it found.
  pub read_from_line_feeds :
      (kernel : SysRead) (m : BufferedMessage T) (bytes : Bytes) (p : ℕ)
      → m.header_length ≡ 0
      → kernel.answer (should_read m) ≡ some bytes
      → Lacks b'\r' (m.buffer ++ bytes)
      → index_of_text (codes "\n\n") (m.buffer ++ bytes) ≡ some p
      → length (m.buffer ++ bytes) < p + 4
      → read_from header_type kernel m ≡ fault out_of_range
  unfolding read_from take_bytes take_header find_end
  read_from_line_feeds kernel m bytes p z e no_cr found short =
      rw
        (
          read-ok kernel (should_read m) bytes e,
          eq→== m.header_length 0 z,
          index_of_text-Lacks b'\r' (codes "\n\r\n") (m.buffer ++ bytes) no_cr,
          found,
        )
        (rw (substr_beyond (m.buffer ++ bytes) (p + 4) (length (m.buffer ++ bytes)) short) refl)

  -- A header that fills the array without an end is never read: the kernel is asked for no bytes,
  -- and every call leaves the message as it was.
  pub read_from_full :
      (kernel : SysRead) (m : BufferedMessage T) (bytes : Bytes)
      → m.header_length ≡ 0
      → m.read ≡ 0
      → m.body_length ≡ inf
      → m.read_length ≡ buffer_length
      → length m.buffer ≡ buffer_length
      → find_end m.buffer ≡ none
      → kernel.answer (should_read m) ≡ some bytes
      → (should_read m ≡ 0) × (read_from header_type kernel m ≡ ok m) × (is_read m ≡ false)
  unfolding read_from take_bytes should_read is_read
  read_from_full kernel m bytes z r b l f n e =
      let nothing : should_read m ≡ 0 = rw (should_read, l, b, r) refl in
      let empty : bytes ≡ [] =
        no_bytes bytes (omega (arith, kernel.at_most (should_read m) bytes e, nothing)) in
      let same : m.buffer ++ bytes ≡ m.buffer =
        ap (λ (x : Bytes). m.buffer ++ x) empty ∙ append-nil m.buffer in
      let count : add64 m.read_length (length bytes) ≡ m.read_length =
        omega (arith, ap length empty) in
      (
        nothing,
        rw
            (
              read-ok kernel (should_read m) bytes e,
              eq→== m.header_length 0 z,
              same,
              n,
              same,
              count,
              end_chunks-none m.buffer m n,
            )
            refl,
        ground arith,
      )
