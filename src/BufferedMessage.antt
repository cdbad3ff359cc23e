-- ===== src/BufferedMessage.antt =====
-- `buffered_message<T>` of proxy/request_processing/buffered_message.h: a message that is read
-- from one socket and kept as a list of parts, the first of them the printed header, and written
-- from these parts to another socket. What the template asks of `T` is the record `HeaderType`.
-- `buffer` holds the bytes that `read_from` has put into the array since `read_length` was 0: the
-- text that `std::string message(buffer, read_length)` makes of it.
pub mod Parts
pub mod Body
pub mod Ends
pub mod Chunks
pub mod Headers
use proxi.Base.{
  ℕ, suc, ◌+◌, ◌-◌, ◌*◌, ◌^◌, List, [], ◌∷◌, ◌++◌, Option, none, some, Bool, true, false, not, ◌&&◌,
  Outcome, ok, fault, undefined, ◌>>=◌, ltb, leb, ◌==◌, if◌then◌else◌, length, get_elem?, drop,
  take,
}
use proxi.FileDescriptor.{SysRead, SysWrite, read, write}
use proxi.Text.Numbers.{ℤ, pos, negsuc}
use proxi.Text.{Bytes, codes, add64, sub64, index_of_text, substr, equal}

-- What `buffered_message` calls of its header.
pub record HeaderType (T : Type 0) : Type 0 where
  pub parse : Bytes → Outcome T
  pub to_string : T → Bytes
  pub has_property : T → Bytes → Bool
  pub get_property : T → Bytes → Bytes
  pub get_int : T → Bytes → Outcome ℤ

abbrev pub inf : ℕ
inf = 2 ^ 32

abbrev pub buffer_length : ℕ
buffer_length = 8 * 1024

pub record BufferedMessage (T : Type 0) : Type 0 where
  pub header_length : ℕ
  pub body_length : ℕ
  pub read : ℕ
  pub read_length : ℕ
  pub buffer : Bytes
  pub write_length : ℕ
  pub header : T
  pub cur_part : ℕ
  pub cache : List Bytes

-- the conversion of an `int` to `size_t`
unfoldable pub to_size : ℤ → ℕ
to_size (pos n) = n
to_size (negsuc n) = 2 ^ 64 - 1 - n

-- `message.find("\r\n\r\n")`, and `message.find("\n\n")` where that is not found
unfoldable pub find_end : Bytes → Option ℕ
find_end message = elim (index_of_text (codes "\r\n\r\n") message) [
  | some p ↦ some p
  | none ↦ index_of_text (codes "\n\n") message
]

-- the sizes of all parts
unfoldable pub total : List Bytes → ℕ
total [] = 0
total (part ∷ parts) = length part + total parts

module _ {T : Type 0} where
  unfoldable pub is_read : BufferedMessage T → Bool
  is_read m = leb m.body_length m.read

  unfoldable pub can_read : BufferedMessage T → Bool
  unfolding is_read
  can_read m = not (is_read m)

  -- `cur_part` is never greater than `cache.size()`
  unfoldable pub can_write : BufferedMessage T → Bool
  can_write m = elim (get_elem? m.cache m.cur_part) [
    | none ↦ false
    | some part ↦ ltb m.write_length (length part)
  ]

  unfoldable pub is_written : BufferedMessage T → Bool
  unfolding is_read
  is_written m = is_read m && m.cur_part == length m.cache

  unfoldable pub is_header_read : BufferedMessage T → Bool
  is_header_read m = not (m.header_length == 0)

  -- the default constructor
  unfoldable pub empty : T → BufferedMessage T
  empty blank = record {
    header_length = 0;
    body_length = inf;
    read = 0;
    read_length = 0;
    buffer = [];
    write_length = 0;
    header = blank;
    cur_part = 0;
    cache = [];
  }

  -- how many bytes `read_from` asks for
  unfoldable pub should_read : BufferedMessage T → ℕ
  should_read m =
      let body_left = sub64 m.body_length m.read in
      let room = sub64 buffer_length m.read_length in if ltb room body_left then room else body_left

  -- the end of `read_from`, with the text that was read
  unfoldable pub end_chunks : Bytes → BufferedMessage T → Outcome (BufferedMessage T)
  end_chunks message m =
      if m.body_length == inf && leb 5 (length message)
      then (do
        tail ← substr message (length message - 5) (length message)
        ok (if equal tail (codes "0\r\n\r\n") then record m { body_length = m.read } else m))
      else ok m

  -- `write_to`; a part that is not there is an access outside the vector
  unfoldable pub write_to : SysWrite → BufferedMessage T → Outcome (BufferedMessage T)
  write_to kernel m = elim (get_elem? m.cache m.cur_part) [
    | none ↦ fault undefined
    | some part ↦ do
      n ← write kernel (drop m.write_length part)
      let write_length = add64 m.write_length n
      ok (
          if write_length == length part
          then record m { write_length = 0; cur_part = m.cur_part + 1 }
          else record m { write_length = write_length })
  ]

module _ {T : Type 0} (header_type : HeaderType T) where
  -- the constructor from a header and a body
  unfoldable pub of_header : T → Bytes → BufferedMessage T
  of_header header body =
      let message = header_type.to_string header in
      record {
        header_length = length message;
        body_length = length body;
        read = length body;
        read_length = length message + length body;
        buffer = [];
        write_length = 0;
        header = header;
        cur_part = 0;
        cache = (message ++ body) ∷ [];
      }

  -- the constructor from a cached message
  unfoldable pub of_cache : List Bytes → Outcome (BufferedMessage T)
  unfolding total
  of_cache [] = fault undefined
  of_cache (first ∷ parts) = do
    header ← header_type.parse first
    ok (record {
      header_length = 0;
      body_length = total (first ∷ parts);
      read = total (first ∷ parts);
      read_length = 0;
      buffer = [];
      write_length = 0;
      header = header;
      cur_part = 0;
      cache = first ∷ parts;
    })

  -- the length of the body that a header announces
  unfoldable pub announced : T → Outcome ℕ
  unfolding to_size
  announced header =
      if header_type.has_property header (codes "content-length")
      then (do n ← header_type.get_int header (codes "content-length"); ok (to_size n))
      else ok (
          if equal (header_type.get_property header (codes "transfer-encoding")) (codes "chunked")
          then inf
          else 0)

  -- the branch of `read_from` that finds the end of the header at `p`
  unfoldable pub take_header : ℕ → Bytes → BufferedMessage T → Outcome (Bytes × BufferedMessage T)
  unfolding announced
  take_header p message m = do
    body ← substr message (p + 4) (length message)
    header ← header_type.parse message
    let printed = header_type.to_string header
    body_length ← announced header
    ok (
      printed ++ body,
      record m {
        header_length = length printed;
        header = header;
        body_length = body_length;
        read = length body;
        cache = m.cache ++ (printed ++ body) ∷ [];
        read_length = 0;
        buffer = [];
        cur_part = 0;
      },
    )

  -- `read_from` behind the call of `socket.read`
  unfoldable pub take_bytes : Bytes → BufferedMessage T → Outcome (Bytes × BufferedMessage T)
  take_bytes bytes m =
      let message = m.buffer ++ bytes in
      if m.header_length == 0
      then elim (find_end message) [
        | none ↦ ok (
          message,
          record m { read_length = add64 m.read_length (length bytes); buffer = message },
        )
        | some p ↦ take_header p message m
      ]
      else ok (
        message,
        record m {
          read = add64 m.read (length bytes);
          cache = m.cache ++ message ∷ [];
          read_length = 0;
          buffer = [];
        },
      )

  unfoldable pub read_from : SysRead → BufferedMessage T → Outcome (BufferedMessage T)
  unfolding take_bytes end_chunks should_read
  read_from kernel m = do
    bytes ← read kernel (should_read m)
    (message, m') ← take_bytes bytes m
    end_chunks message m'
