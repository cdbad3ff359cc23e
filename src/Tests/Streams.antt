-- ===== src/Tests/Streams.antt =====
-- The results on the two kinds of message, at kernels that return and take a few bytes.
use proxi.Base.{
  ℕ, ◌≡◌, ◌≢◌, ◌↔◌, refl, [], ◌∷◌, ◌++◌, ok, fault, out_of_range, undefined, true, false, arith,
}
use proxi.Tests.Kernels.{gives, takes_three}
use proxi.BufferedMessage.Body.{InBody, read_from_body}
use proxi.BufferedMessage.Chunks.{read_from_short}
use proxi.BufferedMessage.Ends.{read_from_line_feeds}
use proxi.BufferedMessage.Headers.{response_header}
use proxi.BufferedMessage.Parts
use proxi.BufferedMessage.Parts.{Sends, Sends-order, send, can_write_lem}
use proxi.BufferedMessage.{
  BufferedMessage, can_write, inf, is_read, is_written, read_from, should_read,
}
use proxi.BufferedMessage
use proxi.FileDescriptor.{read, write}
use proxi.HeaderParser.Messages.{RequestHeader, ResponseHeader}
use proxi.HeaderParser.RequestLine
use proxi.HeaderParser.ResponseLine
use proxi.RawMessage
use proxi.RawMessage.Relay
use proxi.RawMessage.Relay.{Relays, Relays-order, can_lem}
use proxi.RawMessage.Swap.{swap, swap-undefined}
use proxi.RawMessage.{RawMessage, fill, segment}
use proxi.Text.{codes, index_of_text, starts_with}

abbrev blank : ResponseHeader
blank = record { request_line = ResponseLine.blank; properties = [] }

abbrev blank_request : RequestHeader
blank_request = record { request_line = RequestLine.blank; properties = [] }

-- A response whose header and four of ten bytes are read, and of which two bytes are sent.
abbrev in_body : BufferedMessage ResponseHeader
in_body = record {
  header_length = 19;
  body_length = 10;
  read = 4;
  read_length = 0;
  buffer = [];
  write_length = 2;
  header = blank;
  cur_part = 0;
  cache = codes "head body" ∷ codes "more" ∷ [];
}

in_body-InBody : InBody in_body
in_body-InBody = record {
  header_there = omega arith;
  nothing_kept = refl;
  from_start = refl;
  not_beyond = omega arith;
  bounded = omega arith;
}

in_body-IsValid : Parts.IsValid in_body
in_body-IsValid = record {
  parts = ((omega arith, omega arith), ((omega arith, omega arith), tt));
  in_cache = omega arith;
  place = omega arith;
}

read_from_body_example :
    (m' : BufferedMessage ResponseHeader) × (read_from response_header
        (gives (codes "12345678"))
        in_body
      ≡ ok m')
    × InBody m'
    × (m'.cache ≡ in_body.cache ++ codes "123456" ∷ [])
    × (m'.read ≡ 10)
    × (m'.body_length ≡ 10)
    × (is_read m' ≡ true)
unfolding should_read
read_from_body_example =
    read_from_body response_header (gives (codes "12345678")) in_body (codes "123456")
      in_body-InBody (omega arith) refl

can_write_lem_example :
    ((can_write in_body ≡ true) ↔ (Parts.pending in_body ≢ []))
    × ((is_written in_body ≡ true) ↔ ((is_read in_body ≡ true) × (Parts.pending in_body ≡ [])))
can_write_lem_example = can_write_lem in_body in_body-IsValid

abbrev one_sent : BufferedMessage ResponseHeader
one_sent = record in_body { write_length = 5 }

Sends-order_example :
    Parts.IsValid one_sent
    × (Parts.pending in_body ≡ codes "ad " ++ Parts.pending one_sent)
    × (one_sent.cache ≡ in_body.cache)
unfolding BufferedMessage.write_to write
Sends-order_example =
    Sends-order in_body-IsValid (send takes_three (codes "head body") 3 Sends.start refl refl refl)

-- A response of which the kernel has returned nothing.
abbrev nothing_read : BufferedMessage ResponseHeader
unfolding BufferedMessage.empty
nothing_read = BufferedMessage.empty blank

read_from_line_feeds_example :
    read_from response_header (gives (codes "HTTP/1.1 200 OK\n\n")) nothing_read
    ≡ fault out_of_range
unfolding should_read BufferedMessage.empty index_of_text starts_with
read_from_line_feeds_example =
    read_from_line_feeds response_header (gives (codes "HTTP/1.1 200 OK\n\n")) nothing_read
      (codes "HTTP/1.1 200 OK\n\n") 15 refl refl (omega arith) refl (omega arith)

-- A chunked response that has one chunk so far.
abbrev in_chunks : BufferedMessage ResponseHeader
in_chunks = record in_body { body_length = inf }

in_chunks-InBody : InBody in_chunks
in_chunks-InBody = record {
  header_there = omega arith;
  nothing_kept = refl;
  from_start = refl;
  not_beyond = omega arith;
  bounded = omega arith;
}

read_from_short_example :
    (m' : BufferedMessage ResponseHeader) × (read_from response_header
        (gives (codes "\r\n"))
        in_chunks
      ≡ ok m')
    × (m'.cache ≡ in_chunks.cache ++ codes "\r\n" ∷ [])
    × (is_read m' ≡ false)
unfolding should_read
read_from_short_example =
    read_from_short response_header (gives (codes "\r\n")) in_chunks (codes "\r\n") in_chunks-InBody
      refl refl (omega arith) (omega arith)

-- A raw message whose array is full of zeros, with nothing in it, with three bytes, and with two
-- of them sent.
abbrev zeros : ℕ → ℕ
zeros i = 0

abbrev fresh : RawMessage
unfolding RawMessage.empty
fresh = RawMessage.empty zeros

abbrev filled : RawMessage
filled = record { read_length = 4; write_length = 0; buffer = fill zeros 0 (codes "abcd") }

abbrev drained : RawMessage
drained = record filled { write_length = 3 }

fresh-IsValid : Relay.IsValid fresh
unfolding RawMessage.empty
fresh-IsValid = omega arith

filled-IsValid : Relay.IsValid filled
filled-IsValid = omega arith

Relays-order_example : Relay.IsValid drained × (codes "abcd" ≡ codes "abc" ++ Relay.pending drained)
unfolding RawMessage.empty RawMessage.read_from RawMessage.write_to segment fill read write
Relays-order_example = Relays-order {m = fresh} fresh-IsValid refl (
    Relays.emit {m1 = filled} {m2 = drained} takes_three 3
      (Relays.receive {m1 = fresh} {m2 = filled} (gives (codes "abcd")) (codes "abcd") Relays.start
        refl refl)
      refl refl)

swap-undefined_example : swap filled fresh ≡ fault undefined
swap-undefined_example = swap-undefined filled fresh (omega arith)
