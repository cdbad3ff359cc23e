-- ===== src/HeaderParser/ResponseLine/RoundTrip.antt =====
-- Reading back a printed response line.
use proxi.Base.{ℕ, ◌+◌, ◌^◌, ◌<◌, ◌≡◌, refl, arith, ok, length}
use proxi.HeaderParser.ResponseLine.{parse}
use proxi.Text.Fields.{
  fields, second_begin, first_space, first_field, second_space, second_field, third_field,
}
use proxi.Text.Numbers
use proxi.Text.Numbers.{ℤ, pos, stoi, stoi-to_string, to_string-Lacks}
use proxi.Text.{Bytes, Lacks, Fits, add64, sub64, find, substr}

parse_parts :
    (line : Bytes) (end end' : ℕ) (http digits description : Bytes) (code : ℤ)
    → find line b' ' 0 ≡ end
    → substr line 0 (sub64 end 0) ≡ ok http
    → find line b' ' (add64 end 1) ≡ end'
    → substr line (add64 end 1) (sub64 end' (add64 end 1)) ≡ ok digits
    → stoi digits ≡ ok code
    → substr line (add64 end' 1) (sub64 (length line) (add64 end' 1)) ≡ ok description
    → parse line ≡ ok (record { code = code; description = description; http = http })
unfolding parse
parse_parts line end end' http digits description code f t g d s h =
    rw (parse, f, t, g, d, s, h) refl

-- The line that is written for a code from 0 to 2^31 - 1 and a version without space.
abbrev pub line_of : Bytes → ℕ → Bytes → Bytes
line_of http n description = fields http (Numbers.to_string (pos n)) description

-- A response line without its end, for a code from 0 to 2^31 - 1 and a version with no space in
-- it, is read back as it was, whatever the description.
pub response-parse-line_of :
    (http description : Bytes) (n : ℕ)
    → n < 2 ^ 31
    → Lacks b' ' http
    → Fits (line_of http n description)
    → parse (line_of http n description)
      ≡ ok (record { code = pos n; description = description; http = http })
response-parse-line_of http description n h v fits =
    let digits = Numbers.to_string (pos n) in
    let start = second_begin http digits description fits in
    parse_parts (line_of http n description) (length http) (length http + 1 + length digits) http
      digits description (pos n) (first_space http digits description fits v)
      (first_field http digits description fits)
      (rw start (second_space http digits description fits (to_string-Lacks b' ' n (omega arith))))
      (rw start (second_field http digits description fits)) (stoi-to_string n h)
      (third_field http digits description fits)
