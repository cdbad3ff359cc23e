-- ===== src/HeaderParser/ResponseLine.antt =====
-- `response_line`: the first line of a response.
pub mod RoundTrip
use proxi.Base.{◌∷◌, ◌++◌, [], Outcome, ok, ◌>>=◌, length}
use proxi.Text.Numbers
use proxi.Text.Numbers.{ℤ, pos, negsuc, stoi}
use proxi.Text.{Bytes, codes, add64, sub64, find, substr}

pub record ResponseLine : Type 0 where
  pub code : ℤ
  pub description : Bytes
  pub http : Bytes

-- the constructor with no argument; the code is -1
abbrev pub blank : ResponseLine
blank = record { code = negsuc 0; description = []; http = [] }

unfoldable pub of_code : ℤ → Bytes → ResponseLine
of_code code description = record {
  code = code;
  description = description;
  http = codes "HTTP/1.1";
}

-- the constructor from a line
unfoldable pub parse : Bytes → Outcome ResponseLine
parse line = do
  let end = find line b' ' 0
  http ← substr line 0 (sub64 end 0)
  let begin = add64 end 1
  let end' = find line b' ' begin
  digits ← substr line begin (sub64 end' begin)
  code ← stoi digits
  let rest = add64 end' 1
  description ← substr line rest (sub64 (length line) rest)
  ok (record { code = code; description = description; http = http })

unfoldable pub to_string : ResponseLine → Bytes
to_string l =
    l.http ++ (b' ' ∷ (Numbers.to_string l.code ++ (b' ' ∷ (l.description ++ b'\r' ∷ b'\n' ∷ []))))
