-- ===== src/HeaderParser/RequestLine.antt =====
-- `request_line`: the first line of a request.
pub mod Parse
use proxi.Base.{ℕ, List, [], ◌∷◌, ◌++◌, Bool, not, Outcome, ok, ◌>>=◌, ◌==◌, if◌then◌else◌, length}
use proxi.Text.{Bytes, codes, add64, sub64, find, substr, byte_at, equal}

pub data RequestType : Type 0 where
  get post connect option : RequestType

pub record RequestLine : Type 0 where
  pub type : Bytes
  pub url : Bytes
  pub http : Bytes

abbrev pub blank : RequestLine
blank = record { type = []; url = []; http = [] }

-- The `switch` of the constructor from a type: `case OPTION` has no `break`, so the assignment of
-- `case CONNECT` follows its own.
unfoldable pub assign_connect : RequestLine → RequestLine
assign_connect l = record l { type = codes "CONNECT" }

unfoldable pub assign_type : RequestType → RequestLine → RequestLine
unfolding assign_connect
assign_type get l = record l { type = codes "GET" }
assign_type post l = record l { type = codes "POST" }
assign_type connect l = assign_connect l
assign_type option l = assign_connect (record l { type = codes "OPTION" })

unfoldable pub of_type : RequestType → Bytes → RequestLine
unfolding assign_type
of_type type url = assign_type type (record { type = []; url = url; http = codes "HTTP/1.1" })

-- where the path of an address begins: at once, or behind "scheme://host"
unfoldable pub path_begin : Bytes → ℕ → Outcome ℕ
path_begin line begin = do
  c ← byte_at line begin
  ok (if not (c == b'/') then find line b'/' (add64 (find line b':' begin) 3) else begin)

-- the constructor from a line
unfoldable pub parse : Bytes → Outcome RequestLine
unfolding path_begin
parse line = do
  let end = find line b' ' 0
  type ← substr line 0 (sub64 end 0)
  let begin = add64 end 1
  let end' = find line b' ' begin
  path ← path_begin line begin
  url ← substr line path (sub64 end' path)
  let rest = add64 end' 1
  http ← substr line rest (sub64 (length line) rest)
  ok (record { type = type; url = url; http = http })

unfoldable pub get_type : RequestLine → RequestType
get_type l =
    if equal l.type (codes "GET")
    then get
    else if equal l.type (codes "POST")
    then post
    else if equal l.type (codes "CONNECT")
    then connect
    else get

unfoldable pub set_url : RequestLine → Bytes → RequestLine
set_url l url = record l { url = url }

-- the line without its end, and with it
abbrev pub line_of : RequestLine → Bytes
line_of l = l.type ++ (b' ' ∷ (l.url ++ (b' ' ∷ l.http)))

unfoldable pub to_string : RequestLine → Bytes
to_string l = l.type ++ (b' ' ∷ (l.url ++ (b' ' ∷ (l.http ++ b'\r' ∷ b'\n' ∷ []))))
