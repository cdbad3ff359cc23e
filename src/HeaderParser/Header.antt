-- ===== src/HeaderParser/Header.antt =====
-- `http_header<Line>`: a first line and the properties behind it, in order.
-- What the template asks of `Line` is the record `LineType`.
pub mod Properties
pub mod RoundTrip
pub mod Total
use proxi.Base.{
  ℕ, zero, suc, ◌+◌, List, [], ◌∷◌, ◌++◌, Bool, true, false, Outcome, ok, fault, no_fuel, ◌>>=◌,
  ltb, ◌==◌, if◌then◌else◌, length,
}
use proxi.HeaderParser.Property
use proxi.HeaderParser.Property.{Property}
use proxi.Text.Numbers.{ℤ, pos, stoi}
use proxi.Text.{Bytes, codes, add64, sub64, find, substr, equal}

-- `Line(std::string const &)` and `to_string(Line const &)`
pub record LineType (Line : Type 0) : Type 0 where
  pub parse : Bytes → Outcome Line
  pub to_string : Line → Bytes

pub record Header (Line : Type 0) : Type 0 where
  pub request_line : Line
  pub properties : List Property

-- The loops over `properties`.
unfoldable pub has : Bytes → List Property → Bool
has name [] = false
has name (p ∷ ps) = if equal p.name name then true else has name ps

unfoldable pub get : Bytes → List Property → Bytes
get name [] = []
get name (p ∷ ps) = if equal p.name name then p.value else get name ps

unfoldable pub set : Bytes → Bytes → List Property → List Property
set name value [] = record { name = name; value = value } ∷ []
set name value (p ∷ ps) =
    if equal p.name name then record p { value = value } ∷ ps else p ∷ set name value ps

unfoldable pub erase : Bytes → List Property → List Property
erase name [] = []
erase name (p ∷ ps) = if equal p.name name then ps else p ∷ erase name ps

module _ {Line : Type 0} where
  abbrev pub has_property : Header Line → Bytes → Bool
  has_property h name = has name h.properties

  abbrev pub get_property : Header Line → Bytes → Bytes
  get_property h name = get name h.properties

  unfoldable pub get_int : Header Line → Bytes → Outcome ℤ
  get_int h name = elim (get_property h name) [ [] ↦ ok (pos 0) | c ∷ s ↦ stoi (c ∷ s) ]

  abbrev pub set_property : Header Line → Bytes → Bytes → Header Line
  set_property h name value = record h { properties = set name value h.properties }

  abbrev pub erase_property : Header Line → Bytes → Header Line
  erase_property h name = record h { properties = erase name h.properties }

  abbrev pub set_request_line : Header Line → Line → Header Line
  set_request_line h line = record h { request_line = line }

  -- The end of the constructor: "proxy-connection" becomes "connection".
  unfoldable pub fix_connection : Header Line → Header Line
  fix_connection h =
      if has_property h (codes "proxy-connection")
      then (let value = get_property h (codes "proxy-connection") in
          let h' = erase_property h (codes "proxy-connection") in
          if has_property h' (codes "connection")
          then h'
          else set_property h' (codes "connection") value)
      else h

-- The `while` loop of the constructor; a round moves `end` to a later line end, so that as many
-- rounds as the message has bytes, and one more, are enough.
unfoldable pub parse_properties : ℕ → Bytes → ℕ → List Property → Outcome (List Property)
parse_properties zero message end properties = fault no_fuel
parse_properties (suc fuel) message end properties = elim (ltb end (length message)) [
  | false ↦ ok properties
  | true ↦
      let begin = add64 end 2 in
      let end' = find message b'\r' begin in
      elim (begin == end') [
        | true ↦ ok properties
        | false ↦ do
          line ← substr message begin (sub64 end' begin)
          property ← Property.parse line
          parse_properties fuel message end' (properties ++ property ∷ [])
      ]
]

-- The loop of `to_string`.
unfoldable pub append_properties : Bytes → List Property → Bytes
append_properties result [] = result
append_properties result (p ∷ ps) = append_properties (result ++ Property.to_string p) ps

module _ {Line : Type 0} (line_type : LineType Line) where
  -- the constructor from a message; what stands behind the empty line is not read
  unfoldable pub parse : Bytes → Outcome (Header Line)
  parse message = do
    let end = find message b'\r' 0
    header ← substr message 0 (sub64 end 0)
    line ← line_type.parse header
    properties ← parse_properties (suc (length message)) message end []
    ok (fix_connection (record { request_line = line; properties = properties }))

  unfoldable pub to_string : Header Line → Bytes
  to_string h =
      append_properties (line_type.to_string h.request_line) h.properties ++ b'\r' ∷ b'\n' ∷ []
