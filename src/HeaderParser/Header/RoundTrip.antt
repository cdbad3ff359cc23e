-- ===== src/HeaderParser/Header/RoundTrip.antt =====
-- Reading back a printed header, with any body behind it.
use proxi.Base.{
  ℕ, zero, suc, ◌≤◌, ◌<◌, ◌≡◌, refl, sym, ◌∙◌, ap, List, [], ◌∷◌, ◌++◌, ok, arith, length,
  length-append, append_assoc, append-nil, lt→ltb, ne→==, eq→==, All,
}
use proxi.HeaderParser.Header.{
  Header, LineType, parse, parse_properties, append_properties, to_string, fix_connection,
}
use proxi.HeaderParser.Property
use proxi.HeaderParser.Property.RoundTrip.{IsPlain, line_of, parse-line_of}
use proxi.HeaderParser.Property.{Property}
use proxi.Text.{Bytes, Lacks, Fits, add64, sub64, find, substr}
use proxi.Text.Laws.{find_at, substr_at, Lacks-append}

-- The lines that are printed for the properties.
abbrev pub print : List Property → Bytes
print [] = []
print (p ∷ ps) = line_of p ++ (b'\r' ∷ b'\n' ∷ print ps)

to_string-line_of :
    (p : Property) (s : Bytes) → Property.to_string p ++ s ≡ line_of p ++ (b'\r' ∷ b'\n' ∷ s)
unfolding Property.to_string
to_string-line_of p s = simp append_assoc

append_properties-print :
    (result : Bytes) (ps : List Property) → append_properties result ps ≡ result ++ print ps
unfolding append_properties
append_properties-print result [] = sym (append-nil result)
append_properties-print result (p ∷ ps) =
    append_properties-print (result ++ Property.to_string p) ps
    ∙ append_assoc result (Property.to_string p) (print ps)
    ∙ ap (λ (s : Bytes). result ++ s) (to_string-line_of p (print ps))

line_of-Lacks : (p : Property) → IsPlain p → Lacks b'\r' (line_of p)
line_of-Lacks p h =
    Lacks-append b'\r' p.name (b':' ∷ b' ' ∷ p.value) h.name_line
      (omega arith, (omega arith, h.value_line))

-- A round of the loop that reads one line.
parse_properties_step :
    (fuel : ℕ) (message line : Bytes) (end end' : ℕ) (property : Property) (acc : List Property)
    → end < length message
    → find message b'\r' (add64 end 2) ≡ end'
    → add64 end 2 < end'
    → substr message (add64 end 2) (sub64 end' (add64 end 2)) ≡ ok line
    → Property.parse line ≡ ok property
    → parse_properties (suc fuel) message end acc
      ≡ parse_properties fuel message end' (acc ++ property ∷ [])
unfolding parse_properties
parse_properties_step fuel message line end end' property acc lt f b s p =
    rw
      (
        parse_properties,
        lt→ltb end (length message) lt,
        f,
        ne→== (add64 end 2) end' (omega arith),
        f,
        s,
        p,
      )
      refl

parse_properties_end :
    (fuel : ℕ) (message : Bytes) (end : ℕ) (acc : List Property)
    → end < length message
    → find message b'\r' (add64 end 2) ≡ add64 end 2
    → parse_properties (suc fuel) message end acc ≡ ok acc
unfolding parse_properties
parse_properties_end fuel message end acc lt f =
    rw (parse_properties, lt→ltb end (length message) lt, f, eq→== (add64 end 2) (add64 end 2) refl)
      refl

-- From the line end behind `front`, the loop reads the properties that stand there.
parse_properties-print :
    (ps : List Property) (fuel : ℕ) (message front body : Bytes) (acc : List Property)
    → message ≡ front ++ (b'\r' ∷ b'\n' ∷ (print ps ++ (b'\r' ∷ b'\n' ∷ body)))
    → Fits message
    → length ps < fuel
    → All IsPlain ps
    → parse_properties fuel message (length front) acc ≡ ok (acc ++ ps)
parse_properties-print ps zero message front body acc e f l h = absurd (omega arith)
parse_properties-print [] (suc fuel) message front body acc e f l h =
    let size = ap length e ∙ length-append front (b'\r' ∷ b'\n' ∷ b'\r' ∷ b'\n' ∷ body) in
    let two = length-append front (b'\r' ∷ b'\n' ∷ []) in
    let split = e ∙ sym (append_assoc front (b'\r' ∷ b'\n' ∷ []) (b'\r' ∷ b'\n' ∷ body)) in
    parse_properties_end fuel message (length front) acc (omega arith) (
      find_at message (front ++ b'\r' ∷ b'\n' ∷ []) [] (b'\n' ∷ body) b'\r' (add64 (length front) 2)
        split (omega arith) tt
      ∙ omega arith)
    ∙ ap ok (sym (append-nil acc))
parse_properties-print (p ∷ ps) (suc fuel) message front body acc e f l h =
    let line = line_of p in
    let rest = b'\r' ∷ b'\n' ∷ (print ps ++ (b'\r' ∷ b'\n' ∷ body)) in
    let front' = front ++ (b'\r' ∷ b'\n' ∷ []) in
    let two = length-append front (b'\r' ∷ b'\n' ∷ []) in
    let three = length-append front' line in
    let split : message ≡ front' ++ (line ++ rest) = e ∙ simp append_assoc in
    let split' : message ≡ (front' ++ line) ++ rest = split ∙ sym (append_assoc front' line rest) in
    let size = ap length split' ∙ length-append (front' ++ line) rest in
    let long = length-append p.name (b':' ∷ b' ' ∷ p.value) in
    parse_properties_step fuel message line (length front) (length (front' ++ line)) p acc
      (omega arith)
      (find_at message front' line (b'\n' ∷ (print ps ++ (b'\r' ∷ b'\n' ∷ body))) b'\r' _ split
          (omega arith) (line_of-Lacks p h.0)
        ∙ sym three)
      (omega arith) (substr_at message front' line rest _ _ split (omega arith) (omega arith))
      (parse-line_of p h.0 (omega arith))
    ∙ parse_properties-print ps fuel message (front' ++ line) body (acc ++ p ∷ []) split' f
        (omega arith) h.1
    ∙ ap ok (append_assoc acc (p ∷ []) ps)

length-print : (ps : List Property) → length ps ≤ length (print ps)
length-print [] = omega arith
length-print (p ∷ ps) =
    omega (arith, length-append (line_of p) (b'\r' ∷ b'\n' ∷ print ps), length-print ps)

module _ {Line : Type 0} (line_type : LineType Line) where
  -- The constructor, from what its calls return.
  parse_parts :
      (message text : Bytes) (end : ℕ) (line : Line) (ps : List Property)
      → find message b'\r' 0 ≡ end
      → substr message 0 (sub64 end 0) ≡ ok text
      → line_type.parse text ≡ ok line
      → parse_properties (suc (length message)) message end [] ≡ ok ps
      → parse line_type message
        ≡ ok (fix_connection (record { request_line = line; properties = ps }))
  unfolding parse
  parse_parts message text end line ps f s l p = rw (parse, f, s, l, p) refl

  -- A header whose first line is read back by its type, without a carriage return, and whose
  -- properties are plain, is read back from what `to_string` writes, with any body behind it: the
  -- result is the header, with "proxy-connection" turned into "connection".
  pub parse-to_string :
      (h : Header Line) (text body : Bytes)
      → line_type.to_string h.request_line ≡ text ++ b'\r' ∷ b'\n' ∷ []
      → (Fits text → line_type.parse text ≡ ok h.request_line)
      → Lacks b'\r' text
      → All IsPlain h.properties
      → Fits (to_string line_type h ++ body)
      → parse line_type (to_string line_type h ++ body) ≡ ok (fix_connection h)
  unfolding to_string
  parse-to_string h text body e l no_cr plain fits =
      let message = to_string line_type h ++ body in
      let split : message
          ≡ text ++ (b'\r' ∷ b'\n' ∷ (print h.properties ++ (b'\r' ∷ b'\n' ∷ body))) =
        rw (to_string, append_properties-print, e) (simp append_assoc) in
      let size = ap length split ∙ length-append text _ in
      let many = length-append (print h.properties) (b'\r' ∷ b'\n' ∷ body) in
      parse_parts message text (length text) h.request_line h.properties
        (find_at message [] text _ b'\r' 0 split refl no_cr ∙ omega arith)
        (substr_at message [] text _ 0 _ split refl (omega arith)) (l (omega arith))
        (parse_properties-print h.properties (suc (length message)) message text body [] split fits
          (omega (arith, length-print h.properties)) plain)
