-- ===== src/HeaderParser/Header/Total.antt =====
-- The loop over the lines of a header, and its fuel, on every message.
use proxi.Base.{
  ℕ, zero, suc, ◌+◌, ◌-◌, ◌≤◌, ◌<◌, ◌≡◌, refl, ap, ◌⊎◌, inl, inr, List, [], ◌∷◌, ◌++◌, Outcome, ok,
  fault, out_of_range, ◌==◌, ltb, take, drop, arith, length, length-take, length-drop, Bool-cases,
  ltb→lt,
}
use proxi.HeaderParser.Header.{LineType, parse, parse_properties, fix_connection}
use proxi.HeaderParser.Property.RoundTrip.{parse_total}
use proxi.HeaderParser.Property.{Property}
use proxi.Text.{Bytes, Fits, add64, sub64, find, substr}
use proxi.Text.Laws.{find_bounds}

-- Every call returns or throws `std::out_of_range`.
abbrev pub EndsWell {ℓ} : {A : Type ℓ} → Outcome A → Type ℓ
EndsWell {A = A} r = ((a : A) × (r ≡ ok a)) ⊎ (r ≡ fault out_of_range)

substr_cases : (s : Bytes) (pos n : ℕ) → EndsWell (substr s pos n)
unfolding substr
substr_cases s pos n = elim (Bool-cases (ltb (length s) pos)) [
  | inl e ↦ inr (rw (substr, e) refl)
  | inr e ↦ inl (take n (drop pos s), rw (substr, e) refl)
]

length-substr-le : (s a : Bytes) (pos n : ℕ) → substr s pos n ≡ ok a → length a ≤ length s
unfolding substr
length-substr-le s a pos n h = elim (Bool-cases (ltb (length s) pos)) [
  | inl e ↦ absurd (ground arith)
  | inr e ↦
      let same : take n (drop pos s) ≡ a = ground arith in
      omega (arith, ap length same, length-take n (drop pos s), length-drop pos s)
]

parse_properties_total :
    (fuel : ℕ) (message : Bytes) (end : ℕ) (acc : List Property)
    → Fits message
    → length message - end < fuel
    → EndsWell (parse_properties fuel message end acc)
unfolding parse_properties
parse_properties_total zero message end acc f h = absurd (omega arith)
parse_properties_total (suc fuel) message end acc f h =
    elim (Bool-cases (ltb end (length message))) [
      | inr done ↦ inl (acc, rw (parse_properties, done) refl)
      | inl more ↦
          let begin = add64 end 2 in
          let end' = find message b'\r' begin in
          let inside = ltb→lt end (length message) more in
          let later : (end + 2 ≤ end') × (length message - end' < fuel) =
            elim (find_bounds message b'\r' begin) [
              | inl e ↦ rw e (omega arith)
              | inr b ↦ omega arith
            ] in
          elim (Bool-cases (begin == end')) [
            | inl empty ↦ inl (acc, rw (parse_properties, more, empty) refl)
            | inr line_there ↦ elim (substr_cases message begin (sub64 end' begin)) [
              | inr thrown ↦ inr (rw (parse_properties, more, line_there, thrown) refl)
              | inl (line, read) ↦
                  let small : Fits line =
                    omega (arith, length-substr-le message line begin _ read) in
                  let (property, parsed) = parse_total line small in
                  rw (parse_properties, more, line_there, read, parsed)
                    (parse_properties_total fuel message end' (acc ++ property ∷ []) f later.1)
            ]
          ]
    ]

module _ {Line : Type 0} (line_type : LineType Line) where
  -- For every message that fits in memory, complete or not, the loop over its lines ends within
  -- the rounds that the constructor gives it: if the type of the first line reads that line, the
  -- constructor returns a header or throws `std::out_of_range`.
  pub parse-EndsWell :
      (message text : Bytes) (line : Line)
      → Fits message
      → substr message 0 (sub64 (find message b'\r' 0) 0) ≡ ok text
      → line_type.parse text ≡ ok line
      → EndsWell (parse line_type message)
  unfolding parse
  parse-EndsWell message text line f s l =
      elim (parse_properties_total (suc (length message)) message (find message b'\r' 0) [] f
        (omega arith)) [
          | inl (ps, e) ↦ inl (
            fix_connection (record { request_line = line; properties = ps }),
            rw (parse, s, l, e) refl,
          )
          | inr e ↦ inr (rw (parse, s, l, e) refl)
        ]
