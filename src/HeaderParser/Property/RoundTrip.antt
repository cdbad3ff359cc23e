-- ===== src/HeaderParser/Property/RoundTrip.antt =====
-- Reading one header line, for all inputs, and reading back a printed one.
use proxi.Base.{
  ℕ, zero, suc, ◌+◌, ◌^◌, ◌<◌, ◌≤◌, ◌≢◌, ◌≡◌, refl, sym, ◌∙◌, ap, [], ◌∷◌, ◌++◌, ok, arith, length,
  drop, length-append, drop_append, append_assoc, length-drop, inl, inr,
}
use proxi.HeaderParser.Property.{Property, skip_spaces, parse}
use proxi.Text.{Bytes, Lacks, Fits, add64, sub64, find, substr, to_lower}
use proxi.Text.Laws.{find_at, substr_at, substr_rest, substr_total, find_bounds}

-- The text without the spaces in front.
abbrev pub StartsNoSpace : Bytes → Type 0
StartsNoSpace [] = Unit {0}
StartsNoSpace (c ∷ s) = c ≢ b' '

unfoldable pub spaces : ℕ → Bytes
spaces zero = []
spaces (suc n) = b' ' ∷ spaces n

length-spaces : (n : ℕ) → length (spaces n) ≡ n
unfolding spaces
length-spaces zero = refl
length-spaces (suc n) = ap suc (length-spaces n)

skip_spaces-spaces :
    (n : ℕ) (v : Bytes) (end : ℕ) → StartsNoSpace v → skip_spaces (spaces n ++ v) end ≡ end + n
unfolding skip_spaces spaces
skip_spaces-spaces zero [] end h = omega arith
skip_spaces-spaces zero (c ∷ v) end h = ground arith
skip_spaces-spaces (suc n) v end h = omega (arith, skip_spaces-spaces n v (end + 1) h)

-- The constructor, from what its calls return.
parse_parts :
    (property : Bytes) (end start : ℕ) (name value : Bytes)
    → find property b':' 0 ≡ end
    → substr property 0 (sub64 end 0) ≡ ok name
    → skip_spaces (drop (add64 end 1) property) (add64 end 1) ≡ start
    → substr property start (sub64 (length property) start) ≡ ok value
    → parse property ≡ ok (record { name = to_lower name; value = value })
unfolding parse
parse_parts property end start name value f a s b = rw (parse, f, a, s, b) refl

behind_colon :
    (name value : Bytes) (n : ℕ)
    → length name < 2 ^ 63
    → drop (add64 (length name) 1) (name ++ (b':' ∷ (spaces n ++ value))) ≡ spaces n ++ value
behind_colon name value n f =
    let same : add64 (length name) 1 ≡ length (name ++ b':' ∷ []) =
      omega (arith, length-append name (b':' ∷ [])) in
    rw (same, sym (append_assoc name (b':' ∷ []) (spaces n ++ value)))
      (drop_append (name ++ b':' ∷ []) (spaces n ++ value))

-- A line of a name without colon, a colon, any number of spaces, and a value that does not begin
-- with a space is read as the name in lower case and the value.
pub parse_line :
    (name value : Bytes) (n : ℕ)
    → Lacks b':' name
    → StartsNoSpace value
    → Fits (name ++ (b':' ∷ (spaces n ++ value)))
    → parse (name ++ (b':' ∷ (spaces n ++ value)))
      ≡ ok (record { name = to_lower name; value = value })
unfolding parse
parse_line name value n h v f =
    let line = name ++ (b':' ∷ (spaces n ++ value)) in
    let sizes = length-append name (b':' ∷ (spaces n ++ value)) in
    let rest = length-append (spaces n) value in
    let blanks = length-spaces n in
    parse_parts line (length name) (length name + 1 + n) name value
      (find_at line [] name (spaces n ++ value) b':' 0 refl refl h ∙ omega arith)
      (substr_at line [] name (b':' ∷ (spaces n ++ value)) 0 (sub64 (length name) 0) refl refl
        (omega arith))
      (rw (behind_colon name value n (omega arith)) (skip_spaces-spaces n value _ v ∙ omega arith))
      (substr_rest line (name ++ (b':' ∷ spaces n)) value (length name + 1 + n)
        (sub64 (length line) (length name + 1 + n))
        (sym (append_assoc name (b':' ∷ spaces n) value))
        (omega (arith, length-append name (b':' ∷ spaces n))) (omega arith))

skip_spaces-le :
    (s : Bytes) (end : ℕ) → (end ≤ skip_spaces s end) × (skip_spaces s end ≤ end + length s)
unfolding skip_spaces
skip_spaces-le [] end = (omega arith, omega arith)
skip_spaces-le (c ∷ s) end =
    (ground (arith, skip_spaces-le s (end + 1)), ground (arith, skip_spaces-le s (end + 1)))

-- Every line is read, whatever it holds: the constructor never throws.
pub parse_total : (line : Bytes) → Fits line → (p : Property) × (parse line ≡ ok p)
parse_total line f =
    let end = find line b':' 0 in
    let colon = add64 end 1 in
    let start = skip_spaces (drop colon line) colon in
    let here : colon ≤ length line = elim (find_bounds line b':' 0) [
      | inl e ↦ rw e (omega arith)
      | inr b ↦ omega arith
    ] in
    let bounds = skip_spaces-le (drop colon line) colon in
    (
      _,
      parse_parts line end start _ _ refl (substr_total line 0 (sub64 end 0) (omega arith)) refl (
          substr_total line start (sub64 (length line) start)
            (omega (arith, length-drop colon line))),
    )

-- A property that `to_string` keeps apart: no colon in the name, the name in lower case, no space
-- in front of the value, and no carriage return.
pub record IsPlain (p : Property) : Type 0 where
  pub no_colon : Lacks b':' p.name
  pub in_lower : to_lower p.name ≡ p.name
  pub no_space : StartsNoSpace p.value
  pub name_line : Lacks b'\r' p.name
  pub value_line : Lacks b'\r' p.value

abbrev pub line_of : Property → Bytes
line_of p = p.name ++ (b':' ∷ b' ' ∷ p.value)

-- The line that `to_string` writes of a plain property, without its end, is read back as the
-- property, if it fits in memory.
pub parse-line_of : (p : Property) → IsPlain p → Fits (line_of p) → parse (line_of p) ≡ ok p
unfolding spaces
parse-line_of p h f =
    parse_line p.name p.value 1 h.no_colon h.no_space f
    ∙ ap (λ (n : Bytes). ok (record { name = n; value = p.value })) h.in_lower
