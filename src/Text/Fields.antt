-- ===== src/Text/Fields.antt =====
-- A line of three fields, as both first lines of a header are: what the searches for the two
-- spaces and the calls of `substr` between them return.
use proxi.Base.{
  suc, ◌+◌, ◌≡◌, refl, sym, ◌∙◌, [], ◌∷◌, ◌++◌, ok, arith, length, length-append, append_assoc,
}
use proxi.Text.{Bytes, Lacks, Fits, add64, sub64, find, substr}
use proxi.Text.Laws.{find_at, substr_at, substr_rest}

abbrev pub fields : Bytes → Bytes → Bytes → Bytes
fields a b c = a ++ (b' ' ∷ (b ++ (b' ' ∷ c)))

module _ (a b c : Bytes) (fits : Fits (fields a b c)) where
  pub sizes : length (fields a b c) ≡ length a + suc (length b + suc (length c))
  sizes = omega (arith, length-append a (b' ' ∷ (b ++ (b' ' ∷ c))), length-append b (b' ' ∷ c))

  pub behind_first : fields a b c ≡ (a ++ b' ' ∷ []) ++ (b ++ (b' ' ∷ c))
  behind_first = sym (append_assoc a (b' ' ∷ []) (b ++ (b' ' ∷ c)))

  pub second_begin : add64 (length a) 1 ≡ length a + 1
  second_begin = omega (arith, sizes)

  pub first_space : Lacks b' ' a → find (fields a b c) b' ' 0 ≡ length a
  first_space h = find_at (fields a b c) [] a (b ++ (b' ' ∷ c)) b' ' 0 refl refl h ∙ omega arith

  pub first_field : substr (fields a b c) 0 (sub64 (length a) 0) ≡ ok a
  first_field =
      substr_at (fields a b c) [] a (b' ' ∷ (b ++ (b' ' ∷ c))) 0 (sub64 (length a) 0) refl refl
        (omega (arith, sizes))

  pub second_space :
      Lacks b' ' b → find (fields a b c) b' ' (length a + 1) ≡ length a + 1 + length b
  second_space h =
      find_at (fields a b c) (a ++ b' ' ∷ []) b c b' ' (length a + 1) behind_first
        (omega (arith, length-append a (b' ' ∷ []))) h
      ∙ omega (arith, length-append a (b' ' ∷ []))

  pub second_field :
      substr (fields a b c) (length a + 1) (sub64 (length a + 1 + length b) (length a + 1)) ≡ ok b
  second_field =
      substr_at (fields a b c) (a ++ b' ' ∷ []) b (b' ' ∷ c) (length a + 1) _ behind_first
        (omega (arith, length-append a (b' ' ∷ []))) (omega (arith, sizes))

  pub third_field :
      substr
        (fields a b c)
        (add64 (length a + 1 + length b) 1)
        (sub64 (length (fields a b c)) (add64 (length a + 1 + length b) 1))
      ≡ ok c
  third_field =
      let one = length-append a (b' ' ∷ []) in
      let two = length-append (a ++ b' ' ∷ []) (b ++ b' ' ∷ []) in
      let three = length-append b (b' ' ∷ []) in
      substr_rest (fields a b c) ((a ++ b' ' ∷ []) ++ (b ++ b' ' ∷ [])) c
        (add64 (length a + 1 + length b) 1)
        (sub64 (length (fields a b c)) (add64 (length a + 1 + length b) 1)) (simp append_assoc)
        (omega (arith, one, two, three, sizes)) (omega (arith, one, two, three, sizes))
