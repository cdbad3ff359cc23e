-- ===== src/Text/Numbers.antt =====
-- `std::to_string(int)` and `std::stoi`, for `int` of 32 bits.
use proxi.Base.{
  ℕ, zero, suc, ◌+◌, ◌-◌, ◌*◌, ◌/◌, ◌%◌, ◌^◌, ◌<◌, [], ◌∷◌, ◌++◌, ◌≡◌, refl, sym, ◌∙◌, ap, Bool,
  true, false, ◌&&◌, ◌||◌, Outcome, ok, fault, out_of_range, invalid_argument, ltb, leb, ◌==◌,
  if◌then◌else◌, Bool-cases, inl, inr, arith, append_assoc, append-nil,
}
use proxi.Text.{Bytes, Lacks}
use proxi.Text.Laws.{Lacks-append}

-- `negsuc n` is -(n + 1).
pub data ℤ : Type 0 where
  pos : ℕ → ℤ
  negsuc : ℕ → ℤ

unfoldable pub is_digit : ℕ → Bool
is_digit c = leb b'0' c && leb c b'9'

-- The decimal digits of a number; `suc n` rounds are enough for `n`.
unfoldable pub show : ℕ → ℕ → Bytes
show zero n = []
show (suc fuel) n = elim (n / 10 == 0) [
  | true ↦ (b'0' + n % 10) ∷ []
  | false ↦ show fuel (n / 10) ++ (b'0' + n % 10) ∷ []
]

unfoldable pub to_string : ℤ → Bytes
unfolding show
to_string (pos n) = show (suc n) n
to_string (negsuc n) = b'-' ∷ show (suc (suc n)) (suc n)

-- The value of the digits in front, and nothing at no digit.
unfoldable pub read_digits : ℕ → Bytes → ℕ
unfolding is_digit
read_digits acc [] = acc
read_digits acc (c ∷ s) = if is_digit c then read_digits (acc * 10 + (c - b'0')) s else acc

-- The digits of `stoi` behind the sign; an `int` reaches from -2^31 to 2^31 - 1.
unfoldable pub stoi_digits : Bool → Bytes → Outcome ℤ
unfolding read_digits is_digit
stoi_digits minus [] = fault invalid_argument
stoi_digits minus (c ∷ s) =
    let n = read_digits 0 (c ∷ s) in
    if is_digit c
    then (if minus
        then (if ltb (2 ^ 31) n
            then fault out_of_range
            else ok (if n == 0 then pos 0 else negsuc (n - 1)))
        else (if leb (2 ^ 31) n then fault out_of_range else ok (pos n)))
    else fault invalid_argument

unfoldable pub stoi_sign : Bytes → Outcome ℤ
unfolding stoi_digits
stoi_sign [] = fault invalid_argument
stoi_sign (c ∷ s) =
    if c == b'-'
    then stoi_digits true s
    else if c == b'+'
    then stoi_digits false s
    else stoi_digits false (c ∷ s)

-- White space in front is skipped, and what stands behind the digits is not read.
unfoldable pub stoi : Bytes → Outcome ℤ
unfolding stoi_sign
stoi [] = fault invalid_argument
stoi (c ∷ s) = if c == 32 || leb 9 c && leb c 13 then stoi s else stoi_sign (c ∷ s)

read_digit :
    (acc d : ℕ) (s : Bytes)
    → d < 10
    → read_digits acc ((b'0' + d) ∷ s) ≡ read_digits (acc * 10 + d) s
unfolding read_digits
read_digit acc d s h = ground arith

read_digits-show :
    (fuel n : ℕ) (s : Bytes) → n < fuel → read_digits 0 (show fuel n ++ s) ≡ read_digits n s
unfolding show
read_digits-show zero n s h = absurd (omega arith)
read_digits-show (suc fuel) n s h = elim (Bool-cases (n / 10 == 0)) [
  | inl e ↦
      rw (show, e)
        (read_digit 0 (n % 10) s (omega arith) ∙ ap (λ k. read_digits k s) (ground arith))
  | inr e ↦
      rw (show, e, append_assoc)
        (read_digits-show fuel (n / 10) _ (ground arith)
          ∙ read_digit (n / 10) (n % 10) s (omega arith)
          ∙ ap (λ k. read_digits k s) (omega arith))
]

-- The digits begin with a digit.
show_head :
    (fuel n : ℕ) (s : Bytes)
    → n < fuel
    → (d : ℕ) × (r : Bytes) × (show fuel n ++ s ≡ (b'0' + d) ∷ r) × (d < 10)
unfolding show
show_head zero n s h = absurd (omega arith)
show_head (suc fuel) n s h = elim (Bool-cases (n / 10 == 0)) [
  | inl e ↦ (n % 10, s, rw (show, e) refl, omega arith)
  | inr e ↦
      let (d, r, eq, lt) = show_head fuel (n / 10) ((b'0' + n % 10) ∷ s) (ground arith) in
      (d, r, rw (show, e, append_assoc) eq, lt)
]

stoi-digits :
    (d : ℕ) (s : Bytes)
    → d < 10
    → read_digits 0 ((b'0' + d) ∷ s) < 2 ^ 31
    → stoi ((b'0' + d) ∷ s) ≡ ok (pos (read_digits 0 ((b'0' + d) ∷ s)))
unfolding stoi stoi_sign stoi_digits
stoi-digits d s h b = ground arith

stoi_shown :
    (x r : Bytes) (d n : ℕ)
    → x ++ [] ≡ (b'0' + d) ∷ r
    → d < 10
    → read_digits 0 (x ++ []) ≡ n
    → n < 2 ^ 31
    → stoi x ≡ ok (pos n)
stoi_shown x r d n eq lt v b =
    let shown : x ≡ (b'0' + d) ∷ r = sym (append-nil x) ∙ eq in
    let value : read_digits 0 ((b'0' + d) ∷ r) ≡ n = ap (read_digits 0) (sym eq) ∙ v in
    rw shown (stoi-digits d r lt (omega arith) ∙ ap (λ k. ok (pos k)) value)

to_string_pos : (n : ℕ) → to_string (pos n) ≡ show (suc n) n
unfolding to_string
to_string_pos n = refl

read_digits_nil : (n : ℕ) → read_digits n [] ≡ n
unfolding read_digits
read_digits_nil n = refl

-- `stoi` reads back what `to_string` writes, for every number from 0 to 2^31 - 1.
pub stoi-to_string : (n : ℕ) → n < 2 ^ 31 → stoi (to_string (pos n)) ≡ ok (pos n)
stoi-to_string n h =
    let value = read_digits-show (suc n) n [] (omega arith) in
    let (d, r, eq, lt) = show_head (suc n) n [] (omega arith) in
    rw to_string_pos (stoi_shown (show (suc n) n) r d n eq lt (value ∙ read_digits_nil n) h)

-- A decimal text holds no byte below '0'.
pub show-Lacks : (c fuel n : ℕ) → c < b'0' → Lacks c (show fuel n)
unfolding show
show-Lacks c zero n h = tt
show-Lacks c (suc fuel) n h = elim (Bool-cases (n / 10 == 0)) [
  | inl e ↦ rw (show, e) (omega arith, tt)
  | inr e ↦
      rw (show, e)
        (Lacks-append c (show fuel (n / 10)) ((b'0' + n % 10) ∷ []) (show-Lacks c fuel (n / 10) h)
          (omega arith, tt))
]

pub to_string-Lacks : (c n : ℕ) → c < b'0' → Lacks c (to_string (pos n))
to_string-Lacks c n h = rw to_string_pos (show-Lacks c (suc n) n h)
