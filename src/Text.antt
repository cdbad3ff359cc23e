-- ===== src/Text.antt =====
-- What the program uses of `std::string` and of the conversions of `<string>`, over bytes as
-- numbers, and `to_lower` of proxy/util/util.cpp. `size_t` has 64 bits; its sums and differences
-- wrap around, which the parsers do with `npos`.
pub mod Laws
pub mod Fields
pub mod Numbers
use Prim.Native.Char.{code}
use Prim.Native.String.{String}
use mathlib.Core.Option
use proxi.Base.{
  ℕ, suc, ◌+◌, ◌-◌, ◌%◌, ◌^◌, ◌<◌, List, [], ◌∷◌, Option, none, some, Bool, true, false, ◌&&◌, ◌≢◌,
  Outcome, ok, fault, out_of_range, undefined, ltb, leb, ◌==◌, if◌then◌else◌, length, take, drop,
  get_or, All,
}

abbrev pub Bytes : Type 0
Bytes = List ℕ

-- A literal's bytes; every literal here is ASCII.
abbrev pub codes : String → Bytes
codes String.[] = []
codes (String.◌∷◌ c s) = code c ∷ codes s

abbrev pub npos : ℕ
npos = 2 ^ 64 - 1

-- `a + b` and `a - b` of `size_t`.
abbrev pub add64 : ℕ → ℕ → ℕ
add64 a b = (a + b) % 2 ^ 64

abbrev pub sub64 : ℕ → ℕ → ℕ
sub64 a b = (a + 2 ^ 64 - b) % 2 ^ 64

-- `std::string::max_size()`: no text in memory is longer.
abbrev pub Fits : Bytes → Type 0
Fits s = length s < 2 ^ 63

-- The first place of a byte.
unfoldable pub index_of : ℕ → Bytes → Option ℕ
index_of c [] = none
index_of c (x ∷ s) = if x == c then some 0 else Option.map suc (index_of c s)

-- `s.find(c, pos)`
unfoldable pub find : Bytes → ℕ → ℕ → ℕ
find s c pos = elim (index_of c (drop pos s)) [ none ↦ npos | some i ↦ pos + i ]

unfoldable pub starts_with : Bytes → Bytes → Bool
starts_with [] s = true
starts_with (c ∷ t) [] = false
starts_with (c ∷ t) (x ∷ s) = x == c && starts_with t s

unfoldable pub index_of_text : Bytes → Bytes → Option ℕ
unfolding starts_with
index_of_text t [] = if starts_with t [] then some 0 else none
index_of_text t (x ∷ s) =
    if starts_with t (x ∷ s) then some 0 else Option.map suc (index_of_text t s)

-- `s.find(t) != npos`
unfoldable pub contains : Bytes → Bytes → Bool
unfolding index_of_text
contains s t = elim (index_of_text t s) [ none ↦ false | some _ ↦ true ]

-- `s.substr(pos, n)`
unfoldable pub substr : Bytes → ℕ → ℕ → Outcome Bytes
substr s pos n = if ltb (length s) pos then fault out_of_range else ok (take n (drop pos s))

-- `s[i]`: the terminating zero may be read, and nothing behind it.
unfoldable pub byte_at : Bytes → ℕ → Outcome ℕ
byte_at s i = if ltb (length s) i then fault undefined else ok (get_or s i 0)

-- `a.compare(b) == 0`
unfoldable pub equal : Bytes → Bytes → Bool
equal [] [] = true
equal (x ∷ a) (y ∷ b) = x == y && equal a b
equal _ _ = false

-- `::tolower` in the "C" locale
unfoldable pub lower : ℕ → ℕ
lower c = if leb b'A' c && leb c b'Z' then c + 32 else c

-- `to_lower` of proxy/util/util.cpp
unfoldable pub to_lower : Bytes → Bytes
unfolding lower
to_lower [] = []
to_lower (c ∷ s) = lower c ∷ to_lower s

-- A text without the byte.
abbrev pub Lacks : ℕ → Bytes → Type 0
Lacks c = All (λ x. x ≢ c)
