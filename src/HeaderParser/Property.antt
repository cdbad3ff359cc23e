-- ===== src/HeaderParser/Property.antt =====
-- `header_property`: one "name: value" line of a header, without its line end.
pub mod RoundTrip
use proxi.Base.{
  ℕ, suc, ◌+◌, List, [], ◌∷◌, ◌++◌, Outcome, ok, ◌>>=◌, ◌==◌, if◌then◌else◌, length, drop,
}
use proxi.Text.{Bytes, add64, sub64, find, substr, to_lower}

pub record Property : Type 0 where
  pub name : Bytes
  pub value : Bytes

-- `while (end < property.length() && property[end] == ' ') end++;`, over what stands from `end` on
unfoldable pub skip_spaces : Bytes → ℕ → ℕ
skip_spaces [] end = end
skip_spaces (c ∷ s) end = if c == b' ' then skip_spaces s (end + 1) else end

-- the constructor from one line
unfoldable pub parse : Bytes → Outcome Property
unfolding skip_spaces
parse property = do
  let end = find property b':' 0
  name ← substr property 0 (sub64 end 0)
  let colon = add64 end 1
  let start = skip_spaces (drop colon property) colon
  value ← substr property start (sub64 (length property) start)
  ok (record { name = to_lower name; value = value })

unfoldable pub to_string : Property → Bytes
to_string p = p.name ++ (b':' ∷ b' ' ∷ (p.value ++ b'\r' ∷ b'\n' ∷ []))
