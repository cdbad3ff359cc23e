-- ===== src/HeaderParser/Header/Properties.antt =====
-- Reading the properties of a header after a write: the laws of a map, at the first property of
-- each name.
use proxi.Base.{
  ◌≡◌, refl, ◌≢◌, List, [], ◌∷◌, true, false, if◌then◌else◌, Bool-cases, inl, inr, arith, subst,
}
use proxi.HeaderParser.Header.{has, get, set, erase}
use proxi.HeaderParser.Property.{Property}
use proxi.Text.{Bytes, equal}
use proxi.Text.Laws.{equal_iff, equal_ne}

-- No property has the name.
abbrev pub Absent : Bytes → List Property → Type 0
Absent name [] = Unit {0}
Absent name (p ∷ ps) = (p.name ≢ name) × Absent name ps

-- No two properties share a name.
abbrev pub Distinct : List Property → Type 0
Distinct [] = Unit {0}
Distinct (p ∷ ps) = Absent p.name ps × Distinct ps

pub has-Absent : (name : Bytes) (ps : List Property) → Absent name ps → has name ps ≡ false
unfolding has
has-Absent name [] h = refl
has-Absent name (p ∷ ps) h = rw (equal_ne p.name name h.0) (has-Absent name ps h.1)

pub get-Absent : (name : Bytes) (ps : List Property) → has name ps ≡ false → get name ps ≡ []
unfolding has get
get-Absent name [] h = refl
get-Absent name (p ∷ ps) h = ground (arith, get-Absent name ps)

-- After a write the name has the value, and every other name reads as before.
pub get-set :
    (name value other : Bytes) (ps : List Property)
    → get other (set name value ps) ≡ (if equal name other then value else get other ps)
unfolding get set
get-set name value other [] = refl
get-set name value other (p ∷ ps) = ground (
  arith,
  get-set name value other ps,
  equal_iff p.name name,
  equal_iff p.name other,
  equal_iff name other,
)

pub has-set :
    (name value other : Bytes) (ps : List Property)
    → has other (set name value ps) ≡ (if equal name other then true else has other ps)
unfolding has set
has-set name value other [] = refl
has-set name value other (p ∷ ps) = ground (
  arith,
  has-set name value other ps,
  equal_iff p.name name,
  equal_iff p.name other,
  equal_iff name other,
)

pub get-erase_ne :
    (name other : Bytes) (ps : List Property)
    → name ≢ other
    → get other (erase name ps) ≡ get other ps
unfolding get erase
get-erase_ne name other [] n = refl
get-erase_ne name other (p ∷ ps) n =
    ground (arith, get-erase_ne name other ps n, equal_iff p.name name, equal_iff p.name other)

pub has-erase_ne :
    (name other : Bytes) (ps : List Property)
    → name ≢ other
    → has other (erase name ps) ≡ has other ps
unfolding has erase
has-erase_ne name other [] n = refl
has-erase_ne name other (p ∷ ps) n =
    ground (arith, has-erase_ne name other ps n, equal_iff p.name name, equal_iff p.name other)

-- One erasure is enough where the names are distinct.
pub has-erase_self :
    (name : Bytes) (ps : List Property) → Distinct ps → has name (erase name ps) ≡ false
unfolding has erase
has-erase_self name [] d = refl
has-erase_self name (p ∷ ps) d = elim (Bool-cases (equal p.name name)) [
  | inl e ↦
      rw (erase, e)
        (has-Absent name ps (subst (λ (n : Bytes). Absent n ps) ((equal_iff p.name name).0 e) d.0))
  | inr e ↦ rw (erase, e, has, e) (has-erase_self name ps d.1)
]
