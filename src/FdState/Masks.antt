-- ===== src/FdState/Masks.antt =====
-- A value of `fd_state` as the set of its five flags: what `|`, `^` and `is` do to the flags,
-- checked for all sets by evaluation.
use mathlib.Core.Bool.{xor as xor_bool}
use proxi.Base.{
  ℕ, ◌+◌, Bool, true, false, not, ◌&&◌, ◌||◌, ◌==◌, ◌≡◌, refl, if◌then◌else◌, arith, ==_iff,
}
use proxi.FdState.{is, or, xor}

abbrev bit : Bool → ℕ → ℕ
bit b n = if b then n else 0

-- The value with these flags, in the order IN, OUT, ERROR, HUP, RDHUP.
unfoldable pub mask : Bool → Bool → Bool → Bool → Bool → ℕ
mask i o e h r = bit i 1 + bit o 4 + bit e 8 + bit h 16 + bit r 0x2000

all_bool : (Bool → Bool) → Bool
all_bool p = p true && p false

all_bool_sound : (p : Bool → Bool) (b : Bool) → all_bool p ≡ true → p b ≡ true
unfolding all_bool
all_bool_sound p true h = ground arith
all_bool_sound p false h = ground arith

all_masks : (Bool → Bool → Bool → Bool → Bool → Bool) → Bool
unfolding all_bool
all_masks p =
    all_bool (λ i. all_bool (λ o. all_bool (λ e. all_bool (λ h. all_bool (λ r. p i o e h r)))))

all_masks_sound :
    (p : Bool → Bool → Bool → Bool → Bool → Bool) (i o e h r : Bool)
    → all_masks p ≡ true
    → p i o e h r ≡ true
unfolding all_masks
all_masks_sound p i o e h r t = all_bool_sound (p i o e h) r (
    all_bool_sound (λ h'. all_bool (p i o e h')) h
      (all_bool_sound (λ e'. all_bool (λ h'. all_bool (p i o e' h'))) e
        (all_bool_sound (λ o'. all_bool (λ e'. all_bool (λ h'. all_bool (p i o' e' h')))) o
          (all_bool_sound
            (λ i'. all_bool (λ o'. all_bool (λ e'. all_bool (λ h'. all_bool (p i' o' e' h'))))) i
            t))))

same : Bool → Bool → Bool
same true b = b
same false b = not b

same_eq : (a b : Bool) → same a b ≡ true → a ≡ b
unfolding same
same_eq a b h = ground arith

or_table :
    all_masks (λ i o e h r. all_masks (λ i' o' e' h' r'.
      or (mask i o e h r) (mask i' o' e' h' r')
      == mask (i || i') (o || o') (e || e') (h || h') (r || r')))
    ≡ true
unfolding all_masks mask or
or_table = refl

xor_table :
    all_masks (λ i o e h r. all_masks (λ i' o' e' h' r'.
      xor (mask i o e h r) (mask i' o' e' h' r')
      == mask (xor_bool i i') (xor_bool o o') (xor_bool e e') (xor_bool h h') (xor_bool r r')))
    ≡ true
unfolding all_masks mask xor xor_bool
xor_table = refl

is_table :
    all_masks (λ i o e h r. all_masks (λ i' o' e' h' r'.
      same
        (is (mask i o e h r) (mask i' o' e' h' r'))
        (i && i' || o && o' || e && e' || h && h' || r && r')))
    ≡ true
unfolding all_masks mask is same
is_table = refl

-- `|` joins the flags.
pub or-mask :
    (i o e h r i' o' e' h' r' : Bool)
    → or (mask i o e h r) (mask i' o' e' h' r')
      ≡ mask (i || i') (o || o') (e || e') (h || h') (r || r')
or-mask i o e h r i' o' e' h' r' =
    (==_iff _ _).0 (all_masks_sound _ i' o' e' h' r' (all_masks_sound _ i o e h r or_table))

-- `^` toggles the flags of its second argument.
pub xor-mask :
    (i o e h r i' o' e' h' r' : Bool)
    → xor (mask i o e h r) (mask i' o' e' h' r')
      ≡ mask (xor_bool i i') (xor_bool o o') (xor_bool e e') (xor_bool h h') (xor_bool r r')
xor-mask i o e h r i' o' e' h' r' =
    (==_iff _ _).0 (all_masks_sound _ i' o' e' h' r' (all_masks_sound _ i o e h r xor_table))

-- `is` asks for a common flag.
pub is-mask :
    (i o e h r i' o' e' h' r' : Bool)
    → is (mask i o e h r) (mask i' o' e' h' r')
      ≡ (i && i' || o && o' || e && e' || h && h' || r && r')
is-mask i o e h r i' o' e' h' r' =
    same_eq _ _ (all_masks_sound _ i' o' e' h' r' (all_masks_sound _ i o e h r is_table))
