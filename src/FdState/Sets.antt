-- ===== src/FdState/Sets.antt =====
-- The lists of states that the program writes, as sets: what `is`, `^` and `|` do to them.
use mathlib.Core.Bool.{xor as xor_bool}
use proxi.Base.{List, [], ◌∷◌, Bool, true, false, not, ◌&&◌, ◌||◌, ◌≡◌, refl, ◌∙◌, arith}
use proxi.FdState.Masks.{mask, or-mask, xor-mask, is-mask}
use proxi.FdState.{
  State, in_state, out_state, wait_state, error_state, hup_state, rdhup_state, add_state,
  value_from, value_of, is, or, xor,
}

-- The list names the state.
unfoldable pub same_state : State → State → Bool
same_state in_state in_state = true
same_state out_state out_state = true
same_state wait_state wait_state = true
same_state error_state error_state = true
same_state hup_state hup_state = true
same_state rdhup_state rdhup_state = true
same_state _ _ = false

unfoldable pub names : List State → State → Bool
names [] s = false
names (x ∷ st) s = same_state x s || names st s

add_state-mask :
    (i o e h r : Bool) (s : State)
    → add_state (mask i o e h r) s
      ≡ mask
          (i || same_state s in_state)
          (o || same_state s out_state)
          (e || same_state s error_state)
          (h || same_state s hup_state)
          (r || same_state s rdhup_state)
unfolding add_state same_state mask or
add_state-mask i o e h r in_state = or-mask i o e h r true false false false false
add_state-mask i o e h r out_state = or-mask i o e h r false true false false false
add_state-mask i o e h r wait_state = or-mask i o e h r false false false false false
add_state-mask i o e h r error_state = or-mask i o e h r false false true false false
add_state-mask i o e h r hup_state = or-mask i o e h r false false false true false
add_state-mask i o e h r rdhup_state = or-mask i o e h r false false false false true

or_assoc : (a b c : Bool) → ((a || b) || c) ≡ (a || (b || c))
or_assoc a b c = ground arith

or_false : (a : Bool) → (a || false) ≡ a
or_false a = ground arith

value_from-mask :
    (st : List State) (i o e h r : Bool)
    → value_from (mask i o e h r) st
      ≡ mask
          (i || names st in_state)
          (o || names st out_state)
          (e || names st error_state)
          (h || names st hup_state)
          (r || names st rdhup_state)
unfolding value_from names
value_from-mask [] i o e h r = rw (or_false i, or_false o, or_false e, or_false h, or_false r) refl
value_from-mask (x ∷ st) i o e h r =
    rw (add_state-mask i o e h r x) (value_from-mask st _ _ _ _ _ ∙ simp or_assoc)

value_of-mask :
    (st : List State)
    → value_of st
      ≡ mask
          (names st in_state)
          (names st out_state)
          (names st error_state)
          (names st hup_state)
          (names st rdhup_state)
unfolding value_of mask
value_of-mask st = value_from-mask st false false false false false

one-mask :
    (t : State)
    → value_of (t ∷ [])
      ≡ mask
          (same_state t in_state)
          (same_state t out_state)
          (same_state t error_state)
          (same_state t hup_state)
          (same_state t rdhup_state)
unfolding value_of same_state mask
one-mask in_state = refl
one-mask _ = refl

-- The flag of a state.
pick : Bool → Bool → Bool → Bool → Bool → State → Bool
pick i o e h r in_state = i
pick i o e h r out_state = o
pick i o e h r wait_state = false
pick i o e h r error_state = e
pick i o e h r hup_state = h
pick i o e h r rdhup_state = r

only_one :
    (i o e h r : Bool) (t : State)
    → (i && same_state t in_state
        || o && same_state t out_state
        || e && same_state t error_state
        || h && same_state t hup_state
        || r && same_state t rdhup_state)
      ≡ pick i o e h r t
unfolding pick same_state
only_one i o e h r in_state = ground arith
only_one i o e h r _ = ground arith

and_true : (a : Bool) → a ≡ (a && true)
and_true a = ground arith

and_false : (a : Bool) → false ≡ (a && false)
and_false a = ground arith

-- A function of the five events, at `t`; `WAIT` has no flag.
pick_at :
    (f : State → Bool) (t : State)
    → pick (f in_state) (f out_state) (f error_state) (f hup_state) (f rdhup_state) t
      ≡ (f t && not (same_state t wait_state))
unfolding pick same_state
pick_at f in_state = and_true (f in_state)
pick_at f out_state = and_true (f out_state)
pick_at f wait_state = and_false (f wait_state)
pick_at f error_state = and_true (f error_state)
pick_at f hup_state = and_true (f hup_state)
pick_at f rdhup_state = and_true (f rdhup_state)

is-one : (i o e h r : Bool) (t : State) → is (mask i o e h r) (value_of (t ∷ [])) ≡ pick i o e h r t
is-one i o e h r t = rw (one-mask t, is-mask) (only_one i o e h r t)

-- `is`, of a value made from a list of states and of one state, answers whether the list names
-- the state; `WAIT` is no event, and never answered.
pub is-value_of :
    (st : List State) (t : State)
    → is (value_of st) (value_of (t ∷ [])) ≡ (names st t && not (same_state t wait_state))
is-value_of st t = rw (value_of-mask st, is-one) (pick_at (names st) t)

-- `^` of a value made from a list of states with one state toggles that state and leaves every
-- other one as it was; `WAIT` is never answered.
pub is-xor :
    (st : List State) (s t : State)
    → is (xor (value_of st) (value_of (s ∷ []))) (value_of (t ∷ []))
      ≡ (xor_bool (names st t) (same_state s t) && not (same_state t wait_state))
is-xor st s t =
    rw (value_of-mask st, one-mask s, xor-mask, is-one)
      (pick_at (λ x. xor_bool (names st x) (same_state s x)) t)

-- `|` of a value made from a list of states with one state adds that state and leaves every
-- other one as it was; `WAIT` is never answered.
pub is-or :
    (st : List State) (s t : State)
    → is (or (value_of st) (value_of (s ∷ []))) (value_of (t ∷ []))
      ≡ ((names st t || same_state s t) && not (same_state t wait_state))
is-or st s t =
    rw (value_of-mask st, one-mask s, or-mask, is-one)
      (pick_at (λ x. names st x || same_state s x) t)
