-- ===== src/BufferedMessage/Parts.antt =====
-- The writing side of `buffered_message`: what is still to be written, as one text.
use proxi.Base.{
  ℕ, zero, suc, ◌+◌, ◌≤◌, ◌<◌, ◌≡◌, ◌≢◌, ◌↔◌, refl, sym, ◌∙◌, ap, List, [], ◌∷◌, ◌++◌, Option, none,
  some, Bool, true, ◌&&◌, ok, ◌==◌, length, get_elem?, take, drop, All, arith, append_assoc,
  length-append, Bool-cases, Option-cases, inl, inr, take-append-drop, drop-add, length-drop,
  take_of_length-le, lt→ltb, ok-injective, subst, eq→==, ==_iff,
}
use proxi.BufferedMessage.{BufferedMessage, can_write, is_read, is_written, write_to}
use proxi.FileDescriptor.{SysWrite, write-ok}
use proxi.Text.{Bytes, Fits, add64}

abbrev pub concat : List Bytes → Bytes
concat [] = []
concat (part ∷ parts) = part ++ concat parts

-- What is still to be written.
abbrev pub rest_of : List Bytes → ℕ → ℕ → Bytes
rest_of cache cur_part write_length = drop write_length (concat (drop cur_part cache))

-- The place of the next byte: inside a part, or behind the last one.
abbrev pub Place : Option Bytes → ℕ → Type 0
Place none write_length = write_length ≡ 0
Place (some part) write_length = write_length < length part

abbrev pub SomeBytes : Bytes → Type 0
SomeBytes part = (1 ≤ length part) × Fits part

part_there :
    (P : Bytes → Type 0) (l : List Bytes) (i : ℕ) (part : Bytes)
    → All P l
    → get_elem? l i ≡ some part
    → (drop i l ≡ part ∷ drop (i + 1) l) × P part × (i < length l)
part_there P [] i part h e = cc
part_there P (x ∷ l) zero part h e =
    let same : x ≡ part = cc in (ap (λ y. y ∷ l) same, subst P same h.0, omega arith)
part_there P (x ∷ l) (suc i) part h e =
    let (d, p, lt) = part_there P l i part h.1 e in
    let next : suc i + 1 ≡ suc (i + 1) = omega arith in (rw next d, p, omega arith)

no_part : (l : List Bytes) (i : ℕ) → get_elem? l i ≡ none → (drop i l ≡ []) × (length l ≤ i)
no_part [] zero e = (refl, omega arith)
no_part [] (suc i) e = (refl, omega arith)
no_part (x ∷ l) zero e = cc
no_part (x ∷ l) (suc i) e = let (d, le) = no_part l i e in (d, omega arith)

drop_front : (n : ℕ) (a b : Bytes) → n ≤ length a → drop n (a ++ b) ≡ drop n a ++ b
drop_front zero a b h = refl
drop_front (suc n) [] b h = absurd (omega arith)
drop_front (suc n) (x ∷ a) b h = drop_front n a b (omega arith)

Place-start : (l : List Bytes) (i : ℕ) → All SomeBytes l → Place (get_elem? l i) 0
Place-start [] i h = refl
Place-start (x ∷ l) zero h = h.0.0
Place-start (x ∷ l) (suc i) h = Place-start l i h.1

and_left : (a b : Bool) → a && b ≡ true → a ≡ true
and_left a b h = ground arith

and_right : (a b : Bool) → a && b ≡ true → b ≡ true
and_right a b h = ground arith

module _ {T : Type 0} where
  pub record IsValid (m : BufferedMessage T) : Type 0 where
    pub parts : All SomeBytes m.cache
    pub in_cache : m.cur_part ≤ length m.cache
    pub place : Place (get_elem? m.cache m.cur_part) m.write_length

  abbrev pub pending : BufferedMessage T → Bytes
  pending m = rest_of m.cache m.cur_part m.write_length

  -- `write_to` offers the rest of the current part; the bytes that the kernel takes are the next
  -- ones of what is to be written, and the others stay, in order.
  pub write_to-pending :
      (kernel : SysWrite) (m : BufferedMessage T) (part : Bytes) (n : ℕ)
      → IsValid m
      → get_elem? m.cache m.cur_part ≡ some part
      → kernel.answer (drop m.write_length part) ≡ some n
      → (m' : BufferedMessage T) × (write_to kernel m ≡ ok m')
        × IsValid m'
        × (pending m ≡ take n (drop m.write_length part) ++ pending m')
        × (m'.cache ≡ m.cache)
  unfolding write_to
  write_to-pending kernel m part n v there e =
      let w = m.write_length in
      let (split, (_, fits), inside) = part_there SomeBytes m.cache m.cur_part part v.parts there in
      let at : w < length part = subst (λ o. Place o w) there v.place in
      let moved = kernel.at_most (drop w part) n e in
      let total : add64 w n ≡ w + n = omega (arith, length-drop w part) in
      let later = concat (drop (m.cur_part + 1) m.cache) in
      let whole : pending m ≡ drop w part ++ later =
        ap (λ l. drop w (concat l)) split ∙ drop_front w part later (omega arith) in
      elim (Bool-cases (w + n == length part)) [
        | inl end ↦ (
          record m { write_length = 0; cur_part = m.cur_part + 1 },
          rw (there, write_to, write-ok kernel (drop w part) n e, total, end) refl,
          record {
            parts = v.parts;
            in_cache = omega arith;
            place = Place-start m.cache (m.cur_part + 1) v.parts;
          },
          whole
              ∙ ap (λ (s : Bytes). s ++ later)
                  (sym (take_of_length-le n (drop w part) (ground (arith, length-drop w part)))),
          refl,
        )
        | inr more ↦ (
          record m { write_length = w + n },
          rw (there, write_to, write-ok kernel (drop w part) n e, total, more) refl,
          record {
            parts = v.parts;
            in_cache = v.in_cache;
            place = subst (λ o. Place o (w + n)) (sym there) (ground (arith, length-drop w part));
          },
          whole
              ∙ ap (λ (s : Bytes). s ++ later) (sym (take-append-drop n (drop w part)))
              ∙ append_assoc (take n (drop w part)) (drop n (drop w part)) later
              ∙ ap (λ (s : Bytes). take n (drop w part) ++ (s ++ later)) (sym (drop-add w n part))
              ∙ ap (λ (s : Bytes). take n (drop w part) ++ s)
                  (sym (
                    ap (λ l. drop (w + n) (concat l)) split
                    ∙ drop_front (w + n) part later (ground (arith, length-drop w part)))),
          refl,
        )
      ]

  -- For a well-formed message the tests say what they mean: `can_write` that something is
  -- still to be written, and `is_written` that the message is read and nothing is.
  pub can_write_lem :
      (m : BufferedMessage T)
      → IsValid m
      → ((can_write m ≡ true) ↔ (pending m ≢ []))
        × ((is_written m ≡ true) ↔ ((is_read m ≡ true) × (pending m ≡ [])))
  unfolding can_write is_written
  can_write_lem m v = elim (Option-cases (get_elem? m.cache m.cur_part)) [
    | inl gone ↦
        let (d, le) = no_part m.cache m.cur_part gone in
        let at_start : m.write_length ≡ 0 = subst (λ o. Place o m.write_length) gone v.place in
        let empty : pending m ≡ [] =
          ap (λ l. drop m.write_length (concat l)) d ∙ ap (λ (k : ℕ). drop k []) at_start in
        let last = eq→== m.cur_part (length m.cache) (omega (arith, v.in_cache)) in
        (
          (λ h. cc (rw (can_write, gone) at h), λ h. absurd (h empty)),
          (λ h. (and_left (is_read m) _ h, empty), λ h. rw (is_written, h.0, last) refl),
        )
    | inr (part, there) ↦
        let (split, (_, fits), inside) =
          part_there SomeBytes m.cache m.cur_part part v.parts there in
        let w = m.write_length in
        let at : w < length part = subst (λ o. Place o w) there v.place in
        let later = concat (drop (m.cur_part + 1) m.cache) in
        let whole : pending m ≡ drop w part ++ later =
          ap (λ l. drop w (concat l)) split ∙ drop_front w part later (omega arith) in
        let some_left : pending m ≢ [] = λ h. omega (
          arith,
          ap length (sym whole ∙ h),
          length-append (drop w part) later,
          length-drop w part,
        ) in
        (
          (λ h. some_left, λ h. rw (can_write, there) (lt→ltb w (length part) at)),
          (
            λ h.
                absurd (
                  omega
                    (arith, (==_iff m.cur_part (length m.cache)).0 (and_right (is_read m) _ h))),
            λ h. absurd (some_left h.1),
          ),
        )
  ]

-- What `write_to` sends: `Sends m output m'` if calls that return lead from `m` to `m'` and the
-- kernel took `output`, in this order.
pub data Sends {T : Type 0} : BufferedMessage T → Bytes → BufferedMessage T → Type 0 where
  start : {m : BufferedMessage T} → Sends m [] m
  send :
      {m m1 m2 : BufferedMessage T} {output : Bytes} (kernel : SysWrite) (part : Bytes) (n : ℕ)
      → Sends m output m1
      → get_elem? m1.cache m1.cur_part ≡ some part
      → kernel.answer (drop m1.write_length part) ≡ some n
      → write_to kernel m1 ≡ ok m2
      → Sends m (output ++ take n (drop m1.write_length part)) m2

-- From a well-formed message, along calls of `write_to` that return, whatever the kernel takes
-- at each: the message stays well formed, what was sent, with what is left behind it, is what
-- was to be sent, and the parts stay as they are.
pub Sends-order :
    {T : Type 0} {m m' : BufferedMessage T} {output : Bytes}
    → IsValid m
    → Sends m output m'
    → IsValid m' × (pending m ≡ output ++ pending m') × (m'.cache ≡ m.cache)
Sends-order v start = (v, refl, refl)
Sends-order {m = m} v (send {m1 = m1} {output = output} kernel part n s there e runs) =
    let (v1, in_order, same) = Sends-order v s in
    let (m2, runs2, v2, p2, same2) = write_to-pending kernel m1 part n v1 there e in
    let taken = take n (drop m1.write_length part) in
    subst (λ x. IsValid x × (pending m ≡ (output ++ taken) ++ pending x) × (x.cache ≡ m.cache))
      (ok-injective (sym runs2 ∙ runs))
      (
        v2,
        in_order
            ∙ ap (λ (s : Bytes). output ++ s) p2
            ∙ sym (append_assoc output taken (pending m2)),
        same2 ∙ same,
      )
