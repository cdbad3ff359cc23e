-- ===== src/RawMessage/Relay.antt =====
-- The bytes that pass through a `raw_message`: what is pending in it, before and after each call.
use proxi.Base.{
  ℕ, ◌+◌, ◌-◌, ◌≤◌, ◌<◌, ◌≡◌, ◌≢◌, ◌↔◌, refl, sym, ◌∙◌, ap, inl, inr, [], ◌++◌, some, true, ◌||◌,
  ok, ltb, ◌==◌, length, take, arith, append_assoc, Bool-cases, take_append, ltb→lt, ltb→le,
  ok-injective, subst,
}
use proxi.FileDescriptor.{SysRead, SysWrite, read-ok, write-ok}
use proxi.RawMessage.Memory.{length-segment, segment-add, segment-fill_before, segment-fill_self}
use proxi.RawMessage.{
  RawMessage, buffer_length, segment, fill, empty, can_read, can_write, read_from, write_to,
}
use proxi.Text.{Bytes, add64, sub64}

pub record IsValid (m : RawMessage) : Type 0 where
  pub written : m.write_length ≤ m.read_length
  pub bounded : m.read_length ≤ buffer_length
  -- a full buffer that was written out was reset
  pub open_end : m.write_length < buffer_length

-- The bytes that were read and not yet written.
abbrev pub pending : RawMessage → Bytes
pending m = segment m.buffer m.write_length (m.read_length - m.write_length)

pub empty-IsValid : (b : ℕ → ℕ) → IsValid (empty b) × (pending (empty b) ≡ [])
unfolding empty segment
empty-IsValid b = (omega arith, refl)

pending-fill :
    (b : ℕ → ℕ) (w r : ℕ) (bytes : Bytes)
    → w ≤ r
    → segment (fill b r bytes) w (r + length bytes - w) ≡ segment b w (r - w) ++ bytes
pending-fill b w r bytes h =
    let count : r + length bytes - w ≡ (r - w) + length bytes = omega arith in
    let here : w + (r - w) ≡ r = omega arith in
    rw (count, segment-add (fill b r bytes) w (r - w) (length bytes), here, segment-fill_self)
      (ap (λ (s : Bytes). s ++ bytes) (segment-fill_before b r bytes w (r - w) (omega arith)))

-- `read_from` puts what the kernel returns behind the pending bytes, whatever the kernel returns,
-- and keeps the indices in the buffer.
pub read_from_lem :
    (kernel : SysRead) (m : RawMessage) (bytes : Bytes)
    → IsValid m
    → kernel.answer (buffer_length - m.read_length) ≡ some bytes
    → (m' : RawMessage) × (read_from kernel m ≡ ok m')
      × IsValid m'
      × (pending m' ≡ pending m ++ bytes)
unfolding read_from
read_from_lem kernel m bytes v e =
    let fits = kernel.at_most (buffer_length - m.read_length) bytes e in
    let asked : sub64 buffer_length m.read_length ≡ buffer_length - m.read_length = omega arith in
    let total : add64 m.read_length (length bytes) ≡ m.read_length + length bytes = omega arith in
    (
      record m {
        read_length = m.read_length + length bytes;
        buffer = fill m.buffer m.read_length bytes;
      },
      rw (asked, read-ok kernel (buffer_length - m.read_length) bytes e, total) refl,
      omega arith,
      pending-fill m.buffer m.write_length m.read_length bytes v.written,
    )

pending-split :
    (b : ℕ → ℕ) (w r n : ℕ)
    → n ≤ r - w
    → segment b w (r - w) ≡ take n (segment b w (r - w)) ++ segment b (w + n) (r - (w + n))
pending-split b w r n h =
    let front = segment b w n in
    let count : r - w ≡ n + (r - (w + n)) = omega arith in
    let both : segment b w (r - w) ≡ front ++ segment b (w + n) (r - (w + n)) =
      ap (segment b w) count ∙ segment-add b w n (r - (w + n)) in
    let taken : take n (segment b w (r - w)) ≡ front =
      ap (take n) both
      ∙ ap (λ (k : ℕ). take k (front ++ segment b (w + n) (r - (w + n))))
          (sym (length-segment b w n))
      ∙ take_append front (segment b (w + n) (r - (w + n))) in
    both ∙ ap (λ (s : Bytes). s ++ segment b (w + n) (r - (w + n))) (sym taken)

-- `write_to` hands the pending bytes to the kernel; of those that the kernel takes none stays, and
-- the others stay in order.
pub write_to_lem :
    (kernel : SysWrite) (m : RawMessage) (n : ℕ)
    → IsValid m
    → kernel.answer (pending m) ≡ some n
    → (m' : RawMessage) × (write_to kernel m ≡ ok m')
      × IsValid m'
      × (pending m ≡ take n (pending m) ++ pending m')
unfolding write_to segment
write_to_lem kernel m n v e =
    let w = m.write_length in
    let r = m.read_length in
    let moved : n ≤ r - w =
      omega (arith, kernel.at_most (pending m) n e, length-segment m.buffer w (r - w)) in
    let asked : sub64 r w ≡ r - w = omega arith in
    let total : add64 w n ≡ w + n = omega arith in
    let split = pending-split m.buffer w r n moved in
    elim (Bool-cases (w + n == buffer_length)) [
      | inl end ↦
          let none_left : r - (w + n) ≡ 0 = ground arith in
          (
            record m { read_length = 0; write_length = 0 },
            rw (asked, write-ok kernel (pending m) n e, total, end) refl,
            omega arith,
            split ∙ ap (λ (k : ℕ). take n (pending m) ++ segment m.buffer (w + n) k) none_left,
          )
      | inr more ↦ (
        record m { write_length = w + n },
        rw (asked, write-ok kernel (pending m) n e, total, more) refl,
        record { written = omega arith; bounded = v.bounded; open_end = ground arith },
        split,
      )
    ]

-- For a well-formed message the tests say what they mean: `can_write` that bytes are pending;
-- and the message can read or can write.
pub can_lem :
    (m : RawMessage)
    → IsValid m
    → ((can_write m ≡ true) ↔ (pending m ≢ [])) × ((can_read m || can_write m) ≡ true)
unfolding can_read can_write segment
can_lem m v =
    let w = m.write_length in
    let r = m.read_length in
    (
      (
        λ h e. absurd (omega (arith, ltb→lt w r h, ap length e, length-segment m.buffer w (r - w))),
        λ some_left. elim (Bool-cases (ltb w r)) [
          | inl h ↦ h
          | inr h ↦
              let none_left : r - w ≡ 0 = omega (arith, ltb→le w r h) in
              absurd (some_left (ap (segment m.buffer w) none_left))
        ],
      ),
      ground arith,
    )

-- What passes through a message: `Relays m input output m'` if from `m` the calls that return
-- take `input` from the one socket, give `output` to the other, and lead to `m'`.
pub data Relays : RawMessage → Bytes → Bytes → RawMessage → Type 0 where
  start : {m : RawMessage} → Relays m [] [] m
  receive :
      {m m1 m2 : RawMessage} {input output : Bytes} (kernel : SysRead) (bytes : Bytes)
      → Relays m input output m1
      → kernel.answer (buffer_length - m1.read_length) ≡ some bytes
      → read_from kernel m1 ≡ ok m2
      → Relays m (input ++ bytes) output m2
  emit :
      {m m1 m2 : RawMessage} {input output : Bytes} (kernel : SysWrite) (n : ℕ)
      → Relays m input output m1
      → kernel.answer (pending m1) ≡ some n
      → write_to kernel m1 ≡ ok m2
      → Relays m input (output ++ take n (pending m1)) m2

-- From a well-formed message with no pending bytes, along any calls of `read_from` and
-- `write_to` that return: the message stays well formed, and what came in is what went out
-- with the pending bytes behind it.
pub Relays-order :
    {m m' : RawMessage} {input output : Bytes}
    → IsValid m
    → pending m ≡ []
    → Relays m input output m'
    → IsValid m' × (input ≡ output ++ pending m')
Relays-order v e start = (v, sym e)
Relays-order v e (receive {m1 = m1} {input = input} {output = output} kernel bytes r a runs) =
    let (v1, in_order) = Relays-order v e r in
    let (m2, runs2, v2, p2) = read_from_lem kernel _ bytes v1 a in
    subst (λ x. IsValid x × (input ++ bytes ≡ output ++ pending x))
      (ok-injective (sym runs2 ∙ runs))
      (
        v2,
        ap (λ (s : Bytes). s ++ bytes) in_order
            ∙ append_assoc output (pending m1) bytes
            ∙ ap (λ (s : Bytes). output ++ s) (sym p2),
      )
Relays-order v e (emit {m1 = m1} {input = input} {output = output} kernel n r a runs) =
    let (v1, in_order) = Relays-order v e r in
    let (m2, runs2, v2, p2) = write_to_lem kernel _ n v1 a in
    subst (λ x. IsValid x × (input ≡ (output ++ take n (pending m1)) ++ pending x))
      (ok-injective (sym runs2 ∙ runs))
      (
        v2,
        in_order
            ∙ ap (λ (s : Bytes). output ++ s) p2
            ∙ sym (append_assoc output (take n (pending m1)) (pending m2)),
      )
