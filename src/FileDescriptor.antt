-- ===== src/FileDescriptor.antt =====
-- `file_descriptor` of proxy/util/file_descriptor.h and file_descriptor.cpp. `read` and `write` are
-- over the system calls `read(2)` and `write(2)`, which are parameters: what the kernel answers to
-- a count, or to the bytes offered; `none` is -1. Both calls move no more bytes than they were
-- asked to. The constructors, moves and the destructor act on the objects of the program, each at
-- an address, and on the record of the calls of `close(2)`.
pub mod Owners
use proxi.Base.{
  ℕ, ◌≤◌, ◌≡◌, refl, List, [], ◌∷◌, Option, none, some, Outcome, ok, fault, annotated, undefined,
  ◌>>=◌, length, ◌==◌, if◌then◌else◌,
}
use proxi.Text.{Bytes}

pub record SysRead : Type 0 where
  pub answer : ℕ → Option Bytes
  pub at_most : (n : ℕ) (bytes : Bytes) → answer n ≡ some bytes → length bytes ≤ n

pub record SysWrite : Type 0 where
  pub answer : Bytes → Option ℕ
  pub at_most : (bytes : Bytes) (n : ℕ) → answer bytes ≡ some n → n ≤ length bytes

unfoldable pub read : SysRead → ℕ → Outcome Bytes
read kernel message_size = elim (kernel.answer message_size) [
  | none ↦ fault annotated
  | some bytes ↦ ok bytes
]

unfoldable pub write : SysWrite → Bytes → Outcome ℕ
write kernel message = elim (kernel.answer message) [ none ↦ fault annotated | some n ↦ ok n ]

-- The objects, each an address with the member `fd`, and what was closed, the last first.
pub record Objects : Type 0 where
  pub held : List (ℕ × ℕ)
  pub closed : List ℕ

-- The member `fd` of the object at an address, which `get` returns; an access to no object is
-- undefined.
unfoldable pub get : ℕ → List (ℕ × ℕ) → Outcome ℕ
get at [] = fault undefined
get at ((k, fd) ∷ l) = if k == at then ok fd else get at l

unfoldable pub put : ℕ → ℕ → List (ℕ × ℕ) → List (ℕ × ℕ)
put at fd [] = []
put at fd ((k, old) ∷ l) = if k == at then (k, fd) ∷ l else (k, old) ∷ put at fd l

unfoldable pub end_of : ℕ → List (ℕ × ℕ) → List (ℕ × ℕ)
end_of at [] = []
end_of at ((k, fd) ∷ l) = if k == at then l else (k, fd) ∷ end_of at l

-- The constructor without an argument, and the one with the answer of a call of the system.
unfoldable pub construct : ℕ → Objects → Objects
construct at o = record o { held = (at, 0) ∷ o.held }

unfoldable pub of_call : ℕ → Option ℕ → Objects → Outcome Objects
of_call at answer o = elim answer [
  | none ↦ fault annotated
  | some fd ↦ ok (record o { held = (at, fd) ∷ o.held })
]

unfoldable pub swap : ℕ → ℕ → Objects → Outcome Objects
swap first other o = do
  x ← get first o.held
  y ← get other o.held
  ok (record o { held = put other x (put first y o.held) })

-- The constructor from another object, and the assignment.
unfoldable pub construct_from : ℕ → ℕ → Objects → Outcome Objects
construct_from at other o = swap at other (construct at o)

unfoldable pub assign : ℕ → ℕ → Objects → Outcome Objects
assign at other o = swap at other o

unfoldable pub destroy : ℕ → Objects → Outcome Objects
destroy at o = do
  fd ← get at o.held
  let rest = end_of at o.held
  ok (record { held = rest; closed = if fd == 0 then o.closed else fd ∷ o.closed })

-- the answer of `ioctl(2)` with FIONREAD
abbrev pub can_read : Option ℕ → Outcome ℕ
can_read none = fault annotated
can_read (some bytes) = ok bytes

pub read-ok :
    (kernel : SysRead) (n : ℕ) (bytes : Bytes)
    → kernel.answer n ≡ some bytes
    → read kernel n ≡ ok bytes
unfolding read
read-ok kernel n bytes e = rw (e, read) refl

pub write-ok :
    (kernel : SysWrite) (bytes : Bytes) (n : ℕ)
    → kernel.answer bytes ≡ some n
    → write kernel bytes ≡ ok n
unfolding write
write-ok kernel bytes n e = rw (e, write) refl

-- A failing call is an `annotated_exception`.
pub read_fails :
    (kernel : SysRead) (n : ℕ) → kernel.answer n ≡ none → read kernel n ≡ fault annotated
unfolding read
read_fails kernel n e = rw (e, read) refl

pub write_fails :
    (kernel : SysWrite) (bytes : Bytes)
    → kernel.answer bytes ≡ none
    → write kernel bytes ≡ fault annotated
unfolding write
write_fails kernel bytes e = rw (e, write) refl
