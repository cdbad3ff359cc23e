-- ===== src/Tests/Kernels.antt =====
-- Sockets for the tests: what they give and take.
use proxi.Base.{ℕ, ◌≤◌, ◌≡◌, some, arith, ap, take, length, length-take}
use proxi.FileDescriptor.{SysRead, SysWrite}
use proxi.Text.{Bytes}

pub took : (n : ℕ) (bytes got : Bytes) → some (take n bytes) ≡ some got → length got ≤ n
took n bytes got e =
    let same : take n bytes ≡ got = cc in omega (arith, ap length same, length-take n bytes)

pub fewer : (bytes : Bytes) (n : ℕ) → some (length (take 3 bytes)) ≡ some n → n ≤ length bytes
fewer bytes n e =
    let same : length (take 3 bytes) ≡ n = cc in omega (arith, same, length-take 3 bytes)

-- A socket with these bytes to read, and one that takes three bytes at most.
abbrev pub gives : Bytes → SysRead
gives bytes = record { answer = λ n. some (take n bytes); at_most = λ n got e. took n bytes got e }

abbrev pub takes_three : SysWrite
takes_three = record {
  answer = λ bytes. some (length (take 3 bytes));
  at_most = λ bytes n e. fewer bytes n e;
}
