-- ===== src/EventFd.antt =====
-- `event_fd` of proxy/util/event_fd.h and event_fd.cpp, with the flags of <sys/eventfd.h>.
use Prim.Native.Nat.{bit_or}
use proxi.Base.{ℕ, List, [], ◌∷◌, Option, Outcome}
use proxi.SocketWrap.{o_nonblock, o_cloexec, checked}

-- `enum fd_mode`
pub data FdMode : Type 0 where
  nonblock cloexec semaphore simple : FdMode

abbrev pub efd_semaphore : ℕ
efd_semaphore = 1

unfoldable pub add_mode : ℕ → FdMode → ℕ
add_mode res nonblock = bit_or res o_nonblock
add_mode res cloexec = bit_or res o_cloexec
add_mode res semaphore = bit_or res efd_semaphore
add_mode res simple = bit_or res 0

unfoldable pub value_from : ℕ → List FdMode → ℕ
value_from res [] = res
value_from res (m ∷ mode) = value_from (add_mode res m) mode

unfoldable pub value_of : List FdMode → ℕ
value_of mode = value_from 0 mode

-- the constructor, over `eventfd(2)`
unfoldable pub create : (ℕ → ℕ → Option ℕ) → ℕ → List FdMode → Outcome ℕ
create eventfd initial mode = checked (eventfd initial (value_of mode))
