-- ===== src/TimerFd.antt =====
-- `timer_fd` of proxy/epoll_queue/timer_fd.h and timer_fd.cpp, with the flags of <sys/timerfd.h>.
use Prim.Native.Nat.{bit_or}
use proxi.Base.{ℕ, List, [], ◌∷◌, Option, Bool, Outcome}
use proxi.SocketWrap.{o_nonblock, o_cloexec, checked, succeeds}

-- `enum clock_mode` and `enum fd_mode`
pub data ClockMode : Type 0 where
  realtime monotonic : ClockMode

pub data FdMode : Type 0 where
  nonblock cloexec simple : FdMode

-- `CLOCK_MONOTONIC` and `CLOCK_REALTIME`
unfoldable pub clock : ClockMode → ℕ
clock monotonic = 1
clock realtime = 0

unfoldable pub add_mode : ℕ → FdMode → ℕ
add_mode res nonblock = bit_or res o_nonblock
add_mode res cloexec = bit_or res o_cloexec
add_mode res simple = bit_or res 0

unfoldable pub value_from : ℕ → List FdMode → ℕ
value_from res [] = res
value_from res (m ∷ mode) = value_from (add_mode res m) mode

unfoldable pub value_of : List FdMode → ℕ
value_of mode = value_from 0 mode

-- the constructor, over `timerfd_create(2)`
unfoldable pub create : (ℕ → ℕ → Option ℕ) → ClockMode → List FdMode → Outcome ℕ
create timerfd_create cmode mode = checked (timerfd_create (clock cmode) (value_of mode))

-- `set_interval`, over `timerfd_settime(2)` at the seconds to the first time and from then on
unfoldable pub set_interval : (ℕ → ℕ → ℕ → Bool) → ℕ → ℕ → ℕ → Outcome (Unit {0})
set_interval settime fd interval_sec start_after_sec =
    succeeds (settime fd start_after_sec interval_sec)
