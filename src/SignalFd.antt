-- ===== src/SignalFd.antt =====
-- `signal_fd` of proxy/util/signal_fd.h and signal_fd.cpp, with the flags of <sys/signalfd.h>. The
-- signals of the mask are blocked by the same call.
use Prim.Native.Nat.{bit_or}
use proxi.Base.{ℕ, List, [], ◌∷◌, Option, Outcome}
use proxi.SocketWrap.{o_nonblock, o_cloexec, checked}

-- `enum fd_mode`
pub data FdMode : Type 0 where
  nonblock cloexec simple : FdMode

unfoldable pub add_mode : ℕ → FdMode → ℕ
add_mode res nonblock = bit_or res o_nonblock
add_mode res cloexec = bit_or res o_cloexec
add_mode res simple = bit_or res 0

unfoldable pub value_from : ℕ → List FdMode → ℕ
value_from res [] = res
value_from res (m ∷ mode) = value_from (add_mode res m) mode

unfoldable pub value_of : List FdMode → ℕ
value_of mode = value_from 0 mode

-- the constructor, over `signalfd(2)` at the signals of the mask
unfoldable pub create : (List ℕ → ℕ → Option ℕ) → List ℕ → List FdMode → Outcome ℕ
create signalfd handle mode = checked (signalfd handle (value_of mode))
