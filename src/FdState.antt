-- ===== src/FdState.antt =====
-- `fd_state` of proxy/epoll_queue/fd_state.h and fd_state.cpp: the events of a descriptor as the
-- bits that `epoll` uses. The bits are those that <sys/epoll.h> documents for Linux.
pub mod Masks
pub mod Sets
use Prim.Native.Nat.{bit_and, bit_or, bit_xor}
use proxi.Base.{ℕ, List, [], ◌∷◌, Bool, not, ◌==◌}

-- `enum state`; `in_state` is `IN`
pub data State : Type 0 where
  in_state out_state wait_state error_state hup_state rdhup_state : State

abbrev pub epoll_in : ℕ
epoll_in = 0x001

abbrev pub epoll_out : ℕ
epoll_out = 0x004

abbrev pub epoll_err : ℕ
epoll_err = 0x008

abbrev pub epoll_hup : ℕ
epoll_hup = 0x010

abbrev pub epoll_rdhup : ℕ
epoll_rdhup = 0x2000

-- The `switch` of `value_of`: what one state adds.
unfoldable pub add_state : ℕ → State → ℕ
add_state res in_state = bit_or res epoll_in
add_state res out_state = bit_or res epoll_out
add_state res error_state = bit_or res epoll_err
add_state res hup_state = bit_or res epoll_hup
add_state res rdhup_state = bit_or res epoll_rdhup
add_state res wait_state = bit_or res 0

unfoldable pub value_from : ℕ → List State → ℕ
unfolding add_state
value_from res [] = res
value_from res (s ∷ st) = value_from (add_state res s) st

unfoldable pub value_of : List State → ℕ
unfolding value_from
value_of st = value_from 0 st

unfoldable pub ne : ℕ → ℕ → Bool
ne a b = not (a == b)

-- `first.is(second)`
unfoldable pub is : ℕ → ℕ → Bool
is first second = not (bit_and first second == 0)

unfoldable pub xor : ℕ → ℕ → ℕ
xor first second = bit_xor first second

unfoldable pub or : ℕ → ℕ → ℕ
or first second = bit_or first second
