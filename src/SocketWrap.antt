-- ===== src/SocketWrap.antt =====
-- `socket_wrap` of proxy/util/socket_wrap.h and socket_wrap.cpp over the calls of the system: what
-- an object holds is its descriptor, and each failing call is an `annotated_exception`. The flags
-- are those that <fcntl.h> and <sys/socket.h> document for Linux.
use Prim.Native.Nat.{bit_or}
use proxi.Base.{
  ℕ, List, [], ◌∷◌, Option, none, some, Bool, Outcome, ok, fault, annotated, if◌then◌else◌, ◌==◌,
}
use proxi.Text.Numbers.{ℤ, pos, negsuc}

-- `enum socket_mode`
pub data SocketMode : Type 0 where
  nonblock cloexec simple : SocketMode

abbrev pub o_nonblock : ℕ
o_nonblock = 2048

abbrev pub o_cloexec : ℕ
o_cloexec = 524288

abbrev pub sock_stream : ℕ
sock_stream = 1

-- The system: `none` and `false` are -1. `connect` takes an address and a port, `listen` a length.
pub record Sockets : Type 0 where
  pub socket : ℕ → Option ℕ
  pub accept4 : ℕ → ℕ → Option ℕ
  pub bind : ℕ → ℕ → Bool
  pub connect : ℕ → ℕ → ℕ → Bool
  pub listen : ℕ → ℤ → Bool
  pub getsockopt : ℕ → ℕ → Option ℕ
  pub htons : ℕ → ℕ
  pub somaxconn : ℤ

-- what a call gives, or the exception
unfoldable pub checked : Option ℕ → Outcome ℕ
checked none = fault annotated
checked (some n) = ok n

unfoldable pub succeeds : Bool → Outcome (Unit {0})
succeeds done = if done then ok tt else fault annotated

-- The `switch` of `value_of`, and its loop.
unfoldable pub add_mode : ℕ → SocketMode → ℕ
add_mode mode simple = bit_or mode 0
add_mode mode nonblock = bit_or mode o_nonblock
add_mode mode cloexec = bit_or mode o_cloexec

unfoldable pub value_from : ℕ → List SocketMode → ℕ
value_from mode [] = mode
value_from mode (m ∷ modes) = value_from (add_mode mode m) modes

unfoldable pub value_of : List SocketMode → ℕ
value_of modes = value_from 0 modes

module _ (sys : Sockets) where
  -- the constructor
  unfoldable pub create : List SocketMode → Outcome ℕ
  create mode = checked (sys.socket (bit_or sock_stream (value_of mode)))

  unfoldable pub accept : ℕ → List SocketMode → Outcome ℕ
  accept fd mode = checked (sys.accept4 fd (value_of mode))

  unfoldable pub bind : ℕ → ℕ → Outcome (Unit {0})
  bind fd port = succeeds (sys.bind fd (sys.htons port))

  unfoldable pub connect : ℕ → ℕ × ℕ → Outcome (Unit {0})
  connect fd address = succeeds (sys.connect fd address.0 address.1)

  -- A length of -1 stands for the greatest.
  unfoldable pub queue_length : ℤ → ℤ
  queue_length (pos n) = pos n
  queue_length (negsuc n) = if n == 0 then sys.somaxconn else negsuc n

  unfoldable pub listen : ℕ → ℤ → Outcome (Unit {0})
  listen fd max_queue_size = succeeds (sys.listen fd (queue_length max_queue_size))

  unfoldable pub get_option : ℕ → ℕ → Outcome ℕ
  get_option fd name = checked (sys.getsockopt fd name)
