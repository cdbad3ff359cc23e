-- ===== src/Resolver.antt =====
-- proxy/request_processing/resolver.h and resolver.cpp: threads that take hosts from one queue
-- and put addresses into another. A step of a thread is what `main_loop` does between two places
-- where another thread may run: what it does under one lock, or one call of `getaddrinfo`.
-- `getaddrinfo`, `htons` and `write(2)` are parameters.
pub mod Order
pub mod Hosts
pub mod Reference
pub mod Serves
use native.Mathlib.Decide.{ℕ_discrete}
use mathlib.Core.List.{List-discrete}
use proxi.Base.{
  ℕ, List, [], ◌∷◌, ◌++◌, Option, none, some, Bool, true, false, Outcome, ok, fault, undefined,
  ◌>>=◌, ◌==◌, if◌then◌else◌, ◌%◌, ◌^◌, ◌-◌,
}
use proxi.FileDescriptor.{SysWrite, write}
use proxi.SimpleCache
use proxi.SimpleCache.{SimpleCache}
use proxi.Text.Numbers.{ℤ, pos, negsuc, stoi}
use proxi.Text.{Bytes, codes, npos, add64, find, substr}

-- `resolver_extra`
pub record Extra : Type 0 where
  pub socket : ℕ
  pub host : Bytes

pub record ResolvedIp : Type 0 where
  pub ips : List ℕ
  pub port : ℕ
  pub extra : Extra

-- The copy constructor does not set `port`: it is what the memory held.
unfoldable pub copy : ℕ → ResolvedIp → ResolvedIp
copy memory other = record { ips = other.ips; port = memory; extra = other.extra }

unfoldable pub has_ip : ResolvedIp → Bool
has_ip r = elim r.ips [ [] ↦ false | ip ∷ ips ↦ true ]

-- `get_ip`; `adress_t()` is all zeros
unfoldable pub get_address : ResolvedIp → ℕ × ℕ
get_address r = elim r.ips [ [] ↦ (0, 0) | ip ∷ ips ↦ (ip, r.port) ]

unfoldable pub next_ip : ResolvedIp → ResolvedIp
next_ip r = elim r.ips [ [] ↦ r | ip ∷ ips ↦ record r { ips = ips } ]

-- `in_query`
pub record InQuery : Type 0 where
  pub host : Bytes
  pub notifier : ℕ
  pub extra : Extra

abbrev pub cache_size : ℕ
cache_size = 500

pub record Resolver : Type 0 where
  pub in_queue : List InQuery
  pub out_queue : List ResolvedIp
  pub cache : SimpleCache Bytes (List ℕ)
  pub should_stop : Bool

abbrev pub same_host : Discrete Bytes
same_host = List-discrete ℕ_discrete

unfoldable pub stop : Resolver → Resolver
stop r = record r { should_stop = true }

unfoldable pub resolve_host : Resolver → InQuery → Resolver
resolve_host r query = record r { in_queue = r.in_queue ++ query ∷ [] }

-- `get_ip`; `front` of an empty queue is undefined
unfoldable pub get_ip : Resolver → Outcome (ResolvedIp × Resolver)
get_ip r = elim r.out_queue [
  | [] ↦ fault undefined
  | res ∷ rest ↦ ok (res, record r { out_queue = rest })
]

unfoldable pub find_cached : Resolver → Bytes → Outcome (List ℕ)
find_cached r host =
    if SimpleCache.has same_host r.cache host
    then SimpleCache.find same_host r.cache host
    else ok []

unfoldable pub cache_ip : Resolver → Bytes → List ℕ → Outcome Resolver
cache_ip r host ips = do
  cache ← SimpleCache.insert same_host cache_size r.cache host ips
  ok (record r { cache = cache })

-- "host:port", or a host alone, for port 80
unfoldable pub split_host : Bytes → Outcome (Bytes × Bytes)
split_host host =
    let colon = find host b':' 0 in
    elim (colon == npos) [
      | true ↦ ok (host, codes "80")
      | false ↦ do
        name ← substr host 0 colon
        port ← substr host (add64 colon 1) npos
        ok (name, port)
    ]

-- the conversion of an `int` to `uint16_t`
unfoldable pub to_port : ℤ → ℕ
to_port (pos n) = n % 2 ^ 16
to_port (negsuc n) = 2 ^ 16 - 1 - n % 2 ^ 16

-- What the program calls of the system; `none` is an error of `getaddrinfo`.
pub record System : Type 0 where
  pub getaddrinfo : Bytes → Bytes → Option (List ℕ)
  pub htons : ℕ → ℕ
  pub kernel : ℕ → SysWrite

-- Where a thread stands in `main_loop`, with its local variables.
pub data Thread : Type 0 where
  -- the head of the loop, the first lock, the second lock
  at_head at_wait at_take : Thread
  -- behind the second lock
  looks_up : InQuery → Thread
  -- in `resolve_ip`, in front of `getaddrinfo` and of `cache_ip`
  resolves : InQuery → Bytes → Bytes → Thread
  caches : InQuery → Bytes → Bytes → List ℕ → Thread
  -- in front of the lock of `out_queue`, and of the notification
  answers : InQuery → Bytes → List ℕ → Thread
  notifies : ℕ → Thread
  -- behind the loop
  stopped : Thread

-- The constructor, with its four threads at the beginning of `main_loop`.
abbrev pub create : Resolver × List Thread
create = (
  record { in_queue = []; out_queue = []; cache = SimpleCache.empty; should_stop = false },
  at_head ∷ at_head ∷ at_head ∷ at_head ∷ [],
)

-- Eight bytes of the number 1.
abbrev pub one_event : Bytes
one_event = 1 ∷ 0 ∷ 0 ∷ 0 ∷ 0 ∷ 0 ∷ 0 ∷ 0 ∷ []

module _ (system : System) where
  -- One step of a thread. An exception here is caught by nobody: the program ends.
  unfoldable pub step : Resolver → Thread → Outcome (Resolver × Thread)
  step r at_head = ok (r, if r.should_stop then stopped else at_wait)
  step r at_wait = ok (r, elim r.in_queue [ [] ↦ at_head | q ∷ rest ↦ at_take ])
  step r at_take = elim r.in_queue [
    | [] ↦ ok (r, at_head)
    | q ∷ rest ↦ ok (record r { in_queue = rest }, looks_up q)
  ]
  step r (looks_up q) = do
    (host, port) ← split_host q.host
    ips ← find_cached r host
    ok (r, elim ips [ [] ↦ resolves q host port | ip ∷ rest ↦ answers q port (ip ∷ rest) ])
  step r (resolves q host port) = elim (system.getaddrinfo host port) [
    | none ↦ ok (r, answers q port [])
    | some ips ↦ ok (r, caches q host port ips)
  ]
  step r (caches q host port ips) = do r' ← cache_ip r host ips; ok (r', answers q port ips)
  step r (answers q port ips) = do
    n ← stoi port
    let tmp : ResolvedIp = record { ips = ips; port = system.htons (to_port n); extra = q.extra }
    ok (record r { out_queue = r.out_queue ++ tmp ∷ [] }, notifies q.notifier)
  step r (notifies notifier) = do n ← write (system.kernel notifier) one_event; ok (r, at_head)
  step r stopped = ok (r, stopped)
