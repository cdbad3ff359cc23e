-- ===== src/Tests/Resolvers.antt =====
-- The results on the resolver; of its threads: one query is handed in, a thread takes it, an answer
-- is fetched; and a thread that serves three queries, of which two have the same host.
use proxi.Base.{ℕ, [], ◌∷◌, some, false, ◌≡◌, ◌+◌, refl, Bool, Outcome, ◌==◌, ◌≤◌, length, arith}
use proxi.Resolver.{
  Extra, InQuery, ResolvedIp, Resolver, System, at_take, looks_up, resolve_host, get_ip, step,
  Thread, at_head,
}
use proxi.Resolver.Order.{Runs, Runs-count, count_all, count_extras}
use proxi.Resolver.Reference.{Leads, serve_all}
use proxi.Resolver.Serves.{Agrees, steps-serve_all}
use proxi.SimpleCache.{empty}
use proxi.SimpleCache.Links.{view}
use proxi.SimpleCache.Reads.{empty-IsValid}
use proxi.Text.{Bytes, codes}

all_of : (bytes : Bytes) (n : ℕ) → some (length bytes) ≡ some n → n ≤ length bytes
all_of bytes n e = let same : length bytes ≡ n = cc in omega (arith, same)

abbrev system : System
system = record {
  getaddrinfo = λ host port. some (1 ∷ []);
  htons = λ n. n;
  kernel = λ fd. record {
    answer = λ bytes. some (length bytes);
    at_most = λ bytes n e. all_of bytes n e;
  };
}

abbrev asked_by : ℕ → Extra
asked_by socket = record { socket = socket; host = codes "a.org" }

abbrev query : InQuery
query = record { host = codes "a.org"; notifier = 3; extra = asked_by 7 }

abbrev answer : ResolvedIp
answer = record { ips = 1 ∷ []; port = 80; extra = asked_by 8 }

-- One answer waits, nothing is asked.
abbrev before : Resolver
unfolding empty
before = record { in_queue = []; out_queue = answer ∷ []; cache = empty; should_stop = false }

abbrev after : Resolver
after = record before { out_queue = [] }

abbrev picks_seven : Extra → Bool
picks_seven x = x.socket == 7

Runs-count_example :
    count_extras picks_seven (asked_by 7 ∷ []) + count_all picks_seven (before, at_take ∷ [])
    ≡ count_extras picks_seven (asked_by 8 ∷ [])
      + count_all picks_seven (after, looks_up query ∷ [])
unfolding step resolve_host get_ip empty
Runs-count_example = Runs-count system picks_seven (
    Runs.fetches before after answer
      (Runs.works (resolve_host before query) before at_take (looks_up query) [] []
        (Runs.asks before query Runs.start) refl)
      refl)

-- Two clients ask for the same host, a third one for a port.
abbrev asked : Resolver
unfolding empty
asked = record {
  in_queue =
      query
      ∷ record { host = codes "a.org"; notifier = 3; extra = asked_by 8 }
      ∷ record { host = codes "b.org:81"; notifier = 3; extra = asked_by 9 }
      ∷ [];
  out_queue = answer ∷ [];
  cache = empty;
  should_stop = false;
}

steps-serve_all_example :
    (o : Outcome (Resolver × Thread)) × Leads system (asked, at_head) o
    × Agrees system asked (serve_all system (view asked.cache.values) asked.in_queue) o
unfolding empty
steps-serve_all_example = steps-serve_all system asked (λ fd. (8, refl)) refl (empty-IsValid 500)
