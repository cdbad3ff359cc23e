-- ===== src/Resolver/Order.antt =====
-- The queries that the resolver and its threads hold, along any interleaving of their steps.
use proxi.Base.{
  Returns, Returns-bind, Returns-any, ℕ, ◌+◌, ◌≡◌, refl, ap, List, [], ◌∷◌, ◌++◌, Bool, true, false,
  Outcome, ok, fault, ◌>>=◌, arith, subst, inl, inr, ◌⊎◌, Bool-cases, Option-cases,
}
use proxi.FileDescriptor.{write}
use proxi.Resolver.{
  Extra, InQuery, ResolvedIp, Resolver, System, Thread, at_head, at_wait, at_take, looks_up,
  resolves, caches, answers, notifies, stopped, step, split_host, find_cached, cache_ip,
  resolve_host, get_ip, one_event, to_port, same_host, cache_size,
}
use proxi.SimpleCache
use proxi.SimpleCache.{SimpleCache}
use proxi.Text.Numbers.{stoi}
use proxi.Text.{Bytes}

abbrev pub one_if : Bool → ℕ
one_if true = 1
one_if false = 0

module _ (p : Extra → Bool) where
  -- How many of the queries that `p` picks stand in a queue, are held by a thread, are answered.
  abbrev pub count_in : List InQuery → ℕ
  count_in [] = 0
  count_in (q ∷ l) = one_if (p q.extra) + count_in l

  abbrev pub count_out : List ResolvedIp → ℕ
  count_out [] = 0
  count_out (r ∷ l) = one_if (p r.extra) + count_out l

  abbrev pub held : Thread → ℕ
  held (looks_up q) = one_if (p q.extra)
  held (resolves q _ _) = one_if (p q.extra)
  held (caches q _ _ _) = one_if (p q.extra)
  held (answers q _ _) = one_if (p q.extra)
  held _ = 0

  abbrev pub count_held : List Thread → ℕ
  count_held [] = 0
  count_held (t ∷ l) = held t + count_held l

  abbrev pub queued : Resolver → ℕ
  queued r = count_in r.in_queue + count_out r.out_queue

  abbrev pub count_extras : List Extra → ℕ
  count_extras [] = 0
  count_extras (x ∷ l) = one_if (p x) + count_extras l

  -- All queries that the resolver and its threads have.
  abbrev pub count_all : Resolver × List Thread → ℕ
  count_all s = queued s.0 + count_held s.1

  count_held-mid :
      (front back : List Thread) (t : Thread)
      → count_held (front ++ t ∷ back) ≡ count_held front + held t + count_held back
  count_held-mid [] back t = omega arith
  count_held-mid (u ∷ front) back t = omega (arith, count_held-mid front back t)

  pub count_in-append : (a b : List InQuery) → count_in (a ++ b) ≡ count_in a + count_in b
  count_in-append [] b = omega arith
  count_in-append (q ∷ a) b = omega (arith, count_in-append a b)

  pub count_out-append : (a b : List ResolvedIp) → count_out (a ++ b) ≡ count_out a + count_out b
  count_out-append [] b = omega arith
  count_out-append (r ∷ a) b = omega (arith, count_out-append a b)

with_cache-queued :
    (p : Extra → Bool) (r : Resolver) (o : Outcome (SimpleCache Bytes (List ℕ)))
    → Returns (λ (r' : Resolver). queued p r' ≡ queued p r) (o >>= λ c. ok (record r { cache = c }))
with_cache-queued p r (ok c) = refl
with_cache-queued p r (fault x) = tt

cache_ip-queued :
    (p : Extra → Bool) (r : Resolver) (host : Bytes) (ips : List ℕ)
    → Returns (λ (r' : Resolver). queued p r' ≡ queued p r) (cache_ip r host ips)
unfolding cache_ip
cache_ip-queued p r host ips =
    with_cache-queued p r (SimpleCache.insert same_host cache_size r.cache host ips)

pub list_cases {ℓ} : {A : Type ℓ} (l : List A) → (l ≡ []) ⊎ ((a : A) × (r : List A) × (l ≡ a ∷ r))
list_cases [] = inl refl
list_cases (a ∷ r) = inr (a, r, refl)

module _ (system : System) (p : Extra → Bool) where
  -- The queries in the two queues, and the one that the thread holds.
  abbrev pub total : Resolver × Thread → ℕ
  total s = queued p s.0 + held p s.1

  step-total :
      (r : Resolver) (t : Thread) → Returns (λ s. total s ≡ queued p r + held p t) (step system r t)
  unfolding step
  step-total r at_head = elim (Bool-cases r.should_stop) [ inl e ↦ rw e refl | inr e ↦ rw e refl ]
  step-total r at_wait = elim (list_cases r.in_queue) [
    | inl e ↦ rw e refl
    | inr (q, rest, e) ↦ rw e refl
  ]
  step-total r at_take = elim (list_cases r.in_queue) [
    | inl e ↦ rw e refl
    | inr (q, rest, e) ↦ rw e (omega arith)
  ]
  step-total r (looks_up q) =
      Returns-bind (λ x. Unit {0}) _ (split_host q.host) _ (Returns-any _)
        (λ x h.
          Returns-bind (λ ips. Unit {0}) _ (find_cached r x.0) _ (Returns-any _)
            (λ ips h'. elim (list_cases ips) [ inl e ↦ rw e refl | inr (ip, rest, e) ↦ rw e refl ]))
  step-total r (resolves q host port) = elim (Option-cases (system.getaddrinfo host port)) [
    | inl e ↦ rw (step, e) refl
    | inr (ips, e) ↦ rw (step, e) refl
  ]
  step-total r (caches q host port ips) =
      Returns-bind (λ (r' : Resolver). queued p r' ≡ queued p r) _ (cache_ip r host ips) _
        (cache_ip-queued p r host ips) (λ r' h. ap (λ n. n + one_if (p q.extra)) h)
  step-total r (answers q port ips) =
      Returns-bind (λ n. Unit {0}) _ (stoi port) _ (Returns-any _)
        (λ n h. omega (
          arith,
          count_out-append p r.out_queue
              (record { ips = ips; port = system.htons (to_port n); extra = q.extra } ∷ []),
        ))
  step-total r (notifies notifier) =
      Returns-bind (λ n. Unit {0}) _ (write (system.kernel notifier) one_event) _ (Returns-any _)
        (λ n h. refl)
  step-total r stopped = refl

-- What the main thread and the resolver's threads can do, in any order: hand in a query, fetch an
-- answer, or make a step. `Runs system s asked got s'` lists the queries handed in and fetched.
pub data Runs (system : System)
    : Resolver × List Thread → List Extra → List Extra → Resolver × List Thread → Type 0 where
  start : {s : Resolver × List Thread} → Runs system s [] [] s
  asks :
      {s : Resolver × List Thread} {asked got : List Extra} {threads : List Thread} (r : Resolver)
      (q : InQuery)
      → Runs system s asked got (r, threads)
      → Runs system s (q.extra ∷ asked) got (resolve_host r q, threads)
  fetches :
      {s : Resolver × List Thread} {asked got : List Extra} {threads : List Thread}
      (r r' : Resolver) (ip : ResolvedIp)
      → Runs system s asked got (r, threads)
      → get_ip r ≡ ok (ip, r')
      → Runs system s asked (ip.extra ∷ got) (r', threads)
  works :
      {s : Resolver × List Thread} {asked got : List Extra} (r r' : Resolver) (t t' : Thread)
      (front back : List Thread)
      → Runs system s asked got (r, front ++ t ∷ back)
      → step system r t ≡ ok (r', t')
      → Runs system s asked got (r', front ++ t' ∷ back)

resolve_host-queued :
    (p : Extra → Bool) (r : Resolver) (q : InQuery)
    → queued p (resolve_host r q) ≡ one_if (p q.extra) + queued p r
unfolding resolve_host
resolve_host-queued p r q = omega (arith, count_in-append p r.in_queue (q ∷ []))

get_ip-queued :
    (p : Extra → Bool) (r : Resolver)
    → Returns
        (λ (x : ResolvedIp × Resolver). one_if (p x.0.extra) + queued p x.1 ≡ queued p r)
        (get_ip r)
unfolding get_ip
get_ip-queued p r = elim (list_cases r.out_queue) [
  | inl e ↦ rw e tt
  | inr (ip, rest, e) ↦ rw e (omega arith)
]

-- However the threads run, along steps that return: among the queries that any test picks
-- there are as many handed in, with those that the resolver had, as fetched, with those that
-- it still has. So none is lost, and none is answered twice.
pub Runs-count :
    (system : System) (p : Extra → Bool) {s s' : Resolver × List Thread} {asked got : List Extra}
    → Runs system s asked got s'
    → count_extras p asked + count_all p s ≡ count_extras p got + count_all p s'
Runs-count system p start = refl
Runs-count system p (asks r q runs) =
    omega (arith, Runs-count system p runs, resolve_host-queued p r q)
Runs-count system p (fetches r r' ip runs e) =
    let kept =
      subst
        (Returns (λ (x : ResolvedIp × Resolver). one_if (p x.0.extra) + queued p x.1 ≡ queued p r))
        e (get_ip-queued p r) in
    omega (arith, Runs-count system p runs, kept)
Runs-count system p (works r r' t t' front back runs e) =
    let kept =
      subst (Returns (λ s. total system p s ≡ queued p r + held p t)) e (step-total system p r t) in
    omega (
      arith,
      Runs-count system p runs,
      kept,
      count_held-mid p front back t,
      count_held-mid p front back t',
    )
