-- ===== src/Resolver/Reference.antt =====
-- What the resolver answers, by a reference that knows no queues, locks or nodes, and where the
-- steps of a thread lead, up to the addresses of one query.
use mathlib.Core.List.{lookup}
use mathlib.Core.Option
use proxi.Base.{
  ℕ, zero, suc, ◌≡◌, refl, sym, subst, List, [], ◌∷◌, ◌++◌, none, some, false, Outcome, Fault, ok,
  fault, ◌>>=◌, arith, inl, inr, Option-cases,
}
use proxi.Resolver.Order.{list_cases}
use proxi.Resolver.{
  InQuery, ResolvedIp, Resolver, System, Thread, at_head, at_wait, at_take, looks_up, resolves,
  caches, answers, step, split_host, find_cached, cache_ip, to_port, same_host, cache_size,
}
use proxi.SimpleCache.{SimpleCache}
use proxi.SimpleCache.Fifo
use proxi.SimpleCache.Links.{view}
use proxi.SimpleCache.Reads.{has-view, find-view}
use proxi.SimpleCache.Refines.{IsValid, insert-refines}
use proxi.Text.Numbers.{ℤ, stoi}
use proxi.Text.{Bytes}

-- The addresses by host, the oldest first.
abbrev pub Known : Type 0
Known = List (Bytes × List ℕ)

module _ (system : System) where
  -- A host's addresses: those that are known, if there is one, and otherwise those that the system
  -- gives, which are kept; none, if it gives an error.
  unfoldable pub look_up : Known → Bytes → Bytes → List ℕ × Known
  look_up known host port = elim (Option.get_or (lookup same_host host known) []) [
    | ip ∷ ips ↦ (ip ∷ ips, known)
    | [] ↦ elim (system.getaddrinfo host port) [
      | none ↦ ([], known)
      | some ips ↦ (ips, Fifo.insert same_host cache_size host ips known)
    ]
  ]

  -- The answer to a query; a port that is no number ends the program.
  abbrev pub reply : Known → InQuery → Outcome (ResolvedIp × Known)
  reply known q = do
    (host, port) ← split_host q.host
    n ← stoi port
    let found = look_up known host port
    ok (record { ips = found.0; port = system.htons (to_port n); extra = q.extra }, found.1)

  abbrev pub serve_all : Known → List InQuery → Outcome (List ResolvedIp × Known)
  serve_all known [] = ok ([], known)
  serve_all known (q ∷ l) = do
    (answer, known') ← reply known q
    (rest, known'') ← serve_all known' l
    ok (answer ∷ rest, known'')

  -- A number of steps of one thread.
  unfoldable pub steps : ℕ → Resolver × Thread → Outcome (Resolver × Thread)
  steps zero s = ok s
  steps (suc n) (r, t) = step system r t >>= λ s. steps n s

  -- Some number of steps leads from a state to an outcome.
  abbrev pub Leads : Resolver × Thread → Outcome (Resolver × Thread) → Type 0
  Leads s o = (n : ℕ) × (steps n s ≡ o)

  pub here : (s : Resolver × Thread) → Leads s (ok s)
  unfolding steps
  here s = (0, refl)

  pub goes :
      (r : Resolver) (t : Thread) (s : Resolver × Thread) (o : Outcome (Resolver × Thread))
      → step system r t ≡ ok s
      → Leads s o
      → Leads (r, t) o
  unfolding steps
  goes r t s o e (n, l) = (suc n, rw e l)

  pub fails :
      (r : Resolver) (t : Thread) (x : Fault) → step system r t ≡ fault x → Leads (r, t) (fault x)
  unfolding steps
  fails r t x e = (1, rw e refl)

  -- From the head of the loop to the query behind the locks.
  pub takes :
      (r : Resolver) (q : InQuery) (rest : List InQuery) (o : Outcome (Resolver × Thread))
      → r.should_stop ≡ false
      → r.in_queue ≡ q ∷ rest
      → Leads (record r { in_queue = rest }, looks_up q) o
      → Leads (r, at_head) o
  unfolding step
  takes r q rest o on e l =
      goes r at_head (r, at_wait) o (rw on refl)
        (goes r at_wait (r, at_take) o (rw e refl)
          (goes r at_take (record r { in_queue = rest }, looks_up q) o (rw e refl) l))

  abbrev pub answered : InQuery → ℤ → List ℕ → ResolvedIp
  answered q n ips = record { ips = ips; port = system.htons (to_port n); extra = q.extra }

  abbrev pub answer_with : Resolver → ResolvedIp → Resolver
  answer_with r ip = record r { out_queue = r.out_queue ++ ip ∷ [] }

  find_cached_lem :
      (r : Resolver) (host : Bytes)
      → find_cached r host ≡ ok (Option.get_or (lookup same_host host (view r.cache.values)) [])
  unfolding find_cached
  find_cached_lem r host = elim (Option-cases (lookup same_host host (view r.cache.values))) [
    | inl e ↦ rw (find_cached, has-view same_host r.cache host, e) refl
    | inr (ips, e) ↦
        rw (find_cached, has-view same_host r.cache host, find-view same_host r.cache host, e) refl
  ]

  -- The cache behind a query, with what leads from in front of `answers`.
  abbrev pub Found : Resolver → InQuery → Bytes → Bytes → List ℕ × Known → Type 0
  Found r q host port found =
      (c : SimpleCache Bytes (List ℕ)) × IsValid cache_size c
      × (view c.values ≡ found.1)
      × ((o : Outcome (Resolver × Thread))
          → Leads (record r { cache = c }, answers q port found.0) o
          → Leads (r, looks_up q) o)

  -- The three ways from the look-up to the answer.
  pub finds :
      (r : Resolver) (q : InQuery) (host port : Bytes)
      → split_host q.host ≡ ok (host, port)
      → IsValid cache_size r.cache
      → Found r q host port (look_up (view r.cache.values) host port)
  unfolding step cache_ip look_up
  finds r q host port e valid =
      let known = view r.cache.values in
      let looks = find_cached_lem r host in
      elim (list_cases (Option.get_or (lookup same_host host known) [])) [
        | inr (ip, rest, there) ↦ subst (Found r q host port) (sym (rw (look_up, there) refl)) (
          r.cache,
          valid,
          refl,
          λ o.
              goes r (looks_up q) (r, answers q port (ip ∷ rest)) o
                (rw (step, e, looks, there) refl),
        )
        | inl unknown ↦ elim (Option-cases (system.getaddrinfo host port)) [
          | inl bad ↦ subst (Found r q host port) (sym (rw (look_up, unknown, bad) refl)) (
            r.cache,
            valid,
            refl,
            λ o l.
                goes r (looks_up q) (r, resolves q host port) o (rw (step, e, looks, unknown) refl)
                  (goes r (resolves q host port) (r, answers q port []) o (rw (step, bad) refl) l),
          )
          | inr (ips, good) ↦
              let (c, runs, valid', seen) =
                insert-refines same_host cache_size r.cache host ips (omega arith) valid in
              subst (Found r q host port) (sym (rw (look_up, unknown, good) refl)) (
                c,
                valid',
                seen,
                λ o l.
                    goes r (looks_up q) (r, resolves q host port) o
                      (rw (step, e, looks, unknown) refl)
                      (goes r (resolves q host port) (r, caches q host port ips) o
                        (rw (step, good) refl)
                        (goes r (caches q host port ips)
                          (record r { cache = c }, answers q port ips) o
                          (rw (step, cache_ip, runs) refl) l)),
              )
        ]
      ]
