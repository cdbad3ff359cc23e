-- ===== src/Resolver/Serves.antt =====
-- What a thread of the resolver that is left alone does with the queries in the queue.

use proxi.Base.{
  ℕ, ◌≡◌, refl, sym, subst, ◌∙◌, ap, List, [], ◌∷◌, ◌++◌, some, false, Outcome, ok, fault, ◌>>=◌,
  inl, inr, Outcome-cases, append_assoc, append-nil,
}
use proxi.FileDescriptor.{write}
use proxi.Resolver.{
  InQuery, ResolvedIp, Resolver, System, Thread, at_head, looks_up, answers, notifies, step,
  split_host, cache_size, one_event,
}
use proxi.SimpleCache.{SimpleCache}
use proxi.SimpleCache.Links.{view}
use proxi.SimpleCache.Refines.{IsValid}
use proxi.Text.Numbers.{stoi}
use proxi.Text.{Bytes}
use proxi.Resolver.Reference.{
  Known, look_up, reply, serve_all, Leads, here, goes, fails, takes, answered, answer_with, finds,
}

module _ (system : System) where
  -- One turn of the loop: back at its head with an answer, or the end of the program.
  abbrev Turn : Resolver → List InQuery → Outcome (ResolvedIp × Known) → Type 0
  Turn r rest (fault x) = Leads system (r, at_head) (fault x)
  Turn r rest (ok (answer, known)) =
      (c : SimpleCache Bytes (List ℕ)) × IsValid cache_size c
      × (view c.values ≡ known)
      × ((o : Outcome (Resolver × Thread))
          → Leads system
              (answer_with system (record r { in_queue = rest; cache = c }) answer, at_head) o
          → Leads system (r, at_head) o)

  -- What the thread needs of the notifier.
  abbrev pub Notifies : Type 0
  Notifies = (fd : ℕ) → (n : ℕ) × ((system.kernel fd).answer one_event ≡ some n)

  turns :
      (r : Resolver) (q : InQuery) (rest : List InQuery)
      → Notifies
      → r.should_stop ≡ false
      → r.in_queue ≡ q ∷ rest
      → IsValid cache_size r.cache
      → Turn r rest (reply system (view r.cache.values) q)
  unfolding step write
  turns r q rest writes on e valid =
      let r1 = record r { in_queue = rest } in
      elim (Outcome-cases (split_host q.host)) [
        | inr (x, bad) ↦ rw bad (
            takes system r q rest (fault x) on e
              (fails system r1 (looks_up q) x (rw (step, bad) refl)))
        | inl ((host, port), good) ↦
            let (c, valid', seen, from) = finds system r1 q host port good valid in
            let found = look_up system (view r.cache.values) host port in
            let r2 = record r1 { cache = c } in
            elim (Outcome-cases (stoi port)) [
              | inr (x, bad) ↦
                  rw (good, bad)
                    (takes system r q rest (fault x) on e (
                      from (fault x)
                        (fails system r2 (answers q port found.0) x (rw (step, bad) refl))))
              | inl (n, number) ↦
                  let answer = answered system q n found.0 in
                  let (written, told) = writes q.notifier in
                  rw (good, number)
                    (
                      c,
                      valid',
                      seen,
                      λ o l. takes system r q rest o on e (
                          from o (
                            goes system r2 (answers q port found.0)
                              (answer_with system r2 answer, notifies q.notifier) o
                              (rw (step, number) refl)
                              (goes system (answer_with system r2 answer) (notifies q.notifier)
                                (answer_with system r2 answer, at_head) o
                                (rw (step, write, told) refl) l))),
                    )
            ]
      ]

  -- What the thread leaves, against what the reference says.
  abbrev pub Agrees :
      Resolver → Outcome (List ResolvedIp × Known) → Outcome (Resolver × Thread) → Type 0
  Agrees r (ok (ips, known)) (ok (r', t)) =
      (t ≡ at_head)
      × (r'.in_queue ≡ [])
      × (r'.out_queue ≡ r.out_queue ++ ips)
      × IsValid cache_size r'.cache
      × (view r'.cache.values ≡ known)
  Agrees r (fault x) (fault y) = x ≡ y
  Agrees r _ _ = ⊥

  Agrees-answer_with :
      (r r' : Resolver) (answer : ResolvedIp) (s : Outcome (List ResolvedIp × Known))
      (o : Outcome (Resolver × Thread))
      → r'.out_queue ≡ r.out_queue ++ answer ∷ []
      → Agrees r' s o
      → Agrees r (s >>= λ y. ok (answer ∷ y.0, y.1)) o
  Agrees-answer_with r r' answer (ok (ips, known)) (ok (r'', t)) e (h, i, out, v, k) =
      (h, i, out ∙ ap (λ l. l ++ ips) e ∙ append_assoc r.out_queue (answer ∷ []) ips, v, k)
  Agrees-answer_with r r' answer (fault x) (fault y) e h = h
  Agrees-answer_with r r' answer (ok (ips, known)) (fault y) e h = elim h [ ]
  Agrees-answer_with r r' answer (fault x) (ok _) e h = elim h [ ]

  -- The state behind the queries `l`.
  abbrev Served : Resolver → Outcome (List ResolvedIp × Known) → Type 0
  Served r s = (o : Outcome (Resolver × Thread)) × Leads system (r, at_head) o × Agrees r s o

  serves_next :
      (r : Resolver) (l : List InQuery) (s : Outcome (ResolvedIp × Known))
      → r.should_stop ≡ false
      → Turn r l s
      → ((r' : Resolver)
          → r'.should_stop ≡ false
          → r'.in_queue ≡ l
          → IsValid cache_size r'.cache
          → Served r' (serve_all system (view r'.cache.values) l))
      → Served r (s >>= λ x. serve_all system x.1 l >>= λ y. ok (x.0 ∷ y.0, y.1))
  serves_next r l (fault x) on t rest = (fault x, t, refl)
  serves_next r l (ok (answer, known)) on (c, valid, seen, from) rest =
      let r' = answer_with system (record r { in_queue = l; cache = c }) answer in
      let (o, leads, agrees) = rest r' on refl valid in
      let agrees' = subst (λ k. Agrees r' (serve_all system k l) o) seen agrees in
      (o, from o leads, Agrees-answer_with r r' answer (serve_all system known l) o refl agrees')

  serves_from :
      (l : List InQuery) (r : Resolver)
      → Notifies
      → r.should_stop ≡ false
      → r.in_queue ≡ l
      → IsValid cache_size r.cache
      → Served r (serve_all system (view r.cache.values) l)
  serves_from [] r writes on e valid = (
    ok (r, at_head),
    here system (r, at_head),
    (refl, e, sym (append-nil r.out_queue), valid, refl),
  )
  serves_from (q ∷ l) r writes on e valid =
      serves_next r l (reply system (view r.cache.values) q) on (turns r q l writes on e valid)
        (λ r' on' e' valid'. serves_from l r' writes on' e' valid')

  -- A resolver that was not stopped, with a well-formed cache, where the notifier takes what is
  -- written: left alone, a thread at the head of its loop comes, after a number of steps, to what
  -- the reference says of the queries in the queue. It is back at the head with no query left,
  -- the answers stand behind those that waited, in the order of the queries, and the cache is well
  -- formed and holds the addresses that the reference knows; or the program ends by the exception
  -- of the first query whose port cannot be read.
  pub steps-serve_all :
      (r : Resolver)
      → Notifies
      → r.should_stop ≡ false
      → IsValid cache_size r.cache
      → (o : Outcome (Resolver × Thread)) × Leads system (r, at_head) o
        × Agrees r (serve_all system (view r.cache.values) r.in_queue) o
  steps-serve_all r writes on valid = serves_from r.in_queue r writes on refl valid
