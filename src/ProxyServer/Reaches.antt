-- ===== src/ProxyServer/Reaches.antt =====
-- The states that the server reaches, whatever events come and whatever the system answers.

use proxi.Base.{ℕ, ◌≤◌, ◌≡◌, List, ok, Returns, Yields, arith, subst}
use proxi.ProxyServer.Handlers.{handle, run}
use proxi.ProxyServer.Kept.Calls.{Keeps, free-Allowed}
use proxi.ProxyServer.Kept.Events.{run-Kept}
use proxi.ProxyServer.Pages.{same_url, save_cached}
use proxi.ProxyServer.{ProxyServer, Os, Handler, max_cache_size}
use proxi.Resolver.{Resolver}
use proxi.SimpleCache
use proxi.SimpleCache.Refines.{IsValid, insert-refines, erase-refines}
use proxi.SimpleCache.{SimpleCache, size}
use proxi.Text.{Bytes}

-- Calls of handlers that return. The threads of the resolver run between them, and change the
-- resolver alone, in whatever way.
pub data Reaches (s : ProxyServer) : ProxyServer → Type 0 where
  start : Reaches s s
  event :
      {s1 s2 : ProxyServer} (os : Os) (fd state : ℕ)
      → Reaches s s1
      → handle os fd state s1 ≡ ok s2
      → Reaches s s2
  threads :
      {s1 : ProxyServer} (r : Resolver) → Reaches s s1 → Reaches s (record s1 { resolver = r })

abbrev pub Pages : SimpleCache Bytes (List Bytes) → Type 0
Pages = IsValid max_cache_size

pub insert-Pages :
    (c : SimpleCache Bytes (List Bytes)) (k : Bytes) (v : List Bytes)
    → Pages c
    → Returns Pages (SimpleCache.insert same_url max_cache_size c k v)
insert-Pages c k v h =
    let (c', runs, valid, seen) = insert-refines same_url max_cache_size c k v (omega arith) h in
    rw runs valid

pub erase-Pages :
    (c : SimpleCache Bytes (List Bytes)) (k : Bytes)
    → Pages c
    → Returns Pages (SimpleCache.erase same_url c k)
erase-Pages c k h =
    let (c', runs, valid, seen) = erase-refines same_url max_cache_size c k h in rw runs valid

Pages-Keeps : Keeps (λ c r. Pages c) (λ i. Unit {0})
Pages-Keeps = record {
  insert_keeps = λ c r k m may. insert-Pages c k m.cache;
  erase_keeps = λ c r. erase-Pages c;
  append_keeps = λ c r l p. p;
  put_keeps = λ c r i m free p. p;
}

pub run-Pages :
    (os : Os) (h : Handler) (state : ℕ) (s : ProxyServer)
    → Pages s.cache
    → Returns (λ (s' : ProxyServer). Pages s'.cache) (run os h state s)
run-Pages os h state s p =
    run-Kept (λ c r. Pages c) (λ i. Unit {0}) Pages-Keeps os h state s
      (free-Allowed (λ i. Unit {0}) (λ i. tt) h) p

handle-Pages :
    (os : Os) (fd state : ℕ) (s : ProxyServer)
    → Pages s.cache
    → Returns (λ (s' : ProxyServer). Pages s'.cache) (handle os fd state s)
unfolding handle
handle-Pages os fd state s p = grind (arith, run-Pages os)

reached-Pages : {s s' : ProxyServer} → Pages s.cache → Reaches s s' → Pages s'.cache
reached-Pages h start = h
reached-Pages h (threads resolver r) = reached-Pages h r
reached-Pages h (event {s1 = s1} os fd state r e) =
    let kept = handle-Pages os fd state s1 (reached-Pages h r) in
    subst (Returns (λ (s : ProxyServer). Pages s.cache)) e kept

-- In every state that is reached from one with a well-formed cache of at most `max_cache_size`
-- pages, the cache is well formed and has at most so many pages, and saving any page in it returns
-- and leaves it so.
pub Reaches-Pages :
    {s s' : ProxyServer}
    → Pages s.cache
    → Reaches s s'
    → Pages s'.cache
      × (size s'.cache ≤ max_cache_size)
      × ((url : Bytes) (page : List Bytes)
          → Yields (λ (s'' : ProxyServer). Pages s''.cache) (save_cached url page s'))
unfolding save_cached
Reaches-Pages {s' = s'} h r =
    let kept = reached-Pages h r in
    (
      kept,
      kept.bounded,
      λ url page.
          let (c', runs, valid, seen) =
            insert-refines same_url max_cache_size s'.cache url page (omega arith) kept in
          rw runs valid,
    )
