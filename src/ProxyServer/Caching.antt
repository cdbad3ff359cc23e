-- ===== src/ProxyServer/Caching.antt =====
-- What the handlers of responses do to the pages of the cache.
use mathlib.Core.List.{lookup}
use mathlib.Core.Option
use proxi.Base.{
  ℕ, ◌≡◌, ◌≢◌, refl, sym, ◌∙◌, ap, List, [], ◌∷◌, Option, none, some, true, false, ◌||◌, ok,
  Returns, arith, Bool-cases, inl, inr,
}
use proxi.HeaderParser.Policy.{should_cache, to_url}
use proxi.ProxyServer.Actions.{is_code, handle_validation_response}
use proxi.ProxyServer.Kept.{Kept, send_server_response-Kept, reconnect-Kept, fast_transfer-Kept}
use proxi.ProxyServer.Pages.{same_url, save_cached, delete_cached, is_cached, get_cached}
use proxi.ProxyServer.Reaches.{Pages}
use proxi.ProxyServer.Transfers.{message_at, finish_transfer}
use proxi.ProxyServer.{ProxyServer, Os, ClientRequest, ServerResponse, max_cache_size}
use proxi.RawMessage.{RawMessage}
use proxi.SimpleCache
use proxi.SimpleCache.Fifo.{evict}
use proxi.SimpleCache.Links.{view}
use proxi.SimpleCache.Reads.{find-insert, find-erase, has-view, is_some}
use proxi.SimpleCache.{SimpleCache}
use proxi.Text.{Bytes}

-- The cache without the page of a url, and otherwise as it was.
abbrev pub Without :
    SimpleCache Bytes (List Bytes) → Bytes → SimpleCache Bytes (List Bytes) → Type 0
Without c url c' =
    (SimpleCache.has same_url c' url ≡ false)
    × ((other : Bytes)
        → other ≢ url
        → SimpleCache.find same_url c' other ≡ SimpleCache.find same_url c other)

delete_cached-Without :
    (rqst : ClientRequest) (s : ProxyServer)
    → Pages s.cache
    → Kept (λ c r. Without s.cache (to_url rqst.header) c) (delete_cached rqst.header s)
unfolding delete_cached
delete_cached-Without rqst s h =
    let (c', runs, none_left, _, others) =
      find-erase same_url max_cache_size s.cache (to_url rqst.header) h in
    rw runs (none_left, others)

-- A response to a validation, where the cache is well formed and the call returns: with code 200
-- or 304 it leaves the cache as it is; with any other code the page of the request is gone, and
-- every other page is read as before.
pub handle_validation_response_lem :
    (os : Os) (conn : ℕ) (rqst : ClientRequest) (cached resp : ServerResponse) (s : ProxyServer)
    → Pages s.cache
    → let code = resp.header.request_line.code in
      let valid = is_code code 200 || is_code code 304 in
      Returns
        (λ (s' : ProxyServer).
          (valid ≡ true → s'.cache ≡ s.cache)
          × (valid ≡ false → Without s.cache (to_url rqst.header) s'.cache))
        (handle_validation_response os conn rqst cached resp s)
unfolding handle_validation_response
handle_validation_response_lem os conn rqst cached resp s h =
    let code = resp.header.request_line.code in
    let same = send_server_response-Kept (λ c r. c ≡ s.cache) os conn rqst cached s refl in
    let gone = delete_cached-Without rqst s h in
    let Q = λ (c : SimpleCache Bytes (List Bytes)) (r : List RawMessage).
      Without s.cache (to_url rqst.header) c in
    elim (Bool-cases (is_code code 200 || is_code code 304)) [
      | inl e ↦ grind (arith, e, same)
      | inr e ↦ grind (arith, e, gone, reconnect-Kept Q os, fast_transfer-Kept Q os)
    ]

lookup-evict :
    (max_size : ℕ) (k : Bytes) (q : List (Bytes × List Bytes))
    → lookup same_url k q ≡ none
    → lookup same_url k (evict max_size q) ≡ none
unfolding evict lookup
lookup-evict max_size k [] h = ground arith
lookup-evict max_size k (e ∷ q) h = ground arith

lookup-none :
    (c : SimpleCache Bytes (List Bytes)) (k : Bytes)
    → SimpleCache.has same_url c k ≡ false
    → lookup same_url k (view c.values) ≡ none
lookup-none c k h = no_value (lookup same_url k (view c.values)) (sym (has-view same_url c k) ∙ h)
  where
    no_value : (o : Option (List Bytes)) → is_some o ≡ false → o ≡ none
    no_value none e = refl
    no_value (some a) e = cc

-- A page that is saved at a url that has none is there.
save_cached-there :
    (url : Bytes) (page : List Bytes) (s : ProxyServer)
    → Pages s.cache
    → SimpleCache.has same_url s.cache url ≡ false
    → Kept
        (λ c r.
          (SimpleCache.has same_url c url ≡ true) × (SimpleCache.find same_url c url ≡ ok page))
        (save_cached url page s)
unfolding save_cached
save_cached-there url page s h new =
    let (c', runs, there, found, _) =
      find-insert same_url max_cache_size s.cache url page (omega arith) h in
    let empty =
      lookup-evict max_cache_size url (view s.cache.values) (lookup-none s.cache url new) in
    rw runs (there, found ∙ ap (λ (o : Option (List Bytes)). ok (Option.get_or o page)) empty)

-- A response that was read whole, where the cache is well formed and has no page of the request,
-- and the call returns: if it may be cached, its parts are the page of the request then; if not,
-- the cache stays as it is.
pub finish_transfer_lem :
    (os : Os) (conn i : ℕ) (rqst : ClientRequest) (m : ServerResponse) (s : ProxyServer)
    → Pages s.cache
    → is_cached rqst.header s ≡ false
    → message_at i s.responses ≡ ok m
    → Returns
        (λ (s' : ProxyServer).
          (should_cache m.header ≡ true
            → (is_cached rqst.header s' ≡ true) × (get_cached rqst.header s' ≡ ok m.cache))
          × (should_cache m.header ≡ false → s'.cache ≡ s.cache))
        (finish_transfer os conn rqst i s)
unfolding finish_transfer is_cached get_cached
finish_transfer_lem os conn i rqst m s h new e =
    let url = to_url rqst.header in
    let there = save_cached-there url m.cache s h new in
    elim (Bool-cases (should_cache m.header)) [
      | inl y ↦ grind (
        arith,
        e,
        y,
        there,
        send_server_response-Kept
            (λ c r.
              (SimpleCache.has same_url c url ≡ true)
              × (SimpleCache.find same_url c url ≡ ok m.cache))
            os,
      )
      | inr n ↦
          grind (arith, e, n, send_server_response-Kept (λ c r. c ≡ s.cache) os conn rqst m s refl)
    ]
