-- ===== src/ProxyServer/Replays.antt =====
-- A response on its way through the cache of pages: from the server, into the cache, and out of it
-- for a later request.
use proxi.Base.{
  ℕ, ◌<◌, ◌^◌, ◌≡◌, refl, List, ◌∷◌, ◌++◌, true, false, ok, ◌>>=◌, Returns, Returns-each, Yields,
  All, subst, arith, le→leb,
}
use proxi.BufferedMessage
use proxi.BufferedMessage.Headers.{response_header}
use proxi.BufferedMessage.Parts.{pending, concat}
use proxi.BufferedMessage.{is_read, total}
use proxi.HeaderParser.Header
use proxi.HeaderParser.Header.{fix_connection}
use proxi.HeaderParser.Messages.{ResponseHeader, response_type, response-parse-to_string}
use proxi.HeaderParser.Policy.{should_cache}
use proxi.HeaderParser.Property.RoundTrip.{IsPlain}
use proxi.ProxyServer.Caching.{finish_transfer_lem}
use proxi.ProxyServer.Pages.{is_cached, get_cached}
use proxi.ProxyServer.Reaches.{Pages}
use proxi.ProxyServer.Transfers.{message_at, finish_transfer}
use proxi.ProxyServer.{ProxyServer, Os, ClientRequest, ServerResponse}
use proxi.Text.Numbers.{pos}
use proxi.Text.{Bytes, Fits, Lacks}

-- A message made of a page has the header of its first part, is read, and has all parts to write.
of_cache_lem :
    (h h' : ResponseHeader) (first : Bytes) (parts : List Bytes)
    → Header.parse response_type first ≡ ok h'
    → Yields
        (λ (m : ServerResponse).
          (m.header ≡ h') × (is_read m ≡ true) × (pending m ≡ concat (first ∷ parts)))
        (BufferedMessage.of_cache response_header (first ∷ parts))
unfolding BufferedMessage.of_cache is_read
of_cache_lem h h' first parts e =
    rw e (refl, le→leb (total (first ∷ parts)) (total (first ∷ parts)) (omega arith), refl)

-- A response that was read whole and may be cached, for a request whose page is not cached, and
-- whose first part is a header with a code from 0 to 2^31 - 1, no space in its version, no carriage
-- return in its first line, and plain properties, printed with some bytes behind it, to a text that
-- fits in memory: in the state that is left, if the call returns, a request for the same page gets
-- from the cache a message that is read, has that header but for "proxy-connection", and has
-- the bytes of the response to write, all of them and in order.
pub of_cache-get_cached :
    (os : Os) (conn i : ℕ) (rqst : ClientRequest) (m : ServerResponse) (s : ProxyServer)
    (h : ResponseHeader) (n : ℕ) (body : Bytes) (parts : List Bytes)
    → Pages s.cache
    → is_cached rqst.header s ≡ false
    → message_at i s.responses ≡ ok m
    → should_cache m.header ≡ true
    → m.cache ≡ (Header.to_string response_type h ++ body) ∷ parts
    → h.request_line.code ≡ pos n
    → n < 2 ^ 31
    → Lacks b' ' h.request_line.http
    → Lacks b'\r' h.request_line.http
    → Lacks b'\r' h.request_line.description
    → All IsPlain h.properties
    → Fits (Header.to_string response_type h ++ body)
    → Returns
        (λ (s' : ProxyServer).
          Yields
            (λ (m' : ServerResponse).
              (m'.header ≡ fix_connection h) × (is_read m' ≡ true) × (pending m' ≡ concat m.cache))
            (get_cached rqst.header s' >>= λ page. BufferedMessage.of_cache response_header page))
        (finish_transfer os conn rqst i s)
of_cache-get_cached os conn i rqst m s h n body parts p new there may is c b word http_line
      description_line plain fits =
    let first = Header.to_string response_type h ++ body in
    let parsed = response-parse-to_string h n body c b word http_line description_line plain fits in
    Returns-each _ (finish_transfer os conn rqst i s) (λ s' runs.
      let (kept, _) =
        subst
          (Returns (λ (s' : ProxyServer).
            (should_cache m.header ≡ true
              → (is_cached rqst.header s' ≡ true) × (get_cached rqst.header s' ≡ ok m.cache))
            × (should_cache m.header ≡ false → s'.cache ≡ s.cache)))
          runs (finish_transfer_lem os conn i rqst m s p new there) in
      let (_, found) = kept may in
      rw (found, is) (of_cache_lem h (fix_connection h) first parts parsed))
