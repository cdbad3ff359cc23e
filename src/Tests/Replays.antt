-- ===== src/Tests/Replays.antt =====
-- The result on a response that goes through the cache of pages: one in two parts, with a tag.
use proxi.Base.{◌≡◌, refl, [], ◌∷◌, ◌++◌, true, ◌>>=◌, Returns, Yields, arith}
use proxi.BufferedMessage
use proxi.BufferedMessage.Headers.{response_header}
use proxi.BufferedMessage.Parts.{pending, concat}
use proxi.BufferedMessage.{is_read}
use proxi.HeaderParser.Header
use proxi.HeaderParser.Header.{fix_connection}
use proxi.HeaderParser.Messages.{response_type}
use proxi.ProxyServer.Pages.{get_cached, is_cached}
use proxi.ProxyServer.Replays.{of_cache-get_cached}
use proxi.ProxyServer.Transfers.{finish_transfer, message_at}
use proxi.ProxyServer.{ProxyServer, ServerResponse}
use proxi.SimpleCache
use proxi.HeaderParser.Policy.{should_cache}
use proxi.Tests.Headers.{response, tag-IsPlain}
use proxi.Tests.Servers.{os, server, request, server-Pages}
use proxi.Text.{codes}

abbrev whole : ServerResponse
whole = record {
  header_length = 40;
  body_length = 8;
  read = 8;
  read_length = 0;
  buffer = [];
  write_length = 0;
  header = response;
  cur_part = 0;
  cache = (Header.to_string response_type response ++ codes "body") ∷ codes "more" ∷ [];
}

abbrev received : ProxyServer
received = record server { responses = whole ∷ [] }

of_cache-get_cached_example :
    Returns
      (λ (s' : ProxyServer).
        Yields
          (λ (m' : ServerResponse).
            (m'.header ≡ fix_connection response)
            × (is_read m' ≡ true)
            × (pending m' ≡ concat whole.cache))
          (get_cached request.header s' >>= λ page. BufferedMessage.of_cache response_header page))
      (finish_transfer os 0 request 0 received)
unfolding is_cached SimpleCache.has SimpleCache.find_node message_at should_cache Header.to_string
    Header.has proxi.Text.equal Header.append_properties proxi.HeaderParser.ResponseLine.to_string
    proxi.Text.Numbers.to_string proxi.HeaderParser.Property.to_string
of_cache-get_cached_example =
    of_cache-get_cached os 0 0 request whole received response 200 (codes "body")
      (codes "more" ∷ []) server-Pages refl refl refl refl refl (omega arith) (omega arith)
      (omega arith) (omega arith) (tag-IsPlain, tt) (omega arith)
