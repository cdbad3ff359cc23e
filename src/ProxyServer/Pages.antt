-- ===== src/ProxyServer/Pages.antt =====
-- The cache of proxy/proxy_server.cpp: responses by their url.
use proxi.Base.{List, [], Bool, Outcome, ok, ◌>>=◌}
use proxi.BufferedMessage
use proxi.BufferedMessage.Headers.{request_header}
use proxi.HeaderParser.Messages.{RequestHeader, ResponseHeader}
use proxi.HeaderParser.Policy.{make_validate_header, to_url}
use proxi.ProxyServer.{ProxyServer, ClientRequest, max_cache_size}
use proxi.Resolver.{same_host}
use proxi.SimpleCache
use proxi.Text.{Bytes}

-- keys are compared as texts
abbrev pub same_url : Discrete Bytes
same_url = same_host

unfoldable pub save_cached : Bytes → List Bytes → ProxyServer → Outcome ProxyServer
save_cached url response s = do
  cache ← SimpleCache.insert same_url max_cache_size s.cache url response
  ok (record s { cache = cache })

unfoldable pub is_cached : RequestHeader → ProxyServer → Bool
is_cached request s = SimpleCache.has same_url s.cache (to_url request)

unfoldable pub get_cached : RequestHeader → ProxyServer → Outcome (List Bytes)
get_cached request s = SimpleCache.find same_url s.cache (to_url request)

unfoldable pub delete_cached : RequestHeader → ProxyServer → Outcome ProxyServer
delete_cached request s = do
  cache ← SimpleCache.erase same_url s.cache (to_url request)
  ok (record s { cache = cache })

unfoldable pub make_validate_request : RequestHeader → ResponseHeader → ClientRequest
make_validate_request rqst response =
    BufferedMessage.of_header request_header (make_validate_header rqst response) []
