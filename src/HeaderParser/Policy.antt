-- ===== src/HeaderParser/Policy.antt =====
-- The policies of proxy/request_processing/header_parser.cpp over headers: what may be cached,
-- the request that validates a cached response, and the key of the cache.
pub mod Laws
use proxi.Base.{
  ℕ, List, [], ◌∷◌, ◌++◌, Bool, true, false, not, ◌&&◌, ◌||◌, ◌≡◌, ◌≢◌, refl, sym, ◌∙◌, ap, ◌⊎◌,
  inl, inr, if◌then◌else◌, Bool-cases, arith,
}
use proxi.HeaderParser.Header.{Header, has, get, set, has_property, get_property, set_property}
use proxi.HeaderParser.Header.Properties.{Absent, get-set, has-set, has-Absent, get-Absent}
use proxi.HeaderParser.Messages.{RequestHeader, ResponseHeader}
use proxi.HeaderParser.RequestLine.{RequestLine}
use proxi.Text.{Bytes, codes, contains, equal, to_lower}

-- The test of the value that the code looks up for "cache-control".
unfoldable pub forbids_caching : Bytes → Bool
unfolding contains
forbids_caching value =
    contains value (codes "no-cache")
    || contains value (codes "no-store")
    || contains value (codes "must-revalidate")
    || contains value (codes "proxy-revalidate")
    || contains value (codes "max-age=0")

unfoldable pub should_cache : ResponseHeader → Bool
unfolding forbids_caching
should_cache h =
    if has_property h (codes "cache-control")
      && forbids_caching (to_lower (get_property h (codes "cache_control")))
    then false
    else if has_property h (codes "pragma")
        && contains (to_lower (get_property h (codes "pragma"))) (codes "no-cache")
    then false
    else if has_property h (codes "cache")
        && equal (to_lower (get_property h (codes "cache"))) (codes "none")
    then false
    else not (not (has_property h (codes "etag")) && not (has_property h (codes "last-modified")))

unfoldable pub make_validate_header : RequestHeader → ResponseHeader → RequestHeader
make_validate_header rqst response =
    let bare : RequestHeader = record { request_line = rqst.request_line; properties = [] } in
    let host = set_property bare (codes "host") (get_property rqst (codes "host")) in
    let tagged =
      if has_property response (codes "etag")
      then set_property host (codes "if-none-match") (get_property response (codes "etag"))
      else host in
    let dated =
      if has_property response (codes "last-modified")
      then set_property tagged (codes "if-modified-since")
          (get_property response (codes "last-modified"))
      else tagged in
    set_property dated (codes "connection") (get_property rqst (codes "connection"))

unfoldable pub to_url : RequestHeader → Bytes
to_url request = get_property request (codes "host") ++ request.request_line.url
