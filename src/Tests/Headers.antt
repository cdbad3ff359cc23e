-- ===== src/Tests/Headers.antt =====
-- The results on headers, at requests and responses of a few lines.
use proxi.Base.{◌≡◌, refl, [], ◌∷◌, ◌++◌, ok, arith, not, ◌&&◌, ◌||◌}
use proxi.Text.{Bytes, byte_at, codes, index_of, contains, equal, find, lower, substr, to_lower}
use proxi.Text.Numbers
use proxi.Text.Numbers.{pos}
use proxi.HeaderParser.Property.{Property}
use proxi.HeaderParser.Property
use proxi.HeaderParser.Property.RoundTrip.{IsPlain}
use proxi.HeaderParser.Header
use proxi.HeaderParser.Header.{has_property, get_property, set_property, fix_connection}
use proxi.HeaderParser.Header.Total.{EndsWell, parse-EndsWell}
use proxi.HeaderParser.Messages.{
  RequestHeader, ResponseHeader, IsOrigin, request_type, response_type, request-parse-to_string,
  response-parse-to_string,
}
use proxi.HeaderParser.Policy.{should_cache}
use proxi.HeaderParser.Policy.Laws.{should_cache_lem, should_cache-set_cache_control}
use proxi.HeaderParser.RequestLine
use proxi.HeaderParser.ResponseLine
use proxi.HeaderParser.RequestLine.Parse.{parse_no_path}

abbrev host : Property
host = record { name = codes "host"; value = codes "a.org" }

abbrev keep : Property
keep = record { name = codes "proxy-connection"; value = codes "close" }

abbrev pub tag : Property
tag = record { name = codes "etag"; value = codes "x1" }

abbrev rqst : RequestHeader
rqst = record {
  request_line = record { type = codes "GET"; url = codes "/p"; http = codes "HTTP/1.1" };
  properties = host ∷ keep ∷ [];
}

abbrev pub response : ResponseHeader
response = record {
  request_line = record { code = pos 200; description = codes "OK"; http = codes "HTTP/1.1" };
  properties = tag ∷ [];
}

host-IsPlain : IsPlain host
unfolding to_lower lower
host-IsPlain = record {
  no_colon = omega arith;
  in_lower = refl;
  no_space = omega arith;
  name_line = omega arith;
  value_line = omega arith;
}

keep-IsPlain : IsPlain keep
unfolding to_lower lower
keep-IsPlain = record {
  no_colon = omega arith;
  in_lower = refl;
  no_space = omega arith;
  name_line = omega arith;
  value_line = omega arith;
}

pub tag-IsPlain : IsPlain tag
unfolding to_lower lower
tag-IsPlain = record {
  no_colon = omega arith;
  in_lower = refl;
  no_space = omega arith;
  name_line = omega arith;
  value_line = omega arith;
}

rqst-IsOrigin : IsOrigin rqst.request_line
rqst-IsOrigin = record {
  path = codes "p";
  from_root = refl;
  type_word = omega arith;
  url_word = omega arith;
  type_line = omega arith;
  url_line = omega arith;
  http_line = omega arith;
}

request-parse-to_string_example :
    Header.parse request_type (Header.to_string request_type rqst ++ codes "body")
    ≡ ok (fix_connection rqst)
unfolding Header.to_string Header.append_properties RequestLine.to_string Property.to_string
request-parse-to_string_example =
    request-parse-to_string rqst (codes "body") rqst-IsOrigin (host-IsPlain, (keep-IsPlain, tt))
      (omega arith)

response-parse-to_string_example :
    Header.parse response_type (Header.to_string response_type response ++ codes "body")
    ≡ ok (fix_connection response)
unfolding Header.to_string Header.append_properties ResponseLine.to_string Property.to_string
    Numbers.to_string
response-parse-to_string_example =
    response-parse-to_string response 200 (codes "body") refl (omega arith) (omega arith)
      (omega arith) (omega arith) (tag-IsPlain, tt) (omega arith)

parse_no_path_example :
    RequestLine.parse (codes "CONNECT a.org:443 HTTP/1.1")
    ≡ ok (record { type = codes "CONNECT"; url = codes "/1.1"; http = codes "HTTP/1.1" })
parse_no_path_example =
    parse_no_path (codes "CONNECT") (codes "a.org:443") (codes "HTTP/1.1") (omega arith)
      (omega arith) (omega arith) b'a' (codes ".org") (codes "443") (codes "HTTP") (codes "1.1")
      refl refl (omega arith) (omega arith) (omega arith) (omega arith) (omega arith)

-- A message that was cut off inside its second line.
abbrev cut_off : Bytes
cut_off = codes "GET /p HTTP/1.1\r\nhost: a"

parse-EndsWell_example : EndsWell (Header.parse request_type cut_off)
unfolding RequestLine.parse RequestLine.path_begin substr find index_of byte_at
parse-EndsWell_example =
    parse-EndsWell request_type cut_off (codes "GET /p HTTP/1.1") rqst.request_line (omega arith)
      refl refl

should_cache_lem_example : should_cache response ≡ (
    not (
      has_property response (codes "pragma")
      && contains (to_lower (get_property response (codes "pragma"))) (codes "no-cache"))
    && not (
        has_property response (codes "cache")
        && equal (to_lower (get_property response (codes "cache"))) (codes "none"))
    && (has_property response (codes "etag") || has_property response (codes "last-modified")))
unfolding Header.has equal
should_cache_lem_example = should_cache_lem response refl

should_cache-set_cache_control_example :
    should_cache (set_property response (codes "cache-control") (codes "no-store"))
    ≡ should_cache response
unfolding Header.has equal
should_cache-set_cache_control_example =
    should_cache-set_cache_control response (codes "no-store") refl
