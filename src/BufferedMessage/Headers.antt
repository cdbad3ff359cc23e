-- ===== src/BufferedMessage/Headers.antt =====
-- The two types of message of proxy/request_processing/buffered_message.h: `client_request` and
-- `server_response`.
use proxi.BufferedMessage.{HeaderType}
use proxi.HeaderParser.Header
use proxi.HeaderParser.Header.{has_property, get_property, get_int}
use proxi.HeaderParser.Messages.{RequestHeader, ResponseHeader, request_type, response_type}

abbrev pub request_header : HeaderType RequestHeader
request_header = record {
  parse = Header.parse request_type;
  to_string = Header.to_string request_type;
  has_property = has_property;
  get_property = get_property;
  get_int = get_int;
}

abbrev pub response_header : HeaderType ResponseHeader
response_header = record {
  parse = Header.parse response_type;
  to_string = Header.to_string response_type;
  has_property = has_property;
  get_property = get_property;
  get_int = get_int;
}
