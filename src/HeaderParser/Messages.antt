-- ===== src/HeaderParser/Messages.antt =====
-- `request_header` and `response_header`: the header at its two first lines.
use proxi.Base.{ℕ, ◌^◌, ◌<◌, ◌≡◌, sym, ◌∙◌, ap, [], ◌∷◌, ◌++◌, ok, arith, All, append_assoc}
use proxi.HeaderParser.Header
use proxi.HeaderParser.Header.RoundTrip
use proxi.HeaderParser.Header.{Header, LineType, fix_connection}
use proxi.HeaderParser.Property.RoundTrip.{IsPlain}
use proxi.HeaderParser.RequestLine
use proxi.HeaderParser.RequestLine.Parse.{parse_origin}
use proxi.HeaderParser.RequestLine.{RequestLine}
use proxi.HeaderParser.ResponseLine
use proxi.HeaderParser.ResponseLine.RoundTrip.{line_of, response-parse-line_of}
use proxi.HeaderParser.ResponseLine.{ResponseLine}
use proxi.Text.Fields.{fields}
use proxi.Text.Numbers
use proxi.Text.Numbers.{pos, to_string-Lacks}
use proxi.Text.{Bytes, Lacks, Fits}
use proxi.Text.Laws.{Lacks-append}

abbrev pub request_type : LineType RequestLine
request_type = record { parse = RequestLine.parse; to_string = RequestLine.to_string }

abbrev pub response_type : LineType ResponseLine
response_type = record { parse = ResponseLine.parse; to_string = ResponseLine.to_string }

abbrev pub RequestHeader : Type 0
RequestHeader = Header RequestLine

abbrev pub ResponseHeader : Type 0
ResponseHeader = Header ResponseLine

request-to_string :
    (l : RequestLine) → RequestLine.to_string l ≡ fields l.type l.url l.http ++ b'\r' ∷ b'\n' ∷ []
unfolding RequestLine.to_string
request-to_string l = simp append_assoc

response-to_string :
    (n : ℕ) (description http : Bytes)
    → ResponseLine.to_string (record { code = pos n; description = description; http = http })
      ≡ line_of http n description ++ b'\r' ∷ b'\n' ∷ []
unfolding ResponseLine.to_string
response-to_string n description http = simp append_assoc

fields-Lacks :
    (a b c : Bytes) → Lacks b'\r' a → Lacks b'\r' b → Lacks b'\r' c → Lacks b'\r' (fields a b c)
fields-Lacks a b c h k l =
    Lacks-append b'\r' a (b' ' ∷ (b ++ (b' ' ∷ c))) h
      (omega arith, Lacks-append b'\r' b (b' ' ∷ c) k (omega arith, l))

-- A request line in origin form, with no space in its type and url.
pub record IsOrigin (l : RequestLine) : Type 0 where
  pub path : Bytes
  pub from_root : l.url ≡ b'/' ∷ path
  pub type_word : Lacks b' ' l.type
  pub url_word : Lacks b' ' l.url
  pub type_line : Lacks b'\r' l.type
  pub url_line : Lacks b'\r' l.url
  pub http_line : Lacks b'\r' l.http

-- A request header whose url begins with a slash, whose first line has no space in type and
-- url and no carriage return, and whose properties are plain, printed with any body behind it
-- to a text that fits in memory, is read back as it was, but for "proxy-connection".
pub request-parse-to_string :
    (h : RequestHeader) (body : Bytes)
    → IsOrigin h.request_line
    → All IsPlain h.properties
    → Fits (Header.to_string request_type h ++ body)
    → Header.parse request_type (Header.to_string request_type h ++ body) ≡ ok (fix_connection h)
request-parse-to_string h body o plain fits =
    let l = h.request_line in
    let text = fields l.type l.url l.http in
    RoundTrip.parse-to_string request_type h text body (request-to_string l)
      (λ f. parse_origin l.type l.url l.http o.type_word o.url_word f o.path o.from_root)
      (fields-Lacks l.type l.url l.http o.type_line o.url_line o.http_line) plain fits

-- A response header with a code from 0 to 2^31 - 1, no space in its version, no carriage
-- return in its first line, and plain properties, printed with any body behind it to a text
-- that fits in memory, is read back as it was, but for "proxy-connection".
pub response-parse-to_string :
    (h : ResponseHeader) (n : ℕ) (body : Bytes)
    → h.request_line.code ≡ pos n
    → n < 2 ^ 31
    → Lacks b' ' h.request_line.http
    → Lacks b'\r' h.request_line.http
    → Lacks b'\r' h.request_line.description
    → All IsPlain h.properties
    → Fits (Header.to_string response_type h ++ body)
    → Header.parse response_type (Header.to_string response_type h ++ body) ≡ ok (fix_connection h)
response-parse-to_string h n body c b word http_line description_line plain fits =
    let l = h.request_line in
    let same : l ≡ record { code = pos n; description = l.description; http = l.http } =
      λ i. record { code = c i; description = l.description; http = l.http } in
    RoundTrip.parse-to_string response_type h (line_of l.http n l.description) body
      (ap ResponseLine.to_string same ∙ response-to_string n l.description l.http)
      (λ f. response-parse-line_of l.http l.description n b word f ∙ ap ok (sym same))
      (fields-Lacks l.http (Numbers.to_string (pos n)) l.description http_line
        (to_string-Lacks b'\r' n (omega arith)) description_line)
      plain fits
