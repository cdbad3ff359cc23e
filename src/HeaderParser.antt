-- ===== src/HeaderParser.antt =====
-- proxy/request_processing/header_parser.h and header_parser.cpp: the two first lines, the
-- properties, the header as a template over its first line, and the policies over headers.
pub mod Property
pub mod Header
pub mod Messages
pub mod Policy
pub mod RequestLine
pub mod ResponseLine
