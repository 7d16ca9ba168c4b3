-- ===== src/Http.antt =====
-- HTTP/starter_code: the HTTP proxy and its request parser.
pub mod Request
pub mod Headers
pub mod Unparse
pub mod Attempt
pub mod Parse
pub mod Proxy
mod Examples
