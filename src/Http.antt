-- ===== src/Http.antt =====
-- internal/interface/http: the data of requests and replies, and the handlers. The router gives each
-- handler its path; the middleware logs, and turns a panic into a reply of its own.
pub mod Dto
pub mod Handler
pub mod Middleware
pub mod Router
