-- ===== src/Http.antt =====
-- src/http: the HTTP layer. Sources under the directory http.
pub mod Request
pub mod Parser
pub mod Matcher
pub mod Router
pub mod Response
pub mod File
pub mod FileHandler
pub mod Server
pub mod Session
mod Tests
mod FileTests
mod RouteTests
mod SessionTests
