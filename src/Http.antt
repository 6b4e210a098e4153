-- ===== src/Http.antt =====
-- net/http: requests, responses and the server that joins them to connections.
pub mod CString
pub mod Request
pub mod Process
pub mod Response
pub mod Server
pub mod Session
mod Tests
