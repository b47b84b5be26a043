-- ===== src/Http.antt =====
-- http_server.1.1.0: the settings (Config), and the answer to a request (Response).
pub mod Config
pub mod Response
mod Tests
