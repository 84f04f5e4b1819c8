-- ===== src/Backend.antt =====
-- backend/internal: the components of the API server and of the terminal gateway.
pub mod RateLimit
pub mod Session
pub mod Auth
pub mod Terminal
