-- ===== src/Api.antt =====
-- frontend/src/api: the HTTP client and the data provider, in its two modes.
pub mod Http
pub mod Client
pub mod Provider
