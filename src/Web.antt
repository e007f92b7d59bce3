-- ===== src/Web.antt =====
-- apps/web/lib: the server side of the web front end.
pub mod Proxy
pub mod Session
pub mod Routes
