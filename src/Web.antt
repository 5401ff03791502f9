-- ===== src/Web.antt =====
-- src/web/WebServer.cpp: the server on top of all the other parts.
pub mod Request
pub mod Site
pub mod Jobs
pub mod Users
pub mod Route
pub mod Endpoints
